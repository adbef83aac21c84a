-- ===== src/Guard/Tokenize/Bodies.antt =====
-- The inner loops of `tokenize`: what they read and what they leave make up their input.
use felsen_mcp_server_postgr.Base.{
  ℕ, Bool, true, false, [], ◌∷◌, ◌++◌, Option, none, some, Text, ◌≡◌, refl, ap, arith, ◌==◌, ==_iff,
  All, Bool-cases, if◌then◌else◌, inl, inr,
}
use felsen_mcp_server_postgr.Guard.Token.{Token}
use felsen_mcp_server_postgr.Guard.Tokenize.{span, push_body, string_body, identifier_body}

-- A quoted identifier as it is written: each quote of its value doubled.
unfoldable pub doubled : Text → Text
doubled [] = []
doubled (c ∷ s) = if c == b'"' then b'"' ∷ b'"' ∷ doubled s else c ∷ doubled s

-- The characters that a token stands for.
abbrev pub spelling : Token → Text
spelling t = if t.quoted then b'"' ∷ (doubled t.text ++ b'"' ∷ []) else t.text

abbrev pub last_is : ℕ → Text → Bool
last_is d [] = false
last_is d (c ∷ []) = c == d
last_is d (c ∷ x ∷ s) = last_is d (x ∷ s)

pub span-append : (p : ℕ → Bool) (s : Text) → (span p s).0 ++ (span p s).1 ≡ s
unfolding span
span-append p [] = refl
span-append p (c ∷ s) = ground (arith, span-append p s)

pub span-All : (p : ℕ → Bool) (s : Text) → All (λ c. p c ≡ true) (span p s).0
unfolding span
span-All p [] = tt
span-All p (c ∷ s) = elim (Bool-cases (p c)) [ inl e ↦ rw e (e, span-All p s) | inr e ↦ rw e tt ]

-- What is read of a literal, its last quote included, and what is left make up the input.
abbrev pub Body : Text → Option (Text × Text) → Type 0
Body s none = Unit
Body s (some (b, r)) = (b ++ r ≡ s) × (last_is b'\'' b ≡ true)

Body-two :
    (c d : ℕ) (s : Text) (o : Option (Text × Text))
    → Body s o
    → Body (c ∷ d ∷ s) (push_body (c ∷ d ∷ []) o)
Body-two c d s none h = tt
Body-two c d s (some ([], r)) h = cc
Body-two c d s (some (x ∷ b, r)) h = (ap (λ t. c ∷ d ∷ t) h.0, h.1)

Body-one :
    (c : ℕ) (s : Text) (o : Option (Text × Text)) → Body s o → Body (c ∷ s) (push_body (c ∷ []) o)
Body-one c s none h = tt
Body-one c s (some ([], r)) h = cc
Body-one c s (some (x ∷ b, r)) h = (ap (◌∷◌ c) h.0, h.1)

pub string_body-Body : (s : Text) → Body s (string_body s)
unfolding string_body
string_body-Body [] = tt
string_body-Body (c ∷ []) = ground arith
string_body-Body (c ∷ d ∷ s) =
    let two = Body-two c d s (string_body s) (string_body-Body s) in
    let one = Body-one c (d ∷ s) (string_body (d ∷ s)) (string_body-Body (d ∷ s)) in
    elim (Bool-cases (c == b'\\')) [
      | inl e ↦ rw e two
      | inr e ↦ rw e (elim (Bool-cases (c == b'\'')) [
        | inl q ↦
            rw q (elim (Bool-cases (d == b'\'')) [ inl q' ↦ rw q' two | inr q' ↦ rw q' (refl, q) ])
        | inr q ↦ rw q one
      ])
    ]

abbrev pub Value : Text → Option (Text × Text) → Type 0
Value s none = Unit
Value s (some (b, r)) = (doubled b ++ b'"' ∷ []) ++ r ≡ s

Value-one :
    (c : ℕ) (s : Text) (o : Option (Text × Text))
    → (c == b'"') ≡ false
    → Value s o
    → Value (c ∷ s) (push_body (c ∷ []) o)
unfolding doubled
Value-one c s none q h = tt
Value-one c s (some (b, r)) q h = rw q (ap (◌∷◌ c) h)

Value-doubled :
    (c d : ℕ) (s : Text) (o : Option (Text × Text))
    → (c == b'"') ≡ true
    → (d == b'"') ≡ true
    → Value s o
    → Value (c ∷ d ∷ s) (push_body (c ∷ []) o)
unfolding doubled
Value-doubled c d s none q q' h = tt
Value-doubled c d s (some (b, r)) q q' h = rw q (cc (h, (==_iff c b'"').0 q, (==_iff d b'"').0 q'))

pub identifier_body-Value : (s : Text) → Value s (identifier_body s)
unfolding identifier_body doubled
identifier_body-Value [] = tt
identifier_body-Value (c ∷ []) = ground (arith, ==_iff c b'"')
identifier_body-Value (c ∷ d ∷ s) = elim (Bool-cases (c == b'"')) [
  | inl q ↦ rw q (elim (Bool-cases (d == b'"')) [
    | inl q' ↦ rw q' (Value-doubled c d s (identifier_body s) q q' (identifier_body-Value s))
    | inr q' ↦ rw q' (ground (arith, ==_iff c b'"'))
  ])
  | inr q ↦ rw q (Value-one c (d ∷ s) (identifier_body (d ∷ s)) q (identifier_body-Value (d ∷ s)))
]
