-- ===== src/Authn/Header.antt =====
-- Whom a header authenticates.
use felsen_mcp_server_postgr.Base.{
  ◌≤◌, true, false, List, [], ◌∷◌, ◌++◌, Option, none, some, ◌≡◌, ◌≢◌, ◌↔◌, refl, sym, ◌∙◌, inl,
  inr, arith, Text, text_eq, text_eq_iff, runes, length, take, drop, All, Bool-cases, Option-cases,
}
use felsen_mcp_server_postgr.Strings.{Unicode, trim_space, equal_fold}
use felsen_mcp_server_postgr.Guard.Tables.{is_empty}
use felsen_mcp_server_postgr.Authn.{
  Principal, ApiKey, Manager, Authenticator, key_with_hash, bearer_token, authenticate_header,
  some_items, composite_authenticate, one_or_composite, new_composite, http_middleware, served,
  unauthorized,
}

-- The principal is that of the first key with the hash.
abbrev pub IsFirstKey : List ApiKey → Text → Principal → Type 0
IsFirstKey keys hash p =
    (before : List ApiKey) × (key : ApiKey) × (after : List ApiKey) × (keys ≡ before ++ key ∷ after)
    × All (λ k. k.hash ≢ hash) before
    × (key.hash ≡ hash)
    × (key.principal ≡ p)

key_with_hash-first :
    (keys : List ApiKey) (hash : Text) (p : Principal)
    → key_with_hash keys hash ≡ some p
    → IsFirstKey keys hash p
unfolding key_with_hash
key_with_hash-first [] hash p h = cc
key_with_hash-first (k ∷ keys) hash p h = elim (Bool-cases (text_eq hash k.hash)) [
  | inl e ↦ ([], k, keys, refl, tt, sym ((text_eq_iff hash k.hash).0 e), ground (arith, e))
  | inr e ↦
      let (before, key, after, split, other, same, who) =
        key_with_hash-first keys hash p (ground (arith, e)) in
      (
        k ∷ before,
        key,
        after,
        rw split refl,
        (λ x. ground (arith, e, (text_eq_iff hash k.hash).1 (sym x)), other),
        same,
        who,
      )
]

first-key_with_hash :
    (before : List ApiKey) (key : ApiKey) (after : List ApiKey) (hash : Text)
    → All (λ k. k.hash ≢ hash) before
    → key.hash ≡ hash
    → key_with_hash (before ++ key ∷ after) hash ≡ some key.principal
unfolding key_with_hash
first-key_with_hash [] key after hash other same =
    rw ((text_eq_iff hash key.hash).1 (sym same)) refl
first-key_with_hash (k ∷ before) key after hash (n, other) same =
    elim (Bool-cases (text_eq hash k.hash)) [
      | inl e ↦ absurd (n (sym ((text_eq_iff hash k.hash).0 e)))
      | inr e ↦ rw (e, key_with_hash) (first-key_with_hash before key after hash other same)
    ]

module _ ⦃u : Unicode⦄ where
  -- The header, trimmed, is `Bearer ` in any case and a token around white space.
  pub record IsBearer (header token : Text) : Type 0 where
    pub long : 7 ≤ length (trim_space header)
    pub prefix : equal_fold (take 7 (trim_space header)) (runes "Bearer ") ≡ true
    pub secret : token ≡ trim_space (drop 7 (trim_space header))
    pub full : is_empty token ≡ false

  pub bearer_token_iff :
      (header token : Text) → (bearer_token header ≡ some token) ↔ IsBearer header token
  unfolding bearer_token
  bearer_token_iff header token = (
    λ h. record {
      long = ground arith;
      prefix = ground arith;
      secret = ground arith;
      full = ground arith;
    },
    λ b. ground (arith, b.long, b.prefix, b.secret, b.full),
  )

  -- `AuthenticateHeader` returns a principal exactly for a bearer token whose hash is that of a
  -- configured key, and it is the principal of the first such key.
  pub authenticate_header_iff :
      (sha256_hex : Text → Text) (m : Manager) (header : Text) (p : Principal)
      → (authenticate_header sha256_hex m header ≡ some p)
        ↔ ((token : Text) × IsBearer header token × IsFirstKey m.keys (sha256_hex token) p)
  unfolding authenticate_header
  authenticate_header_iff sha256_hex m header p = (
    λ h. elim (Option-cases (bearer_token header)) [
      | inl e ↦ ground (arith, e)
      | inr (token, e) ↦ (
        token,
        (bearer_token_iff header token).0 e,
        key_with_hash-first m.keys (sha256_hex token) p (ground (arith, e)),
      )
    ],
    λ (token, b, (before, key, after, split, other, same, who)).
        rw ((bearer_token_iff header token).1 b, split, authenticate_header)
          (first-key_with_hash before key after (sha256_hex token) other same ∙ rw who refl),
  )

module _ (header : Text) where
  one_or_composite-lem :
      (items : List Authenticator)
      → one_or_composite items header ≡ composite_authenticate items header
  unfolding composite_authenticate
  one_or_composite-lem [] = refl
  one_or_composite-lem (item ∷ []) = elim (Option-cases (item header)) [
    | inl e ↦ rw e refl
    | inr (p, e) ↦ rw e refl
  ]
  one_or_composite-lem (a ∷ b ∷ items) = refl

  -- The principal comes from the first item that returns one.
  abbrev pub IsFirstItem : List Authenticator → Principal → Type 0
  IsFirstItem items p =
      (before : List Authenticator) × (item : Authenticator) × (after : List Authenticator) × (items
        ≡ before ++ item ∷ after)
      × All (λ a. a header ≡ none) before
      × (item header ≡ some p)

  composite-first :
      (items : List Authenticator) (p : Principal)
      → composite_authenticate items header ≡ some p
      → IsFirstItem items p
  unfolding composite_authenticate
  composite-first [] p h = cc
  composite-first (item ∷ items) p h = elim (Option-cases (item header)) [
    | inr (q, e) ↦ ([], item, items, refl, tt, e ∙ ground (arith, e))
    | inl e ↦
        let (before, found, after, split, nobody, who) =
          composite-first items p (ground (arith, e)) in
        (item ∷ before, found, after, rw split refl, (e, nobody), who)
  ]

  first-composite :
      (before : List Authenticator) (item : Authenticator) (after : List Authenticator)
      (p : Principal)
      → All (λ a. a header ≡ none) before
      → item header ≡ some p
      → composite_authenticate (before ++ item ∷ after) header ≡ some p
  unfolding composite_authenticate
  first-composite [] item after p nobody who = rw who refl
  first-composite (a ∷ before) item after p nobody who =
      rw (nobody.0, composite_authenticate) (first-composite before item after p nobody.1 who)

  -- A composite authenticator returns a principal exactly if the first of its items to return one,
  -- nil items left out, returns that one.
  pub new_composite_iff :
      (items : List (Option Authenticator)) (p : Principal)
      → (new_composite items header ≡ some p) ↔ IsFirstItem (some_items items) p
  unfolding new_composite
  new_composite_iff items p = (
    λ h. composite-first (some_items items) p (sym (one_or_composite-lem (some_items items)) ∙ h),
    λ (before, item, after, split, nobody, who).
        one_or_composite-lem (some_items items)
        ∙ rw split (first-composite before item after p nobody who),
  )

  -- The middleware passes a request on exactly if there is an authenticator and it returns a
  -- principal for the header; otherwise it answers with the challenge.
  pub http_middleware_iff :
      (authenticator : Option Authenticator) (challenge : Text)
      → ((http_middleware authenticator challenge header ≡ served) ↔ (
          (a : Authenticator) × (p : Principal) × (authenticator ≡ some a) × (a header ≡ some p)))
        × (http_middleware authenticator challenge header ≢ served
            → http_middleware authenticator challenge header ≡ unauthorized challenge)
  unfolding http_middleware
  http_middleware_iff none challenge = ((λ h. cc, λ (a, p, e, q). cc), λ _. refl)
  http_middleware_iff (some a) challenge = elim (Option-cases (a header)) [
    | inl e ↦ rw e ((λ h. cc, λ (b, p, same, q). ground (arith, e)), λ _. refl)
    | inr (p, e) ↦ rw e ((λ h. (a, p, refl, e), λ _. refl), λ n. absurd (n refl))
  ]
