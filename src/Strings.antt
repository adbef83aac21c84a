-- ===== src/Strings.antt =====
-- The parts of Go's `strings` and `unicode` that the source calls, over texts. The tables of
-- Unicode are not part of the program: they are the argument `Unicode`, and what the proofs use
-- of them are facts about single ASCII characters.
pub mod Ascii
pub mod Laws
use felsen_mcp_server_postgr.Base.{
  ℕ, ◌+◌, ltb, Bool, true, false, not, ◌&&◌, List, [], ◌∷◌, ◌++◌, map, Option, none, some, Text,
  text_eq, any, ◌==◌, if◌then◌else◌,
}

-- `unicode.IsSpace`, `IsLetter`, `IsDigit`, `ToLower`. `fold c` is one chosen member of the
-- characters that are equal to `c` under simple case folding: `strings.EqualFold` compares those.
pub record Unicode : Type 0 where
  pub is_space : ℕ → Bool
  pub is_letter : ℕ → Bool
  pub is_digit : ℕ → Bool
  pub lower : ℕ → ℕ
  pub fold : ℕ → ℕ

-- `strings.TrimLeftFunc` and `strings.TrimRightFunc`.
unfoldable pub trim_left : (ℕ → Bool) → Text → Text
trim_left p [] = []
trim_left p (c ∷ s) = if p c then trim_left p s else c ∷ s

abbrev pub keep_unless : (ℕ → Bool) → ℕ → Text → Text
keep_unless p c [] = if p c then [] else c ∷ []
keep_unless p c (d ∷ s) = c ∷ d ∷ s

unfoldable pub trim_right : (ℕ → Bool) → Text → Text
trim_right p [] = []
trim_right p (c ∷ s) = keep_unless p c (trim_right p s)

-- `strings.Trim(s, cutset)` for a cutset of one character.
unfoldable pub trim_char : ℕ → Text → Text
unfolding trim_left trim_right
trim_char d s = trim_right (λ c. c == d) (trim_left (λ c. c == d) s)

-- `strings.Split(s, sep)` for a separator of one character: never the empty list.
abbrev pub push_first : ℕ → List Text → List Text
push_first c [] = (c ∷ []) ∷ []
push_first c (p ∷ ps) = (c ∷ p) ∷ ps

unfoldable pub split : ℕ → Text → List Text
split sep [] = [] ∷ []
split sep (c ∷ s) = let rest = split sep s in if c == sep then [] ∷ rest else push_first c rest

-- `strings.FieldsFunc`: the maximal runs of characters outside `p`.
unfoldable pub goes_on : (ℕ → Bool) → Text → Bool
goes_on p [] = false
goes_on p (c ∷ s) = not (p c)

unfoldable pub fields : (ℕ → Bool) → Text → List Text
unfolding goes_on
fields p [] = []
fields p (c ∷ s) =
    let rest = fields p s in
    if p c then rest else if goes_on p s then push_first c rest else (c ∷ []) ∷ rest

-- `strings.Join`.
unfoldable pub join : Text → List Text → Text
join sep [] = []
join sep (a ∷ []) = a
join sep (a ∷ b ∷ rest) = a ++ sep ++ join sep (b ∷ rest)

-- `strings.Contains(s, sub)` for one character.
unfoldable pub contains_char : ℕ → Text → Bool
contains_char d s = any (λ c. c == d) s

-- `strings.HasPrefix` and `strings.TrimPrefix`.
unfoldable pub cut_prefix : Text → Text → Option Text
cut_prefix [] s = some s
cut_prefix (p ∷ ps) [] = none
cut_prefix (p ∷ ps) (c ∷ s) = let rest = cut_prefix ps s in if p == c then rest else none

module _ ⦃u : Unicode⦄ where
  -- `strings.TrimSpace`.
  unfoldable pub trim_space : Text → Text
  unfolding trim_left trim_right
  trim_space s = trim_right u.is_space (trim_left u.is_space s)

  -- `strings.ToLower`.
  unfoldable pub to_lower : Text → Text
  to_lower s = map u.lower s

  -- `strings.EqualFold`.
  unfoldable pub equal_fold : Text → Text → Bool
  unfolding text_eq
  equal_fold a b = text_eq (map u.fold a) (map u.fold b)

-- `len(s)`: the bytes of the text in UTF-8.
unfoldable pub utf8_length : Text → ℕ
utf8_length [] = 0
utf8_length (c ∷ s) =
    let rest = utf8_length s in
    (if ltb c 128 then 1 else if ltb c 2048 then 2 else if ltb c 65536 then 3 else 4) + rest
