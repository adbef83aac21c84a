-- ===== src/Guard/Token/Keywords.antt =====
-- Where the keywords and sequences that the guard looks for stand in the token list.
use felsen_mcp_server_postgr.Base.{
  ℕ, zero, suc, true, List, [], ◌∷◌, ◌≡◌, refl, ◌↔◌, inl, inr, arith, String, Bool-cases,
}
use felsen_mcp_server_postgr.Strings.{Unicode}
use felsen_mcp_server_postgr.Guard.Token.{
  Token, keyword_at, sequence_here, sequence_from, contains_sequence,
}

module _ ⦃u : Unicode⦄ where
  -- The values stand side by side in the tokens from position `i` on.
  abbrev pub Spells : List Token → ℕ → List String → Type 0
  Spells ts i [] = Unit
  Spells ts i (v ∷ vs) = (keyword_at ts i v ≡ true) × Spells ts (suc i) vs

  -- They do so from some position on.
  abbrev pub Appears : List Token → List String → Type 0
  Appears ts vs = (i : ℕ) × Spells ts i vs

  Spells-cons :
      (t : Token) (ts : List Token) (i : ℕ) (vs : List String)
      → Spells ts i vs
      → Spells (t ∷ ts) (suc i) vs
  unfolding keyword_at
  Spells-cons t ts i [] h = tt
  Spells-cons t ts i (v ∷ vs) h = (h.0, Spells-cons t ts (suc i) vs h.1)

  Spells-uncons :
      (t : Token) (ts : List Token) (i : ℕ) (vs : List String)
      → Spells (t ∷ ts) (suc i) vs
      → Spells ts i vs
  unfolding keyword_at
  Spells-uncons t ts i [] h = tt
  Spells-uncons t ts i (v ∷ vs) h = (h.0, Spells-uncons t ts (suc i) vs h.1)

  sequence_here→Spells :
      (ts : List Token) (vs : List String) → sequence_here ts vs ≡ true → Spells ts 0 vs
  unfolding sequence_here keyword_at
  sequence_here→Spells ts [] h = tt
  sequence_here→Spells [] (v ∷ vs) h = cc
  sequence_here→Spells (t ∷ ts) (v ∷ vs) h =
      (ground arith, Spells-cons t ts 0 vs (sequence_here→Spells ts vs (ground arith)))

  Spells→sequence_here :
      (ts : List Token) (vs : List String) → Spells ts 0 vs → sequence_here ts vs ≡ true
  unfolding sequence_here keyword_at
  Spells→sequence_here ts [] h = refl
  Spells→sequence_here [] (v ∷ vs) h = ground arith
  Spells→sequence_here (t ∷ ts) (v ∷ vs) h =
      ground (arith, h.0, Spells→sequence_here ts vs (Spells-uncons t ts 0 vs h.1))

  sequence_from→Appears :
      (ts : List Token) (vs : List String) → sequence_from ts vs ≡ true → Appears ts vs
  unfolding sequence_from
  sequence_from→Appears [] vs h = (0, sequence_here→Spells [] vs h)
  sequence_from→Appears (t ∷ ts) vs h = elim (Bool-cases (sequence_here (t ∷ ts) vs)) [
    | inl e ↦ (0, sequence_here→Spells (t ∷ ts) vs e)
    | inr e ↦
        let later : Appears ts vs = sequence_from→Appears ts vs (ground arith) in
        (suc later.0, Spells-cons t ts later.0 vs later.1)
  ]

  Spells→sequence_from :
      (ts : List Token) (v : String) (vs : List String) (i : ℕ)
      → Spells ts i (v ∷ vs)
      → sequence_from ts (v ∷ vs) ≡ true
  unfolding sequence_from keyword_at
  Spells→sequence_from [] v vs i h = ground arith
  Spells→sequence_from (t ∷ ts) v vs zero h =
      ground (arith, Spells→sequence_here (t ∷ ts) (v ∷ vs) h)
  Spells→sequence_from (t ∷ ts) v vs (suc i) h =
      ground (arith, Spells→sequence_from ts v vs i (Spells-uncons t ts i (v ∷ vs) h))

  -- `containsSequence` finds a non-empty sequence of keywords exactly if it stands somewhere in
  -- the tokens.
  pub contains_sequence_iff :
      (ts : List Token) (v : String) (vs : List String)
      → (contains_sequence ts (v ∷ vs) ≡ true) ↔ Appears ts (v ∷ vs)
  unfolding contains_sequence
  contains_sequence_iff ts v vs =
      (sequence_from→Appears ts (v ∷ vs), λ h. Spells→sequence_from ts v vs h.0 h.1)
