-- ===== src/Guard/Ddl/Cascade.antt =====
-- `hasUnsafeDDLCascade`: where `cascade` may stand in a DDL statement.
use felsen_mcp_server_postgr.Base.{
  ℕ, zero, suc, ◌+◌, true, false, ◌||◌, List, [], ◌∷◌, some, ◌≡◌, ◌↔◌, refl, arith, Text, text_eq,
  text_eq_iff, runes, get_elem?, OneOf, inl, inr, Bool-cases,
}
use felsen_mcp_server_postgr.Strings.{Unicode}
use felsen_mcp_server_postgr.Guard.Token.{Token, is_keyword}
use felsen_mcp_server_postgr.Guard.Ddl.{
  is_referential_action, unsafe_cascade_from, has_unsafe_ddl_cascade,
}

module _ ⦃u : Unicode⦄ (tokens : List Token) (op : Text) where
  -- A `cascade` at this position is the action of a foreign key in `create` or `alter`.
  abbrev pub IsSafeCascade : ℕ → Token → Type 0
  IsSafeCascade i t =
      is_keyword t "cascade" ≡ true
      → OneOf ("create" ∷ "alter" ∷ []) op × (is_referential_action tokens i ≡ true)

  defines_iff :
      ((text_eq op (runes "create") || text_eq op (runes "alter")) ≡ true)
      ↔ OneOf ("create" ∷ "alter" ∷ []) op
  defines_iff = ground (arith, text_eq_iff op (runes "create"), text_eq_iff op (runes "alter"))

  unsafe_cascade_from-false :
      (i : ℕ) (rest : List Token)
      → unsafe_cascade_from tokens op i rest ≡ false
      → (k : ℕ) (t : Token) → get_elem? rest k ≡ some t
      → IsSafeCascade (i + k) t
  unfolding unsafe_cascade_from
  unsafe_cascade_from-false i [] h k t e c = ground arith
  unsafe_cascade_from-false i (tok ∷ rest) h zero t e c =
      let same : tok ≡ t = ground arith in
      let here : is_keyword tok "cascade" ≡ true = rw same c in
      let start : i + 0 ≡ i = omega arith in rw start (defines_iff.0 (ground arith), ground arith)
  unsafe_cascade_from-false i (tok ∷ rest) h (suc k) t e c =
      let h' : unsafe_cascade_from tokens op (i + 1) rest ≡ false = ground arith in
      let position : i + suc k ≡ i + 1 + k = omega arith in
      rw position (unsafe_cascade_from-false (i + 1) rest h' k t e c)

  safe-unsafe_cascade_from :
      (i : ℕ) (rest : List Token)
      → ((k : ℕ) (t : Token) → get_elem? rest k ≡ some t → IsSafeCascade (i + k) t)
      → unsafe_cascade_from tokens op i rest ≡ false
  unfolding unsafe_cascade_from
  safe-unsafe_cascade_from i [] h = refl
  safe-unsafe_cascade_from i (tok ∷ rest) h =
      let later = safe-unsafe_cascade_from (i + 1) rest λ k t e.
        let position : i + 1 + k ≡ i + suc k = omega arith in rw position (h (suc k) t e) in
      elim (Bool-cases (is_keyword tok "cascade")) [
        | inr e ↦ rw (e, unsafe_cascade_from) later
        | inl e ↦
            let (d, a) = h 0 tok refl e in
            let start : i + 0 ≡ i = omega arith in
            rw (e, defines_iff.1 d, rw start at a, unsafe_cascade_from) later
      ]

  -- `hasUnsafeDDLCascade` is false exactly if each `cascade`, wherever it stands, is the action of
  -- a foreign key (`on delete cascade`, `on update cascade`) in a `create` or an `alter`.
  pub has_unsafe_ddl_cascade_iff :
      (has_unsafe_ddl_cascade tokens op ≡ false)
      ↔ ((i : ℕ) (t : Token) → get_elem? tokens i ≡ some t → IsSafeCascade i t)
  unfolding has_unsafe_ddl_cascade
  has_unsafe_ddl_cascade_iff = (
    λ h k t e.
        let start : k ≡ 0 + k = omega arith in
        rw start (unsafe_cascade_from-false 0 tokens h k t e),
    λ h.
        safe-unsafe_cascade_from 0 tokens
          λ k t e. let start : 0 + k ≡ k = omega arith in rw start (h k t e),
  )
