-- ===== src/Guard/Relations/Covered.antt =====
-- Every relation keyword of the statement is accounted for by `detectTableRefs`.
use native.Mathlib.Decide.{dec_lt}
use felsen_mcp_server_postgr.Base.{
  ℕ, zero, suc, ◌+◌, ◌<◌, ◌≤◌, List, [], ◌∷◌, Option, none, some, ◌≡◌, inl, inr, refl, arith, Text,
  text_eq, runes, get_elem?, length, Option-cases, Bool-cases,
}
use felsen_mcp_server_postgr.Strings.{Unicode}
use felsen_mcp_server_postgr.Guard.Reason.{Result, ok, ◌>>=◌, bind-eq-ok}
use felsen_mcp_server_postgr.Guard.Token.{Token, keyword_at}
use felsen_mcp_server_postgr.Guard.Tables.{append_unique}
use felsen_mcp_server_postgr.Guard.Tables.Unique.{In, append_unique_iff}
use felsen_mcp_server_postgr.Guard.Relations.{
  is_relation_keyword, relation_start, read_relation, detect_from, delete_target, add_delete_target,
  detect_table_refs, relation_at,
}

get_elem?-none {ℓ} :
    {A : Type ℓ} (xs : List A) (i j : ℕ) → i ≤ j → get_elem? xs i ≡ none → get_elem? xs j ≡ none
get_elem?-none [] i j h e = refl
get_elem?-none (x ∷ xs) zero j h e = cc
get_elem?-none (x ∷ xs) (suc i) zero h e = absurd (omega arith)
get_elem?-none (x ∷ xs) (suc i) (suc j) h e = get_elem?-none xs i j (omega arith) e

module _ ⦃u : Unicode⦄ (tokens : List Token) (op : Text) where
  -- The keyword at `j` announces the table that is read at `start` and ends before `next`.
  pub record Announces (j : ℕ) (table : Text) (next : ℕ) : Type 0 where
    pub start : ℕ
    pub announced : relation_start tokens op j ≡ some start
    pub read : read_relation tokens j start ≡ ok (table, next)

  -- The keyword at `j` is accounted for: its table is in the list, or is nameless, or `j` is
  -- itself a part of a table name that an earlier keyword announces.
  pub data IsAccounted (j : ℕ) (tables : List Text) : Type 0 where
    listed :
        {table : Text} {next : ℕ} → Announces j table next → In table tables → IsAccounted j tables
    nameless : {next : ℕ} → Announces j [] next → IsAccounted j tables
    within :
        {k : ℕ} {table : Text} {next : ℕ}
        → Announces k table next
        → k < j
        → j < next
        → IsAccounted j tables

  relation_start-none : (j : ℕ) → get_elem? tokens j ≡ none → relation_start tokens op j ≡ none
  unfolding relation_start is_relation_keyword keyword_at
  relation_start-none j e = ground (arith, e)

  -- A run of the loop from position `i` with the tables found so far, to its result.
  data Runs (result : List Text) : ℕ → List Text → Type 0 where
    stop :
        {i : ℕ} {tables : List Text}
        → get_elem? tokens i ≡ none
        → tables ≡ result
        → Runs result i tables
    pass :
        {i : ℕ} {tables : List Text}
        → relation_start tokens op i ≡ none
        → Runs result (i + 1) tables
        → Runs result i tables
    take :
        {i next : ℕ} {table : Text} {tables : List Text}
        → Announces i table next
        → Runs result next (append_unique tables (table ∷ []))
        → Runs result i tables

  detect_from-Runs :
      (fuel i : ℕ) (tables : List Text) {result : List Text}
      → detect_from fuel tokens op i tables ≡ ok result
      → Runs result i tables
  unfolding detect_from
  detect_from-Runs zero i tables h = elim (Option-cases (get_elem? tokens i)) [
    | inl e ↦ stop e (ground arith)
    | inr (t, e) ↦ ground (arith, e)
  ]
  detect_from-Runs (suc fuel) i tables {result} h = elim (Option-cases (get_elem? tokens i)) [
    | inl e ↦ stop e (ground arith)
    | inr (t, e) ↦ elim (Option-cases (relation_start tokens op i)) [
      | inl s ↦ pass s (detect_from-Runs fuel (i + 1) tables (ground (arith, e, s)))
      | inr (start, s) ↦
          let rest : Text × ℕ → Result (List Text) =
            λ r. detect_from fuel tokens op r.1 (append_unique tables (r.0 ∷ [])) in
          let h' : (read_relation tokens i start >>= rest) ≡ ok result = ground (arith, e, s) in
          let ((table, next), r, h'') = bind-eq-ok (read_relation tokens i start) rest h' in
          take (record { start = start; announced = s; read = r })
            (detect_from-Runs fuel next _ h'')
    ]
  ]

  Runs-mono :
      {result tables : List Text} {i : ℕ} (a : Text)
      → Runs result i tables
      → In a tables
      → In a result
  Runs-mono a (stop e same) m = rw (← same) m
  Runs-mono a (pass s r) m = Runs-mono a r m
  Runs-mono a (take {table} {tables} t r) m =
      Runs-mono a r ((append_unique_iff a tables (table ∷ [])).1 (inl m))

  -- The keyword at the position of a run that takes its table.
  taken-IsAccounted :
      {result : List Text} {i next : ℕ} (table : Text) (tables : List Text)
      → Announces i table next
      → Runs result next (append_unique tables (table ∷ []))
      → IsAccounted i result
  taken-IsAccounted [] tables t r = nameless t
  taken-IsAccounted (c ∷ s) tables t r = listed t (
      Runs-mono (c ∷ s) r
        ((append_unique_iff (c ∷ s) tables ((c ∷ s) ∷ [])).1 (inr (λ e. cc, inl refl))))

  Runs-IsAccounted :
      {result tables : List Text} {i : ℕ} (j start : ℕ)
      → Runs result i tables
      → i ≤ j
      → relation_start tokens op j ≡ some start
      → IsAccounted j result
  Runs-IsAccounted {i} j start (stop e same) h a =
      ground (arith, a, relation_start-none j (get_elem?-none tokens i j h e))
  Runs-IsAccounted {i} j start (pass s r) h a = elim (dec_lt i j) [
    | yes p ↦ Runs-IsAccounted j start r (omega arith) a
    | no p ↦ let same : i ≡ j = omega arith in ground (arith, a, s, same)
  ]
  Runs-IsAccounted {tables} {i} j start (take {next} {table} t r) h a = elim (dec_lt i j) [
    | yes p ↦ elim (dec_lt j next) [
      | yes q ↦ within t p q
      | no q ↦ Runs-IsAccounted j start r (omega arith) a
    ]
    | no p ↦ let same : i ≡ j = omega arith in rw (← same) (taken-IsAccounted table tables t r)
  ]

  add_delete_target_mono :
      (tables : List Text) (o : Option ℕ) {result : List Text} (a : Text)
      → add_delete_target tokens tables o ≡ ok result
      → In a tables
      → In a result
  unfolding add_delete_target
  add_delete_target_mono tables none {result} a h m =
      let same : tables ≡ result = ground arith in rw (← same) m
  add_delete_target_mono tables (some start) {result} a h m =
      let ((table, next), _, h') = bind-eq-ok (relation_at tokens start) _ h in
      let same : append_unique tables (table ∷ []) ≡ result = ground arith in
      rw (← same) ((append_unique_iff a tables (table ∷ [])).1 (inl m))

  IsAccounted-mono :
      (j : ℕ) (tables result : List Text)
      → ((a : Text) → In a tables → In a result)
      → IsAccounted j tables
      → IsAccounted j result
  IsAccounted-mono j tables result f (listed {table} t m) = listed t (f table m)
  IsAccounted-mono j tables result f (nameless t) = nameless t
  IsAccounted-mono j tables result f (within t p q) = within t p q

  -- If `detectTableRefs` returns tables, every position that announces a table is accounted for:
  -- its table is among the tables, or has no name, or the position is within a reference that an
  -- earlier position announces.
  pub detect_table_refs-IsAccounted :
      (tables : List Text) (j start : ℕ)
      → detect_table_refs tokens op ≡ ok tables
      → relation_start tokens op j ≡ some start
      → IsAccounted j tables
  unfolding detect_table_refs
  detect_table_refs-IsAccounted tables j start h a =
      let (found, e, h') = bind-eq-ok (detect_from (length tokens) tokens op 0 []) _ h in
      let here =
        Runs-IsAccounted j start (detect_from-Runs (length tokens) 0 [] e) (omega arith) a in
      elim (Bool-cases (text_eq op (runes "delete"))) [
        | inl d ↦
            IsAccounted-mono j found tables
              (λ t m.
                add_delete_target_mono found (delete_target tokens 0 tokens) t (ground (arith, d))
                  m)
              here
        | inr d ↦ let same : found ≡ tables = ground (arith, d) in rw (← same) here
      ]
