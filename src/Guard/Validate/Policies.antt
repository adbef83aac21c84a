-- ===== src/Guard/Validate/Policies.antt =====
-- The loops over the tables that are found: what it means that none of them is refused.
use felsen_mcp_server_postgr.Base.{
  Bool, true, false, ◌&&◌, List, [], ◌∷◌, none, ◌≡◌, refl, arith, Text, text_eq, text_eq_iff, runes,
  All, Any, Bool-cases, inl, inr,
}
use felsen_mcp_server_postgr.Strings.{Unicode}
use felsen_mcp_server_postgr.Config.Policy.{ConnectionConfig}
use felsen_mcp_server_postgr.Config.Policy.Allowed.{
  Covers, Grants, schema_allowed_iff, dml_allowed_iff,
}
use felsen_mcp_server_postgr.Guard.Token.{Token, contains_sequence}
use felsen_mcp_server_postgr.Guard.Token.Keywords.{Appears, contains_sequence_iff}
use felsen_mcp_server_postgr.Guard.Tables.{split_table}
use felsen_mcp_server_postgr.Guard.Validate.{
  first_refused_schema, first_refused_operation, refuse_table, first_refusal, dml_operations,
}

module _ ⦃u : Unicode⦄ (cfg : ConnectionConfig) where
  -- A configured schema covers the schema of the table.
  abbrev pub HasSchema : Text → Type 0
  HasSchema table = Any (λ p. Covers p (split_table table).0) cfg.schemas

  -- A DML policy grants the operation on the table.
  abbrev pub IsGranted : Text → Text → Type 0
  IsGranted table op = Any (Grants (split_table table).0 (split_table table).1 op) cfg.dml_policies

  -- The operations are granted, where the mode is DML.
  abbrev pub IsTableAllowed : Bool → List Text → Text → Type 0
  IsTableAllowed false ops table = HasSchema table
  IsTableAllowed true ops table = HasSchema table × All (IsGranted table) ops

  pub first_refused_schema-none :
      (tables : List Text) → first_refused_schema cfg tables ≡ none → All HasSchema tables
  unfolding first_refused_schema
  first_refused_schema-none [] h = tt
  first_refused_schema-none (t ∷ tables) h = (
    (schema_allowed_iff cfg (split_table t).0).0 (ground arith),
    first_refused_schema-none tables (ground arith),
  )

  first_refused_operation-none :
      (t : Text) (ops : List Text)
      → first_refused_operation cfg (split_table t).0 (split_table t).1 ops ≡ none
      → All (IsGranted t) ops
  unfolding first_refused_operation
  first_refused_operation-none t [] h = tt
  first_refused_operation-none t (op ∷ ops) h = (
    (dml_allowed_iff cfg (split_table t).0 (split_table t).1 op).0 (ground arith),
    first_refused_operation-none t ops (ground arith),
  )

  refuse_table-none :
      (is_dml : Bool) (ops : List Text) (t : Text)
      → refuse_table cfg is_dml ops t ≡ none
      → IsTableAllowed is_dml ops t
  unfolding refuse_table
  refuse_table-none false ops t h = (schema_allowed_iff cfg (split_table t).0).0 (ground arith)
  refuse_table-none true ops t h = (
    (schema_allowed_iff cfg (split_table t).0).0 (ground arith),
    first_refused_operation-none t ops (ground arith),
  )

  pub first_refusal-none :
      (is_dml : Bool) (ops tables : List Text)
      → first_refusal cfg is_dml ops tables ≡ none
      → All (IsTableAllowed is_dml ops) tables
  unfolding first_refusal
  first_refusal-none is_dml ops [] h = tt
  first_refusal-none is_dml ops (t ∷ tables) h = (
    refuse_table-none is_dml ops t (ground arith),
    first_refusal-none is_dml ops tables (ground arith),
  )

  -- The converses: tables that the policies allow are not refused.
  pub All-HasSchema :
      (tables : List Text) → All HasSchema tables → first_refused_schema cfg tables ≡ none
  unfolding first_refused_schema
  All-HasSchema [] h = refl
  All-HasSchema (t ∷ tables) h =
      rw ((schema_allowed_iff cfg (split_table t).0).1 h.0) (All-HasSchema tables h.1)

  All-IsGranted :
      (t : Text) (ops : List Text)
      → All (IsGranted t) ops
      → first_refused_operation cfg (split_table t).0 (split_table t).1 ops ≡ none
  unfolding first_refused_operation
  All-IsGranted t [] h = refl
  All-IsGranted t (op ∷ ops) h =
      rw ((dml_allowed_iff cfg (split_table t).0 (split_table t).1 op).1 h.0)
        (All-IsGranted t ops h.1)

  IsTableAllowed-refuse_table :
      (is_dml : Bool) (ops : List Text) (t : Text)
      → IsTableAllowed is_dml ops t
      → refuse_table cfg is_dml ops t ≡ none
  unfolding refuse_table
  IsTableAllowed-refuse_table false ops t h =
      rw ((schema_allowed_iff cfg (split_table t).0).1 h) refl
  IsTableAllowed-refuse_table true ops t h =
      rw ((schema_allowed_iff cfg (split_table t).0).1 h.0) (rw (All-IsGranted t ops h.1) refl)

  pub All-IsTableAllowed :
      (is_dml : Bool) (ops tables : List Text)
      → All (IsTableAllowed is_dml ops) tables
      → first_refusal cfg is_dml ops tables ≡ none
  unfolding first_refusal
  All-IsTableAllowed is_dml ops [] h = refl
  All-IsTableAllowed is_dml ops (t ∷ tables) h =
      rw (IsTableAllowed-refuse_table is_dml ops t h.0, first_refusal)
        (All-IsTableAllowed is_dml ops tables h.1)

module _ ⦃u : Unicode⦄ where
  -- The operation itself is asked for, and `update` too for an insert with `do update`.
  pub dml_operations-lem :
      (tokens : List Token) (op : Text) (P : Text → Type 0)
      → All P (dml_operations tokens op)
      → P op × (op ≡ runes "insert" → Appears tokens ("do" ∷ "update" ∷ []) → P (runes "update"))
  unfolding dml_operations
  dml_operations-lem tokens op P h = elim (Bool-cases (text_eq op (runes "insert"))) [
    | inl insert ↦ elim (Bool-cases (contains_sequence tokens ("do" ∷ "update" ∷ []))) [
      | inl upsert ↦
          let both : All P (op ∷ runes "update" ∷ []) = rw (insert, upsert) at h in
          (both.0, λ _ _. both.1.0)
      | inr plain ↦
          let one : All P (op ∷ []) = rw (insert, plain) at h in
          (
            one.0,
            λ _ a. ground (arith, plain, (contains_sequence_iff tokens "do" ("update" ∷ [])).1 a),
          )
    ]
    | inr other ↦
        let one : All P (op ∷ []) = rw other at h in
        (one.0, λ e _. ground (arith, other, (text_eq_iff op (runes "insert")).1 e))
  ]

  pub lem-dml_operations :
      (tokens : List Token) (op : Text) (P : Text → Type 0)
      → P op
      → (op ≡ runes "insert" → Appears tokens ("do" ∷ "update" ∷ []) → P (runes "update"))
      → All P (dml_operations tokens op)
  unfolding dml_operations
  lem-dml_operations tokens op P now up =
      elim (Bool-cases
        (text_eq op (runes "insert") && contains_sequence tokens ("do" ∷ "update" ∷ []))) [
          | inr plain ↦ rw plain (now, tt)
          | inl upsert ↦ rw upsert (
            now,
            (
              up ((text_eq_iff op (runes "insert")).0 (ground (arith, upsert)))
                  ((contains_sequence_iff tokens "do" ("update" ∷ [])).0 (ground (arith, upsert))),
              tt,
            ),
          )
        ]
