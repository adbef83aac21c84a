-- ===== src/Guard/Validate/Modes/Write.antt =====
-- The DML mode of `Validate`.
use felsen_mcp_server_postgr.Base.{
  true, List, [], ◌∷◌, ◌≡◌, ◌↔◌, inl, inr, refl, arith, Text, runes, one_of, one_of→OneOf,
  OneOf→one_of, All, All-map, Bool-cases,
}
use felsen_mcp_server_postgr.Strings.{Unicode, trim_space}
use felsen_mcp_server_postgr.Config.Policy.{ConnectionConfig}
use felsen_mcp_server_postgr.Guard.Reason.{Result}
use felsen_mcp_server_postgr.Guard.Token.{Token, operation_from_tokens}
use felsen_mcp_server_postgr.Guard.Token.Keywords.{Appears}
use felsen_mcp_server_postgr.Guard.Validate.{
  dml, validate_mode, validate_tables, validate, is_dml_operation, dml_operations,
}
use felsen_mcp_server_postgr.Guard.Validate.Policies.{
  HasSchema, IsGranted, IsTableAllowed, dml_operations-lem, lem-dml_operations,
}
use felsen_mcp_server_postgr.Guard.Validate.Modes.{
  validate_tables-valid, HasAllowedTables-validate_tables, IsWritable, validate-checked,
  checked-validate,
}

module _ ⦃u : Unicode⦄ (split : Text → Result (List Text)) (text : Text)
    (cfg : ConnectionConfig) where
  validate_mode-dml :
      (tokens : List Token)
      → (one_of ("insert" ∷ "update" ∷ "delete" ∷ []) (operation_from_tokens tokens) ≡ true)
      → validate_mode dml tokens (operation_from_tokens tokens) (trim_space text) cfg
        ≡ validate_tables tokens (operation_from_tokens tokens) (trim_space text) cfg true
  unfolding validate_mode is_dml_operation
  validate_mode-dml tokens e = rw e

  -- Every table is granted each of the operations that the policies are asked for.
  dml_operations-granted :
      (tokens : List Token) (tables : List Text) (P : Text → Text → Type 0)
      → All (λ t. All (P t) (dml_operations tokens (operation_from_tokens tokens))) tables
      → All (λ t. P t (operation_from_tokens tokens)) tables
        × (operation_from_tokens tokens ≡ runes "insert"
            → Appears tokens ("do" ∷ "update" ∷ [])
            → All (λ t. P t (runes "update")) tables)
  dml_operations-granted tokens [] P h = (tt, λ _ _. tt)
  dml_operations-granted tokens (t ∷ tables) P h =
      let (now, upsert) = dml_operations-lem tokens (operation_from_tokens tokens) (P t) h.0 in
      let (later, upserts) = dml_operations-granted tokens tables P h.1 in
      ((now, later), λ e a. (upsert e a, upserts e a))

  -- The converse of `dml_operations-granted`.
  granted-dml_operations :
      (tokens : List Token) (tables : List Text)
      → All (HasSchema cfg) tables
      → All (λ t. IsGranted cfg t (operation_from_tokens tokens)) tables
      → (operation_from_tokens tokens ≡ runes "insert"
          → Appears tokens ("do" ∷ "update" ∷ [])
          → All (λ t. IsGranted cfg t (runes "update")) tables)
      → All (IsTableAllowed cfg true (dml_operations tokens (operation_from_tokens tokens))) tables
  granted-dml_operations tokens [] s g up = tt
  granted-dml_operations tokens (t ∷ tables) s g up = (
    (
      s.0,
      lem-dml_operations tokens (operation_from_tokens tokens) (IsGranted cfg t) g.0
          (λ e a. (up e a).0),
    ),
    granted-dml_operations tokens tables s.1 g.1 λ e a. (up e a).1,
  )

  IsWritable-validate :
      (tokens : List Token) (tables : List Text)
      → IsWritable split text cfg tokens tables
      → (validate split text cfg dml).valid ≡ true
  IsWritable-validate tokens tables w =
      rw
        (
          checked-validate split text cfg dml tokens w.checked,
          validate_mode-dml tokens (OneOf→one_of _ (operation_from_tokens tokens) w.is_dml),
          HasAllowedTables-validate_tables (trim_space text) cfg tokens
              (operation_from_tokens tokens) true tables
              (record {
                found = w.found;
                target = λ _. w.target;
                allowed = granted-dml_operations tokens tables w.schemas w.granted w.upsert;
              }),
        )
        refl

  -- In the DML mode `Validate` accepts a text exactly if its tokens are those of one checked
  -- statement, an `insert`, `update` or `delete` whose tables are found and are at least one, each
  -- table in an allowed schema and under a policy that grants the operation on it, and `update`
  -- too for an insert with `do update`.
  pub validate_dml_iff :
      ((validate split text cfg dml).valid ≡ true)
      ↔ ((tokens : List Token) × (tables : List Text) × IsWritable split text cfg tokens tables)
  unfolding validate_mode is_dml_operation
  validate_dml_iff = (
    λ h.
        let (tokens, c, h') = validate-checked split text cfg dml h in
        elim (Bool-cases
          (one_of ("insert" ∷ "update" ∷ "delete" ∷ []) (operation_from_tokens tokens))) [
            | inr e ↦ ground (arith, e)
            | inl e ↦
                let (tables, a) =
                  validate_tables-valid (trim_space text) cfg tokens (operation_from_tokens tokens)
                    true (ground (arith, e)) in
                let (granted, upsert) =
                  dml_operations-granted tokens tables (IsGranted cfg)
                    (All-map _ _ (λ t x. x.1) tables a.allowed) in
                (
                  tokens,
                  tables,
                  record {
                    checked = c;
                    is_dml = one_of→OneOf _ (operation_from_tokens tokens) e;
                    found = a.found;
                    target = a.target refl;
                    schemas = All-map _ _ (λ t x. x.0) tables a.allowed;
                    granted = granted;
                    upsert = upsert;
                  },
                )
          ],
    λ (tokens, tables, w). rw (IsWritable-validate tokens tables w) refl,
  )
