-- ===== src/Guard/Validate/Modes/Define.antt =====
-- The DDL mode of `Validate`, and a mode that is none of the four.
use felsen_mcp_server_postgr.Base.{
  true, false, List, [], ◌∷◌, ◌≡◌, ◌≢◌, ◌↔◌, inl, inr, refl, ◌∙◌, arith, Text, one_of, one_of→OneOf,
  OneOf→one_of, Bool-cases, Option-cases, if◌then◌else◌,
}
use felsen_mcp_server_postgr.Strings.{Unicode, trim_space}
use felsen_mcp_server_postgr.Config.Policy.{ConnectionConfig, ddl_allowed}
use felsen_mcp_server_postgr.Guard.Reason.{Result, ok, err, ddl_no_object, bind-eq-ok, Result-cases}
use felsen_mcp_server_postgr.Guard.Token.{Token, operation_from_tokens}
use felsen_mcp_server_postgr.Guard.Statement.{is_nil}
use felsen_mcp_server_postgr.Guard.Tables.{append_unique}
use felsen_mcp_server_postgr.Guard.Relations.{detect_table_refs}
use felsen_mcp_server_postgr.Guard.Ddl.{detect_ddl_tables_with_error}
use felsen_mcp_server_postgr.Guard.Validate.{
  ddl, other, checked_tokens, validate_mode, validate_ddl, ddl_tables, validate, is_ddl_operation,
  first_refused_schema,
}
use felsen_mcp_server_postgr.Guard.Validate.Sound.{IsChecked}
use felsen_mcp_server_postgr.Guard.Validate.Policies.{first_refused_schema-none, All-HasSchema}
use felsen_mcp_server_postgr.Guard.Validate.Modes.{IsDefinable, validate-checked, checked-validate}

module _ ⦃u : Unicode⦄ (split : Text → Result (List Text)) (text : Text)
    (cfg : ConnectionConfig) where
  union_full :
      (defined refs tables : List Text)
      → (if is_nil (append_unique defined refs)
          then err ddl_no_object
          else ok (append_unique defined refs))
        ≡ ok tables
      → (append_unique defined refs ≡ tables) × (tables ≢ [])
  union_full defined refs tables h = elim (Bool-cases (is_nil (append_unique defined refs))) [
    | inl e ↦ ground (arith, e)
    | inr e ↦
        let same : append_unique defined refs ≡ tables = ground (arith, e) in
        (same, λ n. ground (arith, same ∙ n))
  ]

  full-is_nil : (tables : List Text) → tables ≢ [] → is_nil tables ≡ false
  full-is_nil [] n = absurd (n refl)
  full-is_nil (t ∷ tables) n = refl

  validate_ddl-valid :
      (tokens : List Token)
      → IsChecked split (trim_space text) cfg tokens
      → (validate_ddl tokens (operation_from_tokens tokens) cfg).valid ≡ true
      → (tables : List Text) × IsDefinable split text cfg tokens tables
  unfolding validate_ddl is_ddl_operation
  validate_ddl-valid tokens c h =
      elim (Bool-cases
        (one_of ("create" ∷ "alter" ∷ "drop" ∷ "truncate" ∷ []) (operation_from_tokens tokens))) [
          | inr e ↦ ground (arith, e)
          | inl e ↦ elim (Bool-cases (ddl_allowed cfg)) [
            | inr off ↦ ground (arith, e, off)
            | inl on ↦ elim (Result-cases (ddl_tables tokens (operation_from_tokens tokens))) [
              | inl (x, d) ↦ ground (arith, e, on, d)
              | inr (tables, d) ↦
                  let (defined, define, d') =
                    bind-eq-ok (detect_ddl_tables_with_error tokens) _ d in
                  let (refs, refer, d'') =
                    bind-eq-ok (detect_table_refs tokens (operation_from_tokens tokens)) _ d' in
                  let (same, full) = union_full defined refs tables d'' in
                  elim (Option-cases (first_refused_schema cfg tables)) [
                    | inr (schema, f) ↦ ground (arith, e, on, d, f)
                    | inl f ↦ (
                      tables,
                      record {
                        checked = c;
                        is_ddl = one_of→OneOf _ (operation_from_tokens tokens) e;
                        enabled = on;
                        defined = defined;
                        refs = refs;
                        define = define;
                        refer = refer;
                        union = same;
                        target = full;
                        schemas = first_refused_schema-none cfg tables f;
                      },
                    )
                  ]
            ]
          ]
        ]

  IsDefinable-validate :
      (tokens : List Token) (tables : List Text)
      → IsDefinable split text cfg tokens tables
      → (validate split text cfg ddl).valid ≡ true
  unfolding validate_mode validate_ddl is_ddl_operation
  IsDefinable-validate tokens tables d =
      rw
        (
          checked-validate split text cfg ddl tokens d.checked,
          validate_mode,
          validate_ddl,
          OneOf→one_of _ (operation_from_tokens tokens) d.is_ddl,
          d.enabled,
          d.define,
          d.refer,
          d.union,
          full-is_nil tables d.target,
          All-HasSchema cfg tables d.schemas,
        )
        refl

  -- In the DDL mode `Validate` accepts a text exactly if DDL is enabled and its tokens are those
  -- of one checked `create`, `alter`, `drop` or `truncate` whose own table and references are
  -- found, are at least one and are all in allowed schemas.
  pub validate_ddl_iff :
      ((validate split text cfg ddl).valid ≡ true)
      ↔ ((tokens : List Token) × (tables : List Text) × IsDefinable split text cfg tokens tables)
  unfolding validate_mode
  validate_ddl_iff = (
    λ h.
        let (tokens, c, h') = validate-checked split text cfg ddl h in
        let (tables, d) = validate_ddl-valid tokens c h' in (tokens, tables, d),
    λ (tokens, tables, d). IsDefinable-validate tokens tables d,
  )

  -- In a mode that is none of the four `Validate` accepts nothing.
  pub validate-other : (validate split text cfg other).valid ≡ false
  unfolding validate validate_mode
  validate-other = elim (Result-cases (checked_tokens split (trim_space text) cfg)) [
    | inl (e, c) ↦ rw (c, validate) refl
    | inr (tokens, c) ↦ rw (c, validate, validate_mode) refl
  ]
