-- ===== src/Guard/Validate/Modes.antt =====
-- What it takes for `Validate` to accept a statement in each mode.
pub mod Read
pub mod Write
pub mod Define
use felsen_mcp_server_postgr.Base.{
  ℕ, Bool, true, false, not, ◌&&◌, List, [], ◌∷◌, Option, none, some, ◌≡◌, ◌≢◌, ◌↔◌, ◌⊎◌, inl, inr,
  refl, sym, ◌∙◌, arith, Text, text_eq, text_eq_iff, runes, one_of, OneOf, one_of→OneOf,
  OneOf→one_of, All, All-map, Bool-cases, Option-cases, if◌then◌else◌,
}
use felsen_mcp_server_postgr.Strings.{Unicode, trim_space}
use felsen_mcp_server_postgr.Config.Policy.{ConnectionConfig, ddl_allowed}
use felsen_mcp_server_postgr.Guard.Reason.{
  Reason, Result, ok, err, ◌>>=◌, ◌>>◌, bind-eq-ok, Result-cases, unsupported_mode,
}
use felsen_mcp_server_postgr.Guard.Token.{Token, operation_from_tokens}
use felsen_mcp_server_postgr.Guard.Token.Keywords.{Appears}
use felsen_mcp_server_postgr.Guard.Statement.{is_nil}
use felsen_mcp_server_postgr.Guard.Tables.{append_unique}
use felsen_mcp_server_postgr.Guard.Relations.{detect_table_refs}
use felsen_mcp_server_postgr.Guard.Ddl.{detect_ddl_tables_with_error}
use felsen_mcp_server_postgr.Guard.Validate.{
  Mode, read, dml, explain, ddl, other, ValidationResult, accepted, refused, checked_tokens,
  validate_mode, validate_select, validate_tables, validate_ddl, ddl_tables, validate,
  is_ddl_operation, is_dml_operation, has_limit, first_refusal, first_refused_schema,
  dml_operations, no_limit, ddl_consequential, Warning,
}
use felsen_mcp_server_postgr.Guard.Validate.Sound.{IsChecked, checked_tokens_iff}
use felsen_mcp_server_postgr.Guard.Validate.Policies.{
  HasSchema, IsGranted, IsTableAllowed, first_refusal-none, All-IsTableAllowed,
  first_refused_schema-none, All-HasSchema, dml_operations-lem,
}

module _ ⦃u : Unicode⦄ (sql : Text) (cfg : ConnectionConfig) (tokens : List Token) (op : Text) where
  -- The tables are found, and there is one if the mode is DML; the policies allow each of them.
  pub record HasAllowedTables (is_dml : Bool) (tables : List Text) : Type 0 where
    pub found : detect_table_refs tokens op ≡ ok tables
    pub target : is_dml ≡ true → tables ≢ []
    pub allowed : All (IsTableAllowed cfg is_dml (dml_operations tokens op)) tables

  is_nil_iff : (ts : List Text) → (is_nil ts ≡ true) ↔ (ts ≡ [])
  is_nil_iff [] = (λ h. refl, λ h. refl)
  is_nil_iff (t ∷ ts) = (λ h. cc, λ h. cc)

  pub validate_tables-valid :
      (is_dml : Bool)
      → (validate_tables tokens op sql cfg is_dml).valid ≡ true
      → (tables : List Text) × HasAllowedTables is_dml tables
  unfolding validate_tables
  validate_tables-valid is_dml h = elim (Result-cases (detect_table_refs tokens op)) [
    | inl (e, d) ↦ ground (arith, d)
    | inr (tables, d) ↦ elim (Bool-cases (is_dml && is_nil tables)) [
      | inl empty ↦ ground (arith, d, empty)
      | inr full ↦
          elim (Option-cases (first_refusal cfg is_dml (dml_operations tokens op) tables)) [
            | inr (reason, f) ↦ ground (arith, d, full, f)
            | inl f ↦ (
              tables,
              record {
                found = d;
                target = λ e n. ground (arith, full, e, (is_nil_iff tables).1 n);
                allowed = first_refusal-none cfg is_dml (dml_operations tokens op) tables f;
              },
            )
          ]
    ]
  ]

  has-target :
      (is_dml : Bool) (tables : List Text)
      → (is_dml ≡ true → tables ≢ [])
      → (is_dml && is_nil tables) ≡ false
  has-target false tables f = refl
  has-target true [] f = absurd (f refl refl)
  has-target true (t ∷ tables) f = refl

  pub HasAllowedTables-validate_tables :
      (is_dml : Bool) (tables : List Text)
      → HasAllowedTables is_dml tables
      → validate_tables tokens op sql cfg is_dml
        ≡ accepted op
            (text_eq op (runes "select"))
            tables
            (if text_eq op (runes "select") && not (has_limit sql) then no_limit ∷ [] else [])
  unfolding validate_tables
  HasAllowedTables-validate_tables is_dml tables a = rw (
    a.found,
    has-target is_dml tables a.target,
    All-IsTableAllowed cfg is_dml (dml_operations tokens op) tables a.allowed,
    validate_tables,
  )

module _ ⦃u : Unicode⦄ (split : Text → Result (List Text)) (text : Text)
    (cfg : ConnectionConfig) where
  -- The checked tokens of a `select` whose tables are all in allowed schemas.
  pub record IsReadable (tokens : List Token) (tables : List Text) : Type 0 where
    pub checked : IsChecked split (trim_space text) cfg tokens
    pub is_select : operation_from_tokens tokens ≡ runes "select"
    pub found : detect_table_refs tokens (operation_from_tokens tokens) ≡ ok tables
    pub schemas : All (HasSchema cfg) tables

  -- The checked tokens of an `insert`, `update` or `delete` with a target, whose tables are all in
  -- allowed schemas and under policies that grant the operation, and `update` for an upsert.
  pub record IsWritable (tokens : List Token) (tables : List Text) : Type 0 where
    pub checked : IsChecked split (trim_space text) cfg tokens
    pub is_dml : OneOf ("insert" ∷ "update" ∷ "delete" ∷ []) (operation_from_tokens tokens)
    pub found : detect_table_refs tokens (operation_from_tokens tokens) ≡ ok tables
    pub target : tables ≢ []
    pub schemas : All (HasSchema cfg) tables
    pub granted : All (λ t. IsGranted cfg t (operation_from_tokens tokens)) tables
    pub upsert :
        operation_from_tokens tokens ≡ runes "insert"
        → Appears tokens ("do" ∷ "update" ∷ [])
        → All (λ t. IsGranted cfg t (runes "update")) tables

  -- The checked tokens of one of the four DDL statements where DDL is enabled, with the tables
  -- that it defines and refers to, all of them in allowed schemas.
  pub record IsDefinable (tokens : List Token) (tables : List Text) : Type 0 where
    pub checked : IsChecked split (trim_space text) cfg tokens
    pub is_ddl :
        OneOf ("create" ∷ "alter" ∷ "drop" ∷ "truncate" ∷ []) (operation_from_tokens tokens)
    pub enabled : ddl_allowed cfg ≡ true
    pub defined : List Text
    pub refs : List Text
    pub define : detect_ddl_tables_with_error tokens ≡ ok defined
    pub refer : detect_table_refs tokens (operation_from_tokens tokens) ≡ ok refs
    pub union : append_unique defined refs ≡ tables
    pub target : tables ≢ []
    pub schemas : All (HasSchema cfg) tables

  -- A valid result comes from checked tokens.
  pub validate-checked :
      (m : Mode)
      → (validate split text cfg m).valid ≡ true
      → (tokens : List Token) × IsChecked split (trim_space text) cfg tokens
        × ((validate_mode m tokens (operation_from_tokens tokens) (trim_space text) cfg).valid
            ≡ true)
  unfolding validate
  validate-checked m h = elim (Result-cases (checked_tokens split (trim_space text) cfg)) [
    | inl (e, c) ↦ ground (arith, c)
    | inr (tokens, c) ↦
        (tokens, (checked_tokens_iff split (trim_space text) cfg tokens).0 c, rw (c, validate) at h)
  ]

  pub checked-validate :
      (m : Mode) (tokens : List Token)
      → IsChecked split (trim_space text) cfg tokens
      → validate split text cfg m
        ≡ validate_mode m tokens (operation_from_tokens tokens) (trim_space text) cfg
  unfolding validate
  checked-validate m tokens c =
      rw ((checked_tokens_iff split (trim_space text) cfg tokens).1 c, validate)
