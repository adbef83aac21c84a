-- ===== src/Guard/Validate.antt =====
-- internal/sqlguard/sqlguard.go: `Validate`, `HasLimit`, `ApplySelectLimit` and the result type.
-- `splitStatements` differs by build (parser_cgo.go calls a library, parser_nocgo.go is this
-- repository's own): it is the argument `split`, whatever it returns.
pub mod Sound
pub mod Policies
pub mod Modes
use felsen_mcp_server_postgr.Base.{
  ℕ, zero, suc, Bool, true, false, not, ◌&&◌, ◌||◌, List, [], ◌∷◌, ◌++◌, Option, none, some, String,
  Text, text_eq, runes, one_of, length, ◌==◌, if◌then◌else◌,
}
use felsen_mcp_server_postgr.Strings.{Unicode, trim_space, trim_right}
use felsen_mcp_server_postgr.Config.Policy.{
  ConnectionConfig, schema_allowed, ddl_allowed, dml_allowed,
}
use felsen_mcp_server_postgr.Guard.Reason.{
  Reason, Result, ok, err, ◌>>=◌, ◌>>◌, sql_required, one_statement, invalid_syntax,
  unsupported_mode, ddl_mode_statement, ddl_disabled, ddl_no_object, read_only_select, dml_only,
  dml_no_target, schema_not_allowed, dml_not_allowed,
}
use felsen_mcp_server_postgr.Guard.Token.{
  Token, contains_keyword, contains_sequence, operation_from_tokens,
}
use felsen_mcp_server_postgr.Guard.Tokenize.{tokenize}
use felsen_mcp_server_postgr.Guard.Statement.{
  is_nil, validate_statement_tokens, validate_function_schemas,
}
use felsen_mcp_server_postgr.Guard.Tables.{is_empty, split_table, append_unique}
use felsen_mcp_server_postgr.Guard.Relations.{detect_table_refs}
use felsen_mcp_server_postgr.Guard.Ddl.{detect_ddl_tables_with_error}

-- `Mode` is a string: `other` is any that is none of the four constants.
pub data Mode : Type 0 where
  read dml explain ddl other : Mode

pub data Warning : Type 0 where
  no_limit ddl_consequential : Warning

-- `reason` is a string in the source, empty where there is none.
pub record ValidationResult : Type 0 where
  pub valid : Bool
  pub read_only : Bool
  pub operation : Text
  pub tables_detected : List Text
  pub warnings : List Warning
  pub reason : Option Reason

abbrev pub invalid_with_operation : Text → Bool → Reason → ValidationResult
invalid_with_operation op read_only reason = record {
  valid = false;
  read_only = read_only;
  operation = op;
  tables_detected = [];
  warnings = [];
  reason = some reason;
}

abbrev pub invalid : Reason → ValidationResult
invalid reason = invalid_with_operation [] false reason

-- The results that name a table which is refused.
abbrev pub refused : Text → Bool → List Text → Reason → ValidationResult
refused op read_only tables reason = record {
  valid = false;
  read_only = read_only;
  operation = op;
  tables_detected = tables;
  warnings = [];
  reason = some reason;
}

abbrev pub accepted : Text → Bool → List Text → List Warning → ValidationResult
accepted op read_only tables warnings = record {
  valid = true;
  read_only = read_only;
  operation = op;
  tables_detected = tables;
  warnings = warnings;
  reason = none;
}

-- `isDDLOperation`, and the switch of the DML mode.
unfoldable pub is_ddl_operation : Text → Bool
is_ddl_operation op = one_of ("create" ∷ "alter" ∷ "drop" ∷ "truncate" ∷ []) op

unfoldable pub is_dml_operation : Text → Bool
is_dml_operation op = one_of ("insert" ∷ "update" ∷ "delete" ∷ []) op

module _ ⦃u : Unicode⦄ where
  unfoldable pub has_limit : Text → Bool
  has_limit sql = elim (tokenize sql) [
    | ok tokens ↦ contains_keyword tokens "limit"
    | err e ↦ false
  ]

  -- The checks on the tokens of the statement.
  unfoldable pub check_statement : ConnectionConfig → List Token → Result (List Token)
  check_statement cfg tokens =
      if is_nil tokens
      then err sql_required
      else (do validate_statement_tokens tokens; validate_function_schemas tokens cfg; ok tokens)

  -- The checks behind the splitter, on what it returns.
  unfoldable pub check_split : Result (List Text) → Text → ConnectionConfig → Result (List Token)
  check_split (err e) sql cfg = err (invalid_syntax e)
  check_split (ok statements) sql cfg =
      if not (length statements == 1)
      then err one_statement
      else (do tokens ← tokenize sql; check_statement cfg tokens)

  -- The checks up to the operation, with the tokens.
  unfoldable pub checked_tokens :
      (Text → Result (List Text)) → Text → ConnectionConfig → Result (List Token)
  unfolding check_statement check_split
  checked_tokens split sql cfg =
      if is_empty sql then err sql_required else check_split (split sql) sql cfg

  -- The first table whose schema is not allowed.
  unfoldable pub first_refused_schema : ConnectionConfig → List Text → Option Text
  first_refused_schema cfg [] = none
  first_refused_schema cfg (table ∷ tables) =
      let rest = first_refused_schema cfg tables in
      let schema = (split_table table).0 in
      if not (schema_allowed cfg schema) then some schema else rest

  abbrev pub ddl_result : ConnectionConfig → Text → List Text → Option Text → ValidationResult
  ddl_result cfg op tables (some schema) = refused op false tables (schema_not_allowed schema)
  ddl_result cfg op tables none = accepted op false tables (ddl_consequential ∷ [])

  abbrev pub ddl_tables : List Token → Text → Result (List Text)
  ddl_tables tokens op = do
    tables ← detect_ddl_tables_with_error tokens
    refs ← detect_table_refs tokens op
    let all_tables = append_unique tables refs
    if is_nil all_tables then err ddl_no_object else ok all_tables

  unfoldable pub validate_ddl : List Token → Text → ConnectionConfig → ValidationResult
  validate_ddl tokens op cfg =
      if not (is_ddl_operation op)
      then invalid ddl_mode_statement
      else if not (ddl_allowed cfg)
      then invalid ddl_disabled
      else elim (ddl_tables tokens op) [
        | err e ↦ invalid e
        | ok tables ↦ ddl_result cfg op tables (first_refused_schema cfg tables)
      ]

  -- The operations that the policies are asked for.
  unfoldable pub dml_operations : List Token → Text → List Text
  dml_operations tokens op =
      if text_eq op (runes "insert") && contains_sequence tokens ("do" ∷ "update" ∷ [])
      then op ∷ runes "update" ∷ []
      else op ∷ []

  -- The innermost loop: the first operation that no policy allows.
  unfoldable pub first_refused_operation : ConnectionConfig → Text → Text → List Text → Option Text
  first_refused_operation cfg schema name [] = none
  first_refused_operation cfg schema name (op ∷ ops) =
      let rest = first_refused_operation cfg schema name ops in
      if not (dml_allowed cfg schema name op) then some op else rest

  -- The body of the loop over the tables: why this one is refused.
  unfoldable pub refuse_table : ConnectionConfig → Bool → List Text → Text → Option Reason
  refuse_table cfg is_dml operations table =
      let (schema, name) = split_table table in
      if not (schema_allowed cfg schema)
      then some (schema_not_allowed schema)
      else if not is_dml
      then none
      else elim (first_refused_operation cfg schema name operations) [
        | none ↦ none
        | some operation ↦ some (dml_not_allowed schema name operation)
      ]

  unfoldable pub first_refusal : ConnectionConfig → Bool → List Text → List Text → Option Reason
  first_refusal cfg is_dml operations [] = none
  first_refusal cfg is_dml operations (table ∷ tables) =
      let rest = first_refusal cfg is_dml operations tables in
      elim (refuse_table cfg is_dml operations table) [ none ↦ rest | some reason ↦ some reason ]

  abbrev pub statement_result : Text → Bool → List Text → Text → Option Reason → ValidationResult
  statement_result op read_only tables sql (some reason) = refused op read_only tables reason
  statement_result op read_only tables sql none =
      accepted op read_only tables
        (if text_eq op (runes "select") && not (has_limit sql) then no_limit ∷ [] else [])

  -- Read, explain and DML modes, behind the test of the operation; the flag is `mode == ModeDML`.
  unfoldable pub validate_tables :
      List Token → Text → Text → ConnectionConfig → Bool → ValidationResult
  validate_tables tokens op sql cfg is_dml =
      let read_only = text_eq op (runes "select") in
      elim (detect_table_refs tokens op) [
        | err e ↦ invalid_with_operation op read_only e
        | ok tables ↦
            if is_dml && is_nil tables
            then invalid_with_operation op read_only dml_no_target
            else statement_result op read_only tables sql
                (first_refusal cfg is_dml (dml_operations tokens op) tables)
      ]

  unfoldable pub validate_select : List Token → Text → Text → ConnectionConfig → ValidationResult
  validate_select tokens op sql cfg =
      if not (text_eq op (runes "select"))
      then invalid_with_operation op (text_eq op (runes "select")) read_only_select
      else validate_tables tokens op sql cfg false

  unfoldable pub validate_mode :
      Mode → List Token → Text → Text → ConnectionConfig → ValidationResult
  validate_mode other tokens op sql cfg = invalid unsupported_mode
  validate_mode ddl tokens op sql cfg = validate_ddl tokens op cfg
  validate_mode read tokens op sql cfg = validate_select tokens op sql cfg
  validate_mode explain tokens op sql cfg = validate_select tokens op sql cfg
  validate_mode dml tokens op sql cfg =
      if not (is_dml_operation op)
      then invalid_with_operation op (text_eq op (runes "select")) dml_only
      else validate_tables tokens op sql cfg true

  unfoldable pub validate :
      (Text → Result (List Text)) → Text → ConnectionConfig → Mode → ValidationResult
  validate split text cfg mode =
      let sql = trim_space text in
      elim (checked_tokens split sql cfg) [
        | err e ↦ invalid e
        | ok tokens ↦ validate_mode mode tokens (operation_from_tokens tokens) sql cfg
      ]
