-- ===== src/Guard/Script.antt =====
-- internal/sqlguard/sqlguard.go: `ValidateScript`, and the functions on a whole text that its
-- callers use. The partial result beside an error is used by no caller.
pub mod Sound
use felsen_mcp_server_postgr.Base.{
  ℕ, suc, ◌+◌, ◌==◌, Bool, true, false, not, ◌&&◌, List, [], ◌∷◌, ◌++◌, Option, none, some, Text,
  runes, ltb, one_of, if◌then◌else◌,
}
use felsen_mcp_server_postgr.Strings.{Unicode, trim_space, trim_right}
use felsen_mcp_server_postgr.Config.Policy.{ConnectionConfig}
use felsen_mcp_server_postgr.Guard.Reason.{
  Reason, Result, ok, err, ◌>>=◌, script_required, max_statements_positive, script_syntax,
  script_statement, script_mode_refused, too_many_statements, not_allowed, no_executable,
}
use felsen_mcp_server_postgr.Guard.Token.{operation_from_tokens}
use felsen_mcp_server_postgr.Guard.Tokenize.{tokenize}
use felsen_mcp_server_postgr.Guard.Statement.{is_nil}
use felsen_mcp_server_postgr.Guard.Tables.{is_empty, append_unique}
use felsen_mcp_server_postgr.Guard.Relations.{detect_table_refs}
use felsen_mcp_server_postgr.Guard.Ddl.{detect_ddl_tables_with_error}
use felsen_mcp_server_postgr.Guard.Strip.{strip_sql_comments}
use felsen_mcp_server_postgr.Guard.Validate.{
  Mode, dml, ddl, other, ValidationResult, validate, is_dml_operation, is_ddl_operation,
}

pub record ScriptStatement : Type 0 where
  pub sql : Text
  pub mode : Mode
  pub validation : ValidationResult

pub record ScriptValidation : Type 0 where
  pub statements : List ScriptStatement
  pub tables_detected : List Text

-- `scriptMode`: the empty mode is `other`.
unfoldable pub script_mode : Text → Mode
script_mode op =
    if one_of ("insert" ∷ "update" ∷ "delete" ∷ []) op
    then dml
    else if one_of ("create" ∷ "alter" ∷ "drop" ∷ "truncate" ∷ []) op
    then ddl
    else other

abbrev pub is_no_mode : Mode → Bool
is_no_mode mode = elim mode [ Mode.other ↦ true | _ ↦ false ]

-- The reason of a refused statement.
unfoldable pub reason_of : ValidationResult → Reason
reason_of v = elim v.reason [ none ↦ not_allowed | some reason ↦ reason ]

module _ ⦃u : Unicode⦄ where
  unfoldable pub operation : Text → Text
  operation sql = elim (tokenize sql) [ err e ↦ [] | ok tokens ↦ operation_from_tokens tokens ]

  -- `DetectTables` and `DetectDDLTables`: no table where the text is refused.
  unfoldable pub detect_tables : Text → List Text
  detect_tables sql =
      elim (do tokens ← tokenize sql; detect_table_refs tokens (operation_from_tokens tokens)) [
        | err e ↦ []
        | ok tables ↦ tables
      ]

  unfoldable pub detect_ddl_tables : Text → List Text
  detect_ddl_tables sql = elim (do tokens ← tokenize sql; detect_ddl_tables_with_error tokens) [
    | err e ↦ []
    | ok tables ↦ tables
  ]

  -- `itoa` is `strconv.Itoa`.
  unfoldable pub apply_select_limit : (ℕ → Text) → Text → ℕ → Text
  apply_select_limit itoa sql max_rows =
      runes "select * from ("
      ++ trim_right (λ c. c == b';') (trim_space sql)
      ++ runes ") as mcp_limited_rows limit "
      ++ itoa (if max_rows == 0 then 1 else max_rows)

  module _ (split : Text → Result (List Text)) (cfg : ConnectionConfig) (max_statements : ℕ) where
    -- The body of the loop on a statement that is not empty, `number` its number.
    unfoldable pub add_script_statement : Text → ℕ → ScriptValidation → Result ScriptValidation
    add_script_statement statement number result =
        let mode = script_mode (operation statement) in
        let validation = validate split statement cfg mode in
        if ltb max_statements number
        then err (too_many_statements number max_statements)
        else if is_no_mode mode
        then err (script_mode_refused number)
        else if not validation.valid
        then err (script_statement number (reason_of validation))
        else ok (record {
          statements =
              result.statements
              ++ record { sql = statement; mode = mode; validation = validation } ∷ [];
          tables_detected = append_unique result.tables_detected validation.tables_detected;
        })

    -- The body of the loop: the number of statements so far, and the result so far.
    unfoldable pub script_turn : Text → ℕ → ScriptValidation → Result (ℕ × ScriptValidation)
    script_turn raw number result = elim (strip_sql_comments raw) [
      | err e ↦ err (script_statement (number + 1) e)
      | ok stripped ↦
          let statement = trim_space stripped in
          if is_empty statement then ok (number, result) else (do
            result' ← add_script_statement statement (number + 1) result
            ok (number + 1, result'))
    ]

    unfoldable pub script_loop : List Text → ℕ → ScriptValidation → Result ScriptValidation
    script_loop [] number result = ok result
    script_loop (raw ∷ raws) number result = do
      (number', result') ← script_turn raw number result
      script_loop raws number' result'

    unfoldable pub validate_statements : Result (List Text) → Result ScriptValidation
    validate_statements (err e) = err (script_syntax e)
    validate_statements (ok raws) = do
      result ← script_loop raws 0 (record { statements = []; tables_detected = [] })
      if is_nil result.statements then err no_executable else ok result

    -- `maxStatements` is an `int`: a negative one is refused as 0 is.
    unfoldable pub validate_script : Text → Result ScriptValidation
    validate_script script =
        if is_empty (trim_space script)
        then err script_required
        else if max_statements == 0
        then err max_statements_positive
        else validate_statements (split script)
