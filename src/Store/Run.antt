-- ===== src/Store/Run.antt =====
-- `ExecuteScript`: the statements of a script in one transaction. `RowsAffected` is an `int64`,
-- here a natural number.
pub mod Atomic
use felsen_mcp_server_postgr.Base.{
  ℕ, zero, suc, ◌+◌, Bool, true, false, not, List, [], ◌∷◌, ◌++◌, Option, none, some, Text, ltb,
  if◌then◌else◌,
}
use felsen_mcp_server_postgr.Strings.{Unicode, utf8_length}
use felsen_mcp_server_postgr.Config.Policy.{ConnectionConfig}
use felsen_mcp_server_postgr.Guard.Reason.{Result, ok, err}
use felsen_mcp_server_postgr.Guard.Validate.{Mode, dml, ddl, ValidationResult}
use felsen_mcp_server_postgr.Guard.Script.{ScriptStatement, ScriptValidation, validate_script}
use felsen_mcp_server_postgr.Store.{
  Answer, value, failure, Outcome, done, failed, StoreError, invalid_script, script_too_large,
  driver, script_exceeds, statement_failed, unsupported_execution, Event, executed, execute_failed,
  committed, commit_failed, rolled_back, Driver, Database, begin_scoped, after_begin, on_done,
}
use felsen_mcp_server_postgr.Store.Change.{clear_cache, commit_with}

pub record ScriptStatementResult : Type 0 where
  pub statement_index : ℕ
  pub mode : Mode
  pub operation : Text
  pub tables : List Text
  pub rows_affected : ℕ

-- `Message` is made of the number of statements.
pub record ScriptResult : Type 0 where
  pub statements_executed : ℕ
  pub dml_statements : ℕ
  pub ddl_statements : ℕ
  pub rows_affected : ℕ
  pub statement_results : List ScriptStatementResult

abbrev pub empty_result : ScriptResult
empty_result = record {
  statements_executed = 0;
  dml_statements = 0;
  ddl_statements = 0;
  rows_affected = 0;
  statement_results = [];
}

-- The result behind statement `i`, which affected `rows` rows.
unfoldable pub count_statement : ScriptResult → ℕ → ScriptStatement → ℕ → ScriptResult
count_statement r i s rows = record {
  statements_executed = r.statements_executed + 1;
  dml_statements = elim s.mode [ Mode.dml ↦ r.dml_statements + 1 | _ ↦ r.dml_statements ];
  ddl_statements = elim s.mode [ Mode.ddl ↦ r.ddl_statements + 1 | _ ↦ r.ddl_statements ];
  rows_affected = r.rows_affected + rows;
  statement_results =
      r.statement_results
      ++ record {
        statement_index = i + 1;
        mode = s.mode;
        operation = s.validation.operation;
        tables = s.validation.tables_detected;
        rows_affected = rows;
      }
        ∷ [];
}

-- The rows that count for a statement: those of DML.
abbrev pub counted_rows : Mode → ℕ → ℕ
counted_rows Mode.dml rows = rows
counted_rows _ rows = 0

abbrev pub is_executable : Mode → Bool
is_executable Mode.dml = true
is_executable Mode.ddl = true
is_executable _ = false

module _ (d : Driver) where
  -- The `switch` over the mode, with the call it makes: the rows that count.
  unfoldable pub exec_statement : ℕ → ScriptStatement → List Event → Outcome ℕ × List Event
  exec_statement i s h =
      if not (is_executable s.mode)
      then (failed (unsupported_execution (i + 1)), rolled_back ∷ h)
      else elim (d.exec h s.sql) [
        | failure e ↦ (
          failed (statement_failed (i + 1) s.validation.operation e),
          rolled_back ∷ execute_failed s.sql ∷ h,
        )
        | value rows ↦ (done (counted_rows s.mode rows), executed s.sql ∷ h)
      ]

  -- The body of the loop.
  unfoldable pub run_statement :
      ℕ → ℕ → ScriptStatement → ScriptResult → List Event → Outcome ScriptResult × List Event
  run_statement max_rows i s r h =
      on_done
        (λ rows h'.
          if ltb max_rows (r.rows_affected + rows)
          then (failed (script_exceeds (r.rows_affected + rows) max_rows), rolled_back ∷ h')
          else (done (count_statement r i s rows), h'))
        (exec_statement i s h)

  unfoldable pub run_statements :
      ℕ → ℕ → List ScriptStatement → ScriptResult → List Event → Outcome ScriptResult × List Event
  run_statements max_rows i [] r h = (done r, h)
  run_statements max_rows i (s ∷ ss) r h =
      on_done (λ r' h'. run_statements max_rows (i + 1) ss r' h') (run_statement max_rows i s r h)

  -- The loop and the commit, in the transaction.
  unfoldable pub run_script : ℕ → ScriptValidation → List Event → Outcome ScriptResult × List Event
  run_script max_rows validation h =
      on_done (λ r h'. commit_with d r h')
        (run_statements max_rows 0 validation.statements empty_result h)

  module _ (sanitize : List Text → Text) (db : Database) where
    -- The cache is dropped behind the commit of a script with DDL.
    unfoldable pub script_database : Outcome ScriptResult → Database
    script_database (failed e) = db
    script_database (done r) = if ltb 0 r.ddl_statements then clear_cache db else db

    module _ ⦃u : Unicode⦄ (split : Text → Result (List Text)) where
      unfoldable pub validated_script : Text → List Event → Outcome ScriptResult × List Event
      validated_script script h =
          if ltb db.cfg.max_script_bytes (utf8_length script)
          then (failed (script_too_large (utf8_length script) db.cfg.max_script_bytes), h)
          else elim (validate_script split db.cfg db.cfg.max_script_statements script) [
            | err e ↦ (failed (invalid_script e), h)
            | ok validation ↦
                after_begin (run_script db.cfg.max_script_affected_rows validation)
                  (begin_scoped d sanitize db.cfg false h)
          ]

      unfoldable pub execute_script :
          Text → List Event → Outcome ScriptResult × Database × List Event
      execute_script script h =
          let (outcome, h') = validated_script script h in (outcome, script_database outcome, h')
