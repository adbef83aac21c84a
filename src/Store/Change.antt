-- ===== src/Store/Change.antt =====
-- `ExecuteDML`, `ExecuteDDL` and `RefreshSchemaCache`. A result that is returned beside an error
-- is in the error where it holds anything.
pub mod Atomic
use felsen_mcp_server_postgr.Base.{
  ℕ, Bool, true, false, not, List, [], ◌∷◌, ◌++◌, Option, none, some, Text, runes, ltb,
  if◌then◌else◌,
}
use felsen_mcp_server_postgr.Strings.{Unicode}
use felsen_mcp_server_postgr.Config.Policy.{ConnectionConfig}
use felsen_mcp_server_postgr.Masking.{Masker}
use felsen_mcp_server_postgr.Guard.Reason.{Result}
use felsen_mcp_server_postgr.Guard.Validate.{dml, ddl, ValidationResult, validate}
use felsen_mcp_server_postgr.Store.{
  Answer, value, failure, Outcome, done, failed, invalid_statement, driver, dml_exceeds, Event,
  executed, execute_failed, committed, commit_failed, rolled_back, Driver, Database,
  TableDescription, begin_scoped, after_begin,
}

pub record DmlResult : Type 0 where
  pub rows_affected : ℕ

-- `Message` of `DDLResult` is made of these.
pub record DdlResult : Type 0 where
  pub operation : Text
  pub tables : List Text

-- `db.cache = map[string]TableDescription{}`.
unfoldable pub clear_cache : Database → Database
clear_cache db = record { cfg = db.cfg; masker = db.masker; cache = [] }

abbrev pub refresh_schema_cache : Database → Database
refresh_schema_cache db = clear_cache db

module _ (d : Driver) where
  -- The commit, with the result behind it.
  unfoldable pub commit_with {ℓ} : {A : Type ℓ} → A → List Event → Outcome A × List Event
  commit_with a h = elim (d.commit h) [
    | some e ↦ (failed (driver e), commit_failed ∷ h)
    | none ↦ (done a, committed ∷ h)
  ]

  module _ (sanitize : List Text → Text) (db : Database) where
    -- `tx.Exec` and the row limit, in the transaction.
    unfoldable pub exec_dml : Text → List Event → Outcome DmlResult × List Event
    exec_dml sql h = elim (d.exec h sql) [
      | failure e ↦ (failed (driver e), rolled_back ∷ execute_failed sql ∷ h)
      | value rows ↦
          if ltb db.cfg.max_affected_rows rows
          then (failed (dml_exceeds rows db.cfg.max_affected_rows), rolled_back ∷ executed sql ∷ h)
          else commit_with (record { rows_affected = rows }) (executed sql ∷ h)
    ]

    unfoldable pub exec_ddl : ValidationResult → Text → List Event → Outcome DdlResult × List Event
    exec_ddl validation sql h = elim (d.exec h sql) [
      | failure e ↦ (failed (driver e), rolled_back ∷ execute_failed sql ∷ h)
      | value rows ↦
          commit_with
            (record { operation = validation.operation; tables = validation.tables_detected })
            (executed sql ∷ h)
    ]

    abbrev pub cache_after {ℓ} : {A : Type ℓ} → Outcome A → Database
    cache_after (done a) = clear_cache db
    cache_after (failed e) = db

    module _ ⦃u : Unicode⦄ (split : Text → Result (List Text)) where
      unfoldable pub execute_dml : Text → List Event → Outcome DmlResult × List Event
      execute_dml sql h =
          let validation = validate split sql db.cfg dml in
          if not validation.valid
          then (failed (invalid_statement validation.reason), h)
          else after_begin (exec_dml sql) (begin_scoped d sanitize db.cfg false h)

      unfoldable pub run_ddl : Text → List Event → Outcome DdlResult × List Event
      run_ddl sql h =
          let validation = validate split sql db.cfg ddl in
          if not validation.valid
          then (failed (invalid_statement validation.reason), h)
          else after_begin (exec_ddl validation sql) (begin_scoped d sanitize db.cfg false h)

      -- The whole cache is dropped behind a commit.
      unfoldable pub execute_ddl : Text → List Event → Outcome DdlResult × Database × List Event
      execute_ddl sql h = let (outcome, h') = run_ddl sql h in (outcome, cache_after outcome, h')
