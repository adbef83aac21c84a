-- ===== src/Store/Query.antt =====
-- The read operations: `SampleRows`, `ExecuteSQL`, `ExplainSQL`, `queryReadOnly`, `collectRows`.
pub mod Masked
pub mod Limits
use felsen_mcp_server_postgr.Base.{
  ℕ, suc, ◌+◌, ◌==◌, Bool, true, false, not, ◌&&◌, ◌||◌, List, [], ◌∷◌, ◌++◌, map, Option, none,
  some, Text, runes, length, leb, ltb, if◌then◌else◌,
}
use felsen_mcp_server_postgr.Strings.{Unicode, trim_space, trim_right}
use felsen_mcp_server_postgr.Config.Policy.{ConnectionConfig, schema_allowed}
use felsen_mcp_server_postgr.Masking.{Masker, Value, mask_row}
use felsen_mcp_server_postgr.Guard.Reason.{Result}
use felsen_mcp_server_postgr.Guard.Validate.{read, explain, validate}
use felsen_mcp_server_postgr.Guard.Script.{apply_select_limit}
use felsen_mcp_server_postgr.Store.{
  Answer, value, failure, Outcome, done, failed, StoreError, invalid_statement, schema_refused,
  driver, Event, queried, query_failed, committed, commit_failed, rolled_back, Rows, Driver,
  Database, begin_scoped, after_begin,
}

pub record QueryResult : Type 0 where
  pub columns : List Text
  pub rows : List (List Value)
  pub row_count : ℕ

-- `jsonSafeValues`; `decode` is `string(v)` of bytes, `format` is `time.Time.Format`.
unfoldable pub json_safe_values : (List ℕ → Text) → (ℕ → Text) → List Value → List Value
json_safe_values decode format [] = []
json_safe_values decode format (Value.bytes b ∷ vs) =
    Value.string (decode b) ∷ json_safe_values decode format vs
json_safe_values decode format (Value.time t ∷ vs) =
    Value.string (format t) ∷ json_safe_values decode format vs
json_safe_values decode format (v ∷ vs) = v ∷ json_safe_values decode format vs

module _ ⦃u : Unicode⦄ (decode : List ℕ → Text) (format : ℕ → Text) where
  -- The loop of `collectRows`; `count` is the number of rows so far.
  unfoldable pub collect_from :
      Masker → ℕ → List Text → ℕ → List (Answer (List Value)) → Answer (List (List Value))
  collect_from m max_rows columns count [] = value []
  collect_from m max_rows columns count (answer ∷ answers) =
      let rest = collect_from m max_rows columns (count + 1) answers in
      if leb max_rows count then value [] else elim answer [
        | failure e ↦ failure e
        | value vs ↦ elim rest [
          | failure e ↦ failure e
          | value rows ↦ value (mask_row m columns (json_safe_values decode format vs) ∷ rows)
        ]
      ]

  unfoldable pub collect_rows : Masker → ℕ → Rows → Answer QueryResult
  collect_rows m max_rows rows = elim (collect_from m max_rows rows.fields 0 rows.values) [
    | failure e ↦ failure e
    | value collected ↦ elim rows.error [
      | some e ↦ failure e
      | none ↦
          value (record { columns = rows.fields; rows = collected; row_count = length collected })
    ]
  ]

  module _ (d : Driver) (sanitize : List Text → Text) (db : Database) where
    -- The end of `queryReadOnly`; the deferred rollback does nothing behind a commit.
    unfoldable pub finish_query : Answer QueryResult → List Event → Outcome QueryResult × List Event
    finish_query (failure e) h = (failed (driver e), rolled_back ∷ h)
    finish_query (value result) h = elim (d.commit h) [
      | some e ↦ (failed (driver e), rolled_back ∷ commit_failed ∷ h)
      | none ↦ (done result, committed ∷ h)
    ]

    unfoldable pub run_query : Text → List ℕ → List Event → Outcome QueryResult × List Event
    run_query sql args h = elim (d.query h sql args) [
      | failure e ↦ (failed (driver e), rolled_back ∷ query_failed sql ∷ h)
      | value rows ↦ finish_query (collect_rows db.masker db.cfg.max_rows rows) (queried sql ∷ h)
    ]

    -- A transaction that failed to start is not rolled back; one whose search path fails is.
    unfoldable pub query_read_only : Text → List ℕ → List Event → Outcome QueryResult × List Event
    query_read_only sql args h =
        after_begin (run_query sql args) (begin_scoped d sanitize db.cfg true h)

    -- `limit` is an `int`: a negative one is treated as 0 is.
    unfoldable pub sample_rows : Text → Text → ℕ → List Event → Outcome QueryResult × List Event
    sample_rows schema table limit h =
        let limit' = if limit == 0 || ltb db.cfg.max_rows limit then db.cfg.max_rows else limit in
        if not (schema_allowed db.cfg schema)
        then (failed (schema_refused schema), h)
        else query_read_only
            (runes "select * from " ++ sanitize (schema ∷ table ∷ []) ++ runes " limit $1")
            (limit' ∷ []) h

    -- `itoa` is `strconv.Itoa`; `split` is `splitStatements`.
    unfoldable pub execute_sql :
        (Text → Result (List Text))
        → (ℕ → Text)
        → Text
        → List Event
        → Outcome QueryResult × List Event
    execute_sql split itoa sql h =
        let validation = validate split sql db.cfg read in
        if not validation.valid
        then (failed (invalid_statement validation.reason), h)
        else query_read_only (apply_select_limit itoa sql db.cfg.max_rows) [] h

    unfoldable pub explain_sql :
        (Text → Result (List Text)) → Text → List Event → Outcome QueryResult × List Event
    explain_sql split sql h =
        let validation = validate split sql db.cfg explain in
        if not validation.valid
        then (failed (invalid_statement validation.reason), h)
        else query_read_only
            (runes "explain (format json) " ++ trim_right (λ c. c == b';') (trim_space sql)) [] h
