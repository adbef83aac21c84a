-- ===== src/App/Tools.antt =====
-- internal/mcpserver/server.go: the tools that run SQL, `sample_rows`, `refresh_schema_cache` and
-- what they do to the databases of the connections. Each connection has its database, with the
-- cache, and the history of the calls of its driver. The log of the calls is not modelled.
use felsen_mcp_server_postgr.Base.{
  ℕ, not, List, Option, none, some, Text, runes, Entries, find, put, if◌then◌else◌,
}
use felsen_mcp_server_postgr.Strings.{Unicode}
use felsen_mcp_server_postgr.Guard.Reason.{Result}
use felsen_mcp_server_postgr.Authn.{has_scope}
use felsen_mcp_server_postgr.Store.{
  value, failure, Outcome, done, failed, unknown_connection, Event, Driver, Database,
}
use felsen_mcp_server_postgr.Store.Query.{QueryResult, sample_rows, execute_sql, explain_sql}
use felsen_mcp_server_postgr.Store.Change.{
  DmlResult, DdlResult, execute_dml, execute_ddl, refresh_schema_cache,
}
use felsen_mcp_server_postgr.Store.Run.{ScriptResult, execute_script}
use felsen_mcp_server_postgr.App.{App, authorize}

-- A connection of the store.
pub record Pool : Type 0 where
  pub database : Database
  pub history : List Event

-- The call is denied before it reaches the store, or it is what the store says.
pub data ToolResult {ℓ} (A : Type ℓ) : Type ℓ where
  denied : Text → ToolResult A
  answered : Outcome A → ToolResult A

-- The arguments of a tool.
pub data ToolCall : Type 0 where
  sql_call explain_call dml_call ddl_call script_call : Text → Text → ToolCall
  sample_call : Text → Text → Text → ℕ → ToolCall
  refresh_call : Text → ToolCall

-- `Store.db`, and the operation on what it finds.
abbrev pub on_connection {ℓ} :
    {A : Type ℓ} → (Pool → Outcome A × Pool) → Text → Entries Pool → ToolResult A × Entries Pool
on_connection run connection pools = elim (find pools connection) [
  | none ↦ (answered (failed (unknown_connection connection)), pools)
  | some pool ↦ let (outcome, pool') = run pool in (answered outcome, put pools connection pool')
]

-- `split` is `splitStatements`, `sanitize` `pgx.Identifier.Sanitize`, `itoa` `strconv.Itoa`;
-- `decode` and `format` are those of the rows of a query; `header` is the header of the request.
module _ ⦃u : Unicode⦄ (decode : List ℕ → Text) (format : ℕ → Text)
    (split : Text → Result (List Text)) (sanitize : List Text → Text) (itoa : ℕ → Text)
    (driver_of : Text → Driver) (app : App) (header : Option Text) where
  abbrev pub with_scope {ℓ} :
      {A : Type ℓ}
      → Text
      → Text
      → (Text → Pool → Outcome A × Pool)
      → Entries Pool
      → ToolResult A × Entries Pool
  with_scope scope requested run pools = elim (authorize app header requested scope) [
    | failure e ↦ (denied e, pools)
    | value (p, connection) ↦ on_connection (run connection) connection pools
  ]

  unfoldable pub execute_sql_tool :
      Text → Text → Entries Pool → ToolResult QueryResult × Entries Pool
  execute_sql_tool requested sql pools =
      with_scope (runes "read") requested
        (λ connection pool.
          let (outcome, h) =
            execute_sql decode format (driver_of connection) sanitize pool.database split itoa sql
              pool.history in
          (outcome, record pool { history = h }))
        pools

  unfoldable pub sample_rows_tool :
      Text → Text → Text → ℕ → Entries Pool → ToolResult QueryResult × Entries Pool
  sample_rows_tool requested schema table limit pools =
      with_scope (runes "read") requested
        (λ connection pool.
          let (outcome, h) =
            sample_rows decode format (driver_of connection) sanitize pool.database schema table
              limit pool.history in
          (outcome, record pool { history = h }))
        pools

  unfoldable pub explain_sql_tool :
      Text → Text → Entries Pool → ToolResult QueryResult × Entries Pool
  explain_sql_tool requested sql pools =
      with_scope (runes "read") requested
        (λ connection pool.
          let (outcome, h) =
            explain_sql decode format (driver_of connection) sanitize pool.database split sql
              pool.history in
          (outcome, record pool { history = h }))
        pools

  unfoldable pub execute_dml_tool : Text → Text → Entries Pool → ToolResult DmlResult × Entries Pool
  execute_dml_tool requested sql pools =
      with_scope (runes "write") requested
        (λ connection pool.
          let (outcome, h) =
            execute_dml (driver_of connection) sanitize pool.database split sql pool.history in
          (outcome, record pool { history = h }))
        pools

  unfoldable pub execute_ddl_tool : Text → Text → Entries Pool → ToolResult DdlResult × Entries Pool
  execute_ddl_tool requested sql pools =
      with_scope (runes "ddl") requested
        (λ connection pool.
          let (outcome, db, h) =
            execute_ddl (driver_of connection) sanitize pool.database split sql pool.history in
          (outcome, record { database = db; history = h }))
        pools

  -- The only tool that asks for a second scope.
  unfoldable pub execute_script_tool :
      Text → Text → Entries Pool → ToolResult ScriptResult × Entries Pool
  execute_script_tool requested script pools =
      elim (authorize app header requested (runes "write")) [
        | failure e ↦ (denied e, pools)
        | value (p, connection) ↦
            if not (has_scope p (runes "ddl"))
            then (denied (runes "ddl scope is required for execute_script"), pools)
            else on_connection
                (λ pool.
                  let (outcome, db, h) =
                    execute_script (driver_of connection) sanitize pool.database split script
                      pool.history in
                  (outcome, record { database = db; history = h }))
                connection pools
      ]

  unfoldable pub refresh_schema_cache_tool :
      Text → Entries Pool → ToolResult (Unit {0}) × Entries Pool
  refresh_schema_cache_tool requested pools =
      with_scope (runes "read") requested
        (λ connection pool.
          (done tt, record pool { database = refresh_schema_cache pool.database }))
        pools

  -- The connections behind a call of a tool.
  unfoldable pub pools_after : ToolCall → Entries Pool → Entries Pool
  pools_after (sql_call requested sql) pools = (execute_sql_tool requested sql pools).1
  pools_after (explain_call requested sql) pools = (explain_sql_tool requested sql pools).1
  pools_after (sample_call requested schema table limit) pools =
      (sample_rows_tool requested schema table limit pools).1
  pools_after (dml_call requested sql) pools = (execute_dml_tool requested sql pools).1
  pools_after (ddl_call requested sql) pools = (execute_ddl_tool requested sql pools).1
  pools_after (script_call requested script) pools = (execute_script_tool requested script pools).1
  pools_after (refresh_call requested) pools = (refresh_schema_cache_tool requested pools).1
