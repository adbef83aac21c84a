-- ===== src/App/Writes.antt =====
-- Which statements a call of a tool brings into effect.
use felsen_mcp_server_postgr.Base.{
  ℕ, true, List, [], ◌∷◌, ◌++◌, map, Option, none, some, ◌≡◌, ◌⊎◌, refl, ap, inl, inr, arith, Text,
  text_eq, text_eq_iff, runes, Entries, find, find-put_self, Bool-cases, Option-cases,
}
use felsen_mcp_server_postgr.Strings.{Unicode}
use felsen_mcp_server_postgr.Config.Policy.{ConnectionConfig}
use felsen_mcp_server_postgr.Guard.Reason.{Result, ok}
use felsen_mcp_server_postgr.Guard.Validate.{dml, ddl, validate}
use felsen_mcp_server_postgr.Guard.Script.{ScriptValidation, validate_script}
use felsen_mcp_server_postgr.Authn.{has_scope}
use felsen_mcp_server_postgr.Store.{Answer-cases, Outcome, done, failed, Event, Driver, Database}
use felsen_mcp_server_postgr.Store.Effects.{effects, Atomic}
use felsen_mcp_server_postgr.Store.Change.{execute_dml, run_ddl, execute_ddl}
use felsen_mcp_server_postgr.Store.Change.Atomic.{execute_dml-Atomic, execute_ddl-Atomic}
use felsen_mcp_server_postgr.Store.Run.{ScriptResult, execute_script}
use felsen_mcp_server_postgr.Store.Run.Atomic.{IsAllOrNothing, execute_script-IsAllOrNothing}
use felsen_mcp_server_postgr.Store.Query.Limits.{
  sample_rows-IsReadOnly, execute_sql-IsReadOnly, explain_sql-IsReadOnly,
}
use felsen_mcp_server_postgr.App.{App, authorize}
use felsen_mcp_server_postgr.App.Tools.{
  Pool, ToolCall, sql_call, sample_call, explain_call, dml_call, ddl_call, script_call,
  refresh_call, on_connection, with_scope, execute_sql_tool, sample_rows_tool, explain_sql_tool,
  execute_dml_tool, execute_ddl_tool, execute_script_tool, refresh_schema_cache_tool, pools_after,
}
use felsen_mcp_server_postgr.App.Permits.{
  IsPermitted, scopes_of, pools_after-IsGuarded, on_connection-other,
}

-- The statements in effect in the database of a connection.
abbrev pub effects_at : Entries Pool → Text → List Text
effects_at pools connection = elim (find pools connection) [
  | none ↦ []
  | some pool ↦ effects pool.history
]

-- The statements of a call that the policies of a connection accept: those of its text, in the
-- mode of its tool, or those of its script. Only three tools have any.
abbrev pub IsAccepted :
    ⦃u : Unicode⦄ → (Text → Result (List Text)) → ToolCall → ConnectionConfig → List Text → Type 0
IsAccepted split (dml_call requested sql) cfg sqls =
    ((validate split sql cfg dml).valid ≡ true) × (sqls ≡ sql ∷ [])
IsAccepted split (ddl_call requested sql) cfg sqls =
    ((validate split sql cfg ddl).valid ≡ true) × (sqls ≡ sql ∷ [])
IsAccepted split (script_call requested script) cfg sqls =
    (v : ScriptValidation) × (validate_script split cfg cfg.max_script_statements script ≡ ok v)
    × (sqls ≡ map (λ s. s.sql) v.statements)
IsAccepted split _ cfg sqls = ⊥

-- An operation on a connection adds accepted statements to those in effect, or none.
abbrev Adds : (ConnectionConfig → List Text → Type 0) → Database → List Event → List Event → Type 0
Adds Accepted db h h' =
    (effects h' ≡ effects h)
    ⊎ ((sqls : List Text) × (effects h' ≡ effects h ++ sqls) × Accepted db.cfg sqls)

-- The statements in effect behind a call are those before and accepted ones.
abbrev pub IsWritten :
    (ConnectionConfig → List Text → Type 0) → Entries Pool → Entries Pool → Text → Type 0
IsWritten Accepted pools pools' connection =
    (pool : Pool) × (find pools connection ≡ some pool)
    × (sqls : List Text) × (effects_at pools' connection ≡ effects_at pools connection ++ sqls)
    × Accepted pool.database.cfg sqls

module _ (Accepted : ConnectionConfig → List Text → Type 0) where
  on_connection-Adds :
      {A : Type 0} (run : Pool → Outcome A × Pool) (used : Text) (pools : Entries Pool)
      (connection : Text)
      → ((pool : Pool) → Adds Accepted pool.database pool.history (run pool).1.history)
      → (effects_at (on_connection run used pools).1 connection ≡ effects_at pools connection)
        ⊎ IsWritten Accepted pools (on_connection run used pools).1 connection
  on_connection-Adds run used pools connection adds = elim (Bool-cases (text_eq connection used)) [
    | inr e ↦ inl (
        ap (λ o. elim o [ none ↦ [] | some pool ↦ effects pool.history ])
          (on_connection-other run used connection pools
            (λ same. ground (arith, (text_eq_iff connection used).1 same))))
    | inl e ↦ elim (Option-cases (find pools used)) [
      | inl absent ↦ inl (rw (on_connection, absent) refl)
      | inr (pool, present) ↦
          rw
            (
              (text_eq_iff connection used).0 e,
              on_connection,
              effects_at,
              present,
              find-put_self pools used (run pool).1,
            )
            (elim (adds pool) [
              | inl same ↦ inl same
              | inr (sqls, more, accepted) ↦ inr (pool, refl, sqls, more, accepted)
            ])
    ]
  ]

Atomic-Adds {ℓ} :
    {A : Type ℓ} (Accepted : ConnectionConfig → List Text → Type 0) (db : Database) (h : List Event)
    (sqls : List Text)
    → Accepted db.cfg sqls
    → (o : Outcome A × List Event) → Atomic h sqls o
    → Adds Accepted db h o.1
Atomic-Adds Accepted db h sqls accepted (done a, h') t = inr (sqls, t.0, accepted)
Atomic-Adds Accepted db h sqls accepted (failed e, h') t = inl t.0

module _ ⦃u : Unicode⦄ (split : Text → Result (List Text)) (sanitize : List Text → Text)
    (d : Driver) (db : Database) (requested sql : Text) (h : List Event) where
  execute_dml-Adds :
      Adds
        (IsAccepted split (dml_call requested sql))
        db
        h
        (execute_dml d sanitize db split sql h).1
  unfolding execute_dml
  execute_dml-Adds = elim (Bool-cases (validate split sql db.cfg dml).valid) [
    | inr refused ↦ inl (rw (execute_dml, refused) refl)
    | inl accepted ↦
        Atomic-Adds (IsAccepted split (dml_call requested sql)) db h (sql ∷ []) (accepted, refl)
          (execute_dml d sanitize db split sql h) (execute_dml-Atomic d sanitize db h sql split)
  ]

  execute_ddl-Adds :
      Adds
        (IsAccepted split (ddl_call requested sql))
        db
        h
        (execute_ddl d sanitize db split sql h).2
  unfolding execute_ddl run_ddl
  execute_ddl-Adds = elim (Bool-cases (validate split sql db.cfg ddl).valid) [
    | inr refused ↦ inl (rw (execute_ddl, run_ddl, refused) refl)
    | inl accepted ↦
        Atomic-Adds (IsAccepted split (ddl_call requested sql)) db h (sql ∷ []) (accepted, refl)
          ((execute_ddl d sanitize db split sql h).0, (execute_ddl d sanitize db split sql h).2)
          (execute_ddl-Atomic d sanitize db h sql split).0
  ]

  IsAllOrNothing-Adds :
      (o : Outcome ScriptResult × List Event)
      → IsAllOrNothing d sanitize db split sql h o
      → Adds (IsAccepted split (script_call requested sql)) db h o.1
  IsAllOrNothing-Adds (done r, h') (v, valid, more, shut, few, short) =
      inr (map (λ s. s.sql) v.statements, more, (v, valid, refl))
  IsAllOrNothing-Adds (failed e, h') t = inl t.0

  execute_script-Adds :
      Adds
        (IsAccepted split (script_call requested sql))
        db
        h
        (execute_script d sanitize db split sql h).2
  execute_script-Adds =
      IsAllOrNothing-Adds
        ((execute_script d sanitize db split sql h).0, (execute_script d sanitize db split sql h).2)
        (execute_script-IsAllOrNothing d sanitize db split sql h)

module _ ⦃u : Unicode⦄ (decode : List ℕ → Text) (format : ℕ → Text)
    (split : Text → Result (List Text)) (sanitize : List Text → Text) (itoa : ℕ → Text)
    (driver_of : Text → Driver) (app : App) (header : Option Text) where
  -- The statements in effect behind the call are as before, or with accepted ones.
  abbrev IsExtended : ToolCall → Entries Pool → Entries Pool → Text → Type 0
  IsExtended call pools pools' connection =
      (effects_at pools' connection ≡ effects_at pools connection)
      ⊎ IsWritten (IsAccepted split call) pools pools' connection

  with_scope-IsExtended :
      {A : Type 0} (call : ToolCall) (scope requested : Text) (run : Text → Pool → Outcome A × Pool)
      (pools : Entries Pool) (connection : Text)
      → ((used : Text) (pool : Pool)
          → Adds (IsAccepted split call) pool.database pool.history (run used pool).1.history)
      → IsExtended call pools
          (with_scope decode format split sanitize itoa driver_of app header scope requested run
            pools).1
          connection
  with_scope-IsExtended call scope requested run pools connection adds =
      elim (Answer-cases (authorize app header requested scope)) [
        | inl (e, denies) ↦ rw (with_scope, denies) (inl refl)
        | inr ((p, used), allows) ↦
            rw (with_scope, allows)
              (on_connection-Adds (IsAccepted split call) (run used) used pools connection
                (adds used))
      ]

  execute_script_tool-IsExtended :
      (requested script : Text) (pools : Entries Pool) (connection : Text)
      → IsExtended
          (script_call requested script)
          pools
          (execute_script_tool decode format split sanitize itoa driver_of app header requested
            script pools).1
          connection
  unfolding execute_script_tool
  execute_script_tool-IsExtended requested script pools connection =
      elim (Answer-cases (authorize app header requested (runes "write"))) [
        | inl (e, denies) ↦ rw (execute_script_tool, denies) (inl refl)
        | inr ((p, used), allows) ↦ elim (Bool-cases (has_scope p (runes "ddl"))) [
          | inr refuses ↦ rw (execute_script_tool, allows, refuses) (inl refl)
          | inl may ↦
              rw (execute_script_tool, allows, may)
                (on_connection-Adds (IsAccepted split (script_call requested script))
                  (λ pool.
                    let (outcome, db, h) =
                      execute_script (driver_of used) sanitize pool.database split script
                        pool.history in
                    (outcome, record { database = db; history = h }))
                  used pools connection
                  (λ pool.
                    execute_script-Adds split sanitize (driver_of used) pool.database requested
                      script pool.history))
        ]
      ]

  pools_after-IsExtended :
      (call : ToolCall) (pools : Entries Pool) (connection : Text)
      → IsExtended call pools
          (pools_after decode format split sanitize itoa driver_of app header call pools)
          connection
  unfolding pools_after sample_rows_tool execute_sql_tool explain_sql_tool execute_dml_tool
      execute_ddl_tool refresh_schema_cache_tool
  pools_after-IsExtended (sql_call requested sql) pools connection =
      with_scope-IsExtended (sql_call requested sql) (runes "read") requested _ pools connection
        (λ used pool.
          inl
            (execute_sql-IsReadOnly decode format (driver_of used) sanitize pool.database
              pool.history split itoa sql).0.0.0)
  pools_after-IsExtended (explain_call requested sql) pools connection =
      with_scope-IsExtended (explain_call requested sql) (runes "read") requested _ pools connection
        (λ used pool.
          inl
            (explain_sql-IsReadOnly decode format (driver_of used) sanitize pool.database
              pool.history split sql).0.0.0)
  pools_after-IsExtended (sample_call requested schema table limit) pools connection =
      with_scope-IsExtended (sample_call requested schema table limit) (runes "read") requested _
        pools connection
        (λ used pool.
          inl
            (sample_rows-IsReadOnly decode format (driver_of used) sanitize pool.database
              pool.history schema table limit).0.0.0)
  pools_after-IsExtended (refresh_call requested) pools connection =
      with_scope-IsExtended (refresh_call requested) (runes "read") requested _ pools connection
        (λ used pool. inl refl)
  pools_after-IsExtended (dml_call requested sql) pools connection =
      with_scope-IsExtended (dml_call requested sql) (runes "write") requested _ pools connection
        (λ used pool.
          execute_dml-Adds split sanitize (driver_of used) pool.database requested sql pool.history)
  pools_after-IsExtended (ddl_call requested sql) pools connection =
      with_scope-IsExtended (ddl_call requested sql) (runes "ddl") requested _ pools connection
        (λ used pool.
          execute_ddl-Adds split sanitize (driver_of used) pool.database requested sql pool.history)
  pools_after-IsExtended (script_call requested script) pools connection =
      execute_script_tool-IsExtended requested script pools connection

  -- Of the tools that run SQL, sample_rows and refresh_schema_cache, a call changes what is in
  -- effect in the database of a connection only if its header gives a principal that can use the
  -- connection and has the scopes of the tool; and what it adds is a statement that `Validate`
  -- accepts for the connection in the mode of execute_dml or execute_ddl, or all the statements, in
  -- their order, of a script that `ValidateScript` accepts. The other tools change nothing.
  pub pools_after-effects :
      (call : ToolCall) (pools : Entries Pool) (connection : Text)
      → (effects_at
            (pools_after decode format split sanitize itoa driver_of app header call pools)
            connection
          ≡ effects_at pools connection)
        ⊎ (IsPermitted app header (scopes_of call) connection
            × IsWritten
                (IsAccepted split call)
                pools
                (pools_after decode format split sanitize itoa driver_of app header call pools)
                connection)
  pools_after-effects call pools connection = elim (pools_after-IsExtended call pools connection) [
    | inl same ↦ inl same
    | inr written ↦
        elim (pools_after-IsGuarded decode format split sanitize itoa driver_of app header call
          pools connection) [
            | inl same ↦
                inl (ap (λ o. elim o [ none ↦ [] | some pool ↦ effects pool.history ]) same)
            | inr permitted ↦ inr (permitted, written)
          ]
  ]
