-- ===== src/App/Permits.antt =====
-- Which connections a call of a tool may change.
use felsen_mcp_server_postgr.Base.{
  ℕ, true, List, [], ◌∷◌, Option, ◌≡◌, ◌≢◌, ◌⊎◌, refl, sym, subst, inl, inr, arith, Text, text_eq,
  text_eq_iff, runes, All, Entries, find, find-put_other, Bool-cases, Option-cases,
}
use felsen_mcp_server_postgr.Strings.{Unicode}
use felsen_mcp_server_postgr.Guard.Reason.{Result}
use felsen_mcp_server_postgr.Authn.{Principal, has_scope, can_use_connection}
use felsen_mcp_server_postgr.Store.{value, Answer-cases, Outcome, Driver}
use felsen_mcp_server_postgr.App.{App, principal, authorize}
use felsen_mcp_server_postgr.App.Access.{authorize-allows}
use felsen_mcp_server_postgr.App.Tools.{
  Pool, ToolCall, sql_call, sample_call, explain_call, dml_call, ddl_call, script_call,
  refresh_call, on_connection, with_scope, execute_sql_tool, sample_rows_tool, explain_sql_tool,
  execute_dml_tool, execute_ddl_tool, execute_script_tool, refresh_schema_cache_tool, pools_after,
}

-- The scopes that a call needs.
abbrev pub scopes_of : ToolCall → List Text
scopes_of (sql_call requested sql) = runes "read" ∷ []
scopes_of (explain_call requested sql) = runes "read" ∷ []
scopes_of (sample_call requested schema table limit) = runes "read" ∷ []
scopes_of (dml_call requested sql) = runes "write" ∷ []
scopes_of (ddl_call requested sql) = runes "ddl" ∷ []
scopes_of (script_call requested script) = runes "write" ∷ runes "ddl" ∷ []
scopes_of (refresh_call requested) = runes "read" ∷ []

-- The caller is a principal that has these scopes and can use the connection.
abbrev pub IsPermitted : ⦃u : Unicode⦄ → App → Option Text → List Text → Text → Type 0
IsPermitted app header scopes connection =
    (p : Principal) × ((principal app header ≡ value p)
      × (All (λ scope. has_scope p scope ≡ true) scopes × (can_use_connection p connection ≡ true)))

-- The connection is as it was, or the caller is permitted to change it.
abbrev pub IsGuarded :
    ⦃u : Unicode⦄ → App → Option Text → List Text → Text → Entries Pool → Entries Pool → Type 0
IsGuarded app header scopes connection pools pools' =
    (find pools' connection ≡ find pools connection) ⊎ IsPermitted app header scopes connection

pub on_connection-other :
    {A : Type 0} (run : Pool → Outcome A × Pool) (connection other : Text) (pools : Entries Pool)
    → other ≢ connection
    → find (on_connection run connection pools).1 other ≡ find pools other
on_connection-other run connection other pools n = elim (Option-cases (find pools connection)) [
  | inl e ↦ rw (on_connection, e) refl
  | inr (pool, e) ↦
      rw (on_connection, e)
        (find-put_other pools other connection (run pool).1 (λ same. n (sym same)))
]

module _ ⦃u : Unicode⦄ (app : App) (header : Option Text) where
  on_connection-IsGuarded :
      {A : Type 0} (run : Pool → Outcome A × Pool) (scopes : List Text) (used : Text)
      (pools : Entries Pool) (connection : Text)
      → IsPermitted app header scopes used
      → IsGuarded app header scopes connection pools (on_connection run used pools).1
  on_connection-IsGuarded run scopes used pools connection permitted =
      elim (Bool-cases (text_eq connection used)) [
        | inl e ↦ inr (
            subst (IsPermitted app header scopes) (sym ((text_eq_iff connection used).0 e))
              permitted)
        | inr e ↦ inl (
            on_connection-other run used connection pools
              (λ same. ground (arith, (text_eq_iff connection used).1 same)))
      ]

module _ ⦃u : Unicode⦄ (decode : List ℕ → Text) (format : ℕ → Text)
    (split : Text → Result (List Text)) (sanitize : List Text → Text) (itoa : ℕ → Text)
    (driver_of : Text → Driver) (app : App) (header : Option Text) where
  with_scope-IsGuarded :
      {A : Type 0} (scope requested : Text) (run : Text → Pool → Outcome A × Pool)
      (pools : Entries Pool) (connection : Text)
      → IsGuarded app header
          (scope ∷ [])
          connection
          pools
          (with_scope decode format split sanitize itoa driver_of app header scope requested run
            pools).1
  with_scope-IsGuarded scope requested run pools connection =
      elim (Answer-cases (authorize app header requested scope)) [
        | inl (e, denies) ↦ rw (with_scope, denies) (inl refl)
        | inr ((p, used), allows) ↦
            let (caller, (has, can)) = authorize-allows app header requested scope allows in
            rw (with_scope, allows)
              (on_connection-IsGuarded app header (run used) (scope ∷ []) used pools connection
                (p, (caller, ((has, tt), can))))
      ]

  execute_script_tool-IsGuarded :
      (requested script : Text) (pools : Entries Pool) (connection : Text)
      → IsGuarded app header
          (runes "write" ∷ runes "ddl" ∷ [])
          connection
          pools
          (execute_script_tool decode format split sanitize itoa driver_of app header requested
            script pools).1
  unfolding execute_script_tool
  execute_script_tool-IsGuarded requested script pools connection =
      elim (Answer-cases (authorize app header requested (runes "write"))) [
        | inl (e, denies) ↦ rw (execute_script_tool, denies) (inl refl)
        | inr ((p, used), allows) ↦ elim (Bool-cases (has_scope p (runes "ddl"))) [
          | inr refuses ↦ rw (execute_script_tool, allows, refuses) (inl refl)
          | inl ddl ↦
              let (caller, (has, can)) =
                authorize-allows app header requested (runes "write") allows in
              rw (execute_script_tool, allows, ddl)
                (on_connection-IsGuarded app header _ (runes "write" ∷ runes "ddl" ∷ []) used pools
                  connection (p, (caller, ((has, (ddl, tt)), can))))
        ]
      ]

  -- A call of a tool that runs SQL, of sample_rows or of refresh_schema_cache changes the
  -- database, the cache or the history of a connection only if its header gives a principal that
  -- has the scopes of the tool (read, write, ddl, and both of the last for a script) and can use
  -- that connection.
  pub pools_after-IsGuarded :
      (call : ToolCall) (pools : Entries Pool) (connection : Text)
      → IsGuarded app header
          (scopes_of call)
          connection
          pools
          (pools_after decode format split sanitize itoa driver_of app header call pools)
  unfolding pools_after sample_rows_tool execute_sql_tool explain_sql_tool execute_dml_tool
      execute_ddl_tool refresh_schema_cache_tool
  pools_after-IsGuarded (sql_call requested sql) pools connection =
      with_scope-IsGuarded (runes "read") requested _ pools connection
  pools_after-IsGuarded (explain_call requested sql) pools connection =
      with_scope-IsGuarded (runes "read") requested _ pools connection
  pools_after-IsGuarded (sample_call requested schema table limit) pools connection =
      with_scope-IsGuarded (runes "read") requested _ pools connection
  pools_after-IsGuarded (dml_call requested sql) pools connection =
      with_scope-IsGuarded (runes "write") requested _ pools connection
  pools_after-IsGuarded (ddl_call requested sql) pools connection =
      with_scope-IsGuarded (runes "ddl") requested _ pools connection
  pools_after-IsGuarded (script_call requested script) pools connection =
      execute_script_tool-IsGuarded requested script pools connection
  pools_after-IsGuarded (refresh_call requested) pools connection =
      with_scope-IsGuarded (runes "read") requested _ pools connection
