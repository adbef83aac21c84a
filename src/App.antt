-- ===== src/App.antt =====
-- internal/mcpserver/server.go: the state of the application, whom a call authenticates and which
-- connection it may use.
pub mod Objects
pub mod Search
pub mod Tools
pub mod Permits
pub mod Writes
pub mod Sources
pub mod Access
pub mod Found
pub mod Tests
use felsen_mcp_server_postgr.Base.{
  ℕ, Bool, true, false, not, List, [], ◌∷◌, ◌++◌, Option, none, some, Text, runes, if◌then◌else◌,
}
use felsen_mcp_server_postgr.Strings.{Unicode}
use felsen_mcp_server_postgr.Guard.Tables.{is_empty}
use felsen_mcp_server_postgr.Authn.{Principal, Authenticator, has_scope, can_use_connection}
use felsen_mcp_server_postgr.Config.Policy.{ConnectionConfig}
use felsen_mcp_server_postgr.Store.{Answer, value, failure, TableDescription}

-- What the application asks of its store: `ConnectionNames`, `ConnectionConfig`, `ListSchemas`,
-- the names of `ListTables`, and `DescribeTable`.
pub record StoreView : Type 0 where
  pub connection_names : List Text
  pub connection_config : Text → Option ConnectionConfig
  pub list_schemas : Text → Answer (List Text)
  pub list_tables : Text → Text → Answer (List Text)
  pub describe_table : Text → Text → Text → Answer TableDescription

-- `App`: `max_search_results` is that field of its configuration, which `Validate` has checked to
-- be positive.
pub record App : Type 0 where
  pub auth : Option Authenticator
  pub store : StoreView
  pub max_search_results : ℕ

-- `principal` and `resourcePrincipal`: the header of the request, unless it has no metadata.
unfoldable pub principal : App → Option Text → Answer Principal
principal app none = failure (runes "missing request metadata")
principal app (some header) = elim app.auth [
  | none ↦ failure (runes "unauthorized")
  | some authenticate ↦ elim (authenticate header) [
    | none ↦ failure (runes "unauthorized")
    | some p ↦ value p
  ]
]

abbrev pub only_name : List Text → Answer Text
only_name (name ∷ []) = value name
only_name _ = failure (runes "connection_name is required when multiple connections are configured")

unfoldable pub resolve_connection : App → Text → Answer Text
resolve_connection app requested =
    if is_empty requested
    then only_name app.store.connection_names
    else elim (app.store.connection_config requested) [
      | none ↦ failure (runes "unknown connection: " ++ requested)
      | some cfg ↦ value requested
    ]

module _ ⦃u : Unicode⦄ where
  unfoldable pub authorize : App → Option Text → Text → Text → Answer (Principal × Text)
  authorize app header requested scope = elim (principal app header) [
    | failure e ↦ failure e
    | value p ↦
        if not (has_scope p scope)
        then failure (scope ++ runes " scope is required")
        else elim (resolve_connection app requested) [
          | failure e ↦ failure e
          | value connection ↦
              if not (can_use_connection p connection)
              then failure (runes "token cannot access connection: " ++ connection)
              else value (p, connection)
        ]
  ]

  -- The connections of `list_connections` and of the resource with their names.
  unfoldable pub usable_names : Principal → List Text → List Text
  usable_names p [] = []
  usable_names p (name ∷ names) =
      let rest = usable_names p names in if can_use_connection p name then name ∷ rest else rest
