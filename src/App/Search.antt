-- ===== src/App/Search.antt =====
-- internal/mcpserver/server.go: `search`. The URL of a result is an argument. The log of the calls
-- is not modelled.
use felsen_mcp_server_postgr.Base.{
  leb, Bool, true, not, ◌||◌, List, [], ◌∷◌, ◌++◌, Option, none, some, Text, text_eq, mem_text,
  runes, length, any, if◌then◌else◌,
}
use felsen_mcp_server_postgr.Strings.{Unicode, trim_space, to_lower, cut_prefix}
use felsen_mcp_server_postgr.Guard.Tables.{is_empty}
use felsen_mcp_server_postgr.Authn.{Principal, has_scope, can_use_connection}
use felsen_mcp_server_postgr.Config.Policy.{ConnectionConfig}
use felsen_mcp_server_postgr.Store.{Answer, value, failure, ColumnInfo}
use felsen_mcp_server_postgr.App.{App, principal}
use felsen_mcp_server_postgr.App.Objects.{ObjectReference, Codec, encode_object_id, object_title}

pub record SearchResultItem : Type 0 where
  pub id : Text
  pub title : Text
  pub url : Text

-- The identifiers that are seen, and the results.
pub record Found : Type 0 where
  pub seen : List Text
  pub results : List SearchResultItem

-- `strings.Contains`.
unfoldable pub contains_text : Text → Text → Bool
contains_text sub [] = is_empty sub
contains_text sub (c ∷ s) =
    let rest = contains_text sub s in
    elim (cut_prefix sub (c ∷ s)) [ some behind ↦ true | none ↦ rest ]

module _ (codec : Codec) (source_url : ObjectReference → Text) where
  unfoldable pub add_result : ObjectReference → Found → Found
  add_result ref f =
      let id = encode_object_id codec ref in
      if mem_text id f.seen then f else record {
        seen = f.seen ++ id ∷ [];
        results =
            f.results ++ record { id = id; title = object_title ref; url = source_url ref } ∷ [];
      }

module _ ⦃u : Unicode⦄ (codec : Codec) (source_url : ObjectReference → Text) (app : App)
    (query : Text) where
  abbrev pub is_full : Found → Bool
  is_full f = leb app.max_search_results (length f.results)

  abbrev pub add_if : Bool → ObjectReference → Found → Found
  add_if test ref f = if test then add_result codec source_url ref f else f

  -- The loop over the columns of a table.
  unfoldable pub search_columns : ObjectReference → List ColumnInfo → Found → Found
  search_columns table [] f = f
  search_columns table (column ∷ columns) f =
      let rest = search_columns table columns (
        add_if (contains_text query (to_lower column.name)) (record table { column = column.name })
          f) in
      if is_full f then f else rest

  -- The reference of a table, and what its names add.
  abbrev pub table_reference : Text → Text → Text → ObjectReference
  table_reference connection schema name = record {
    connection = connection;
    schema = schema;
    table = name;
    column = [];
  }

  abbrev pub add_table : Text → Text → Text → Found → Found
  add_table connection schema name f =
      add_if (contains_text query (to_lower name) || contains_text query (to_lower schema))
        (table_reference connection schema name) f

  -- The loop of `searchInSchema` over the tables.
  unfoldable pub search_tables : Text → Text → List Text → Found → Answer Found
  search_tables connection schema [] f = value f
  search_tables connection schema (name ∷ names) f =
      let f' = add_table connection schema name f in
      if is_full f
      then value f
      else if is_full f'
      then value f'
      else elim (app.store.describe_table connection schema name) [
        | failure e ↦ failure e
        | value description ↦
            search_tables connection schema names
              (search_columns (table_reference connection schema name) description.columns f')
      ]

  unfoldable pub search_in_schema : Text → Text → Found → Answer Found
  search_in_schema connection schema f = elim (app.store.list_tables connection schema) [
    | failure e ↦ failure e
    | value names ↦ search_tables connection schema names f
  ]

  -- The loop over the schemas of a connection.
  unfoldable pub search_schemas : Text → List Text → Found → Answer Found
  search_schemas connection [] f = value f
  search_schemas connection (schema ∷ schemas) f =
      if is_full f then value f else elim (search_in_schema connection schema f) [
        | failure e ↦ failure e
        | value f' ↦ search_schemas connection schemas f'
      ]

  unfoldable pub schemas_of : Text → ConnectionConfig → Answer (List Text)
  schemas_of connection cfg =
      if any (λ schema. text_eq schema (runes "*")) cfg.schemas
      then app.store.list_schemas connection
      else value cfg.schemas

  unfoldable pub search_connection : Text → Found → Answer Found
  search_connection connection f = elim (app.store.connection_config connection) [
    | none ↦ failure (runes "unknown connection: " ++ connection)
    | some cfg ↦ elim (schemas_of connection cfg) [
      | failure e ↦ failure e
      | value schemas ↦ search_schemas connection schemas f
    ]
  ]

  -- The loop over the connections.
  unfoldable pub search_connections : Principal → List Text → Found → Answer Found
  search_connections p [] f = value f
  search_connections p (connection ∷ connections) f =
      let skipped = search_connections p connections f in
      if not (can_use_connection p connection)
      then skipped
      else elim (search_connection connection f) [
        | failure e ↦ failure e
        | value f' ↦ search_connections p connections f'
      ]

abbrev pub results_of : Answer Found → Answer (List SearchResultItem)
results_of (failure e) = failure e
results_of (value f) = value f.results

module _ ⦃u : Unicode⦄ (codec : Codec) (source_url : ObjectReference → Text) where
  unfoldable pub search : App → Option Text → Text → Answer (List SearchResultItem)
  search app header asked = elim (principal app header) [
    | failure e ↦ failure e
    | value p ↦
        let query = to_lower (trim_space asked) in
        if not (has_scope p (runes "read"))
        then failure (runes "read scope is required")
        else if is_empty query
        then value []
        else results_of (
            search_connections codec source_url app query p app.store.connection_names
              (record { seen = []; results = [] }))
  ]
