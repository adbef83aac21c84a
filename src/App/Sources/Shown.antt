-- ===== src/App/Sources/Shown.antt =====
-- What `/sources` shows, and to whom.
use felsen_mcp_server_postgr.Base.{
  true, some, ◌≡◌, ◌⊎◌, inl, inr, arith, Text, runes, Entries, ℤ, Bool-cases, Option-cases,
}
use felsen_mcp_server_postgr.Strings.{Unicode}
use felsen_mcp_server_postgr.Authn.{Principal, has_scope, can_use_connection}
use felsen_mcp_server_postgr.Config.Policy.{ConnectionConfig, schema_allowed}
use felsen_mcp_server_postgr.Store.{value, TableDescription, Answer-cases}
use felsen_mcp_server_postgr.App.{App}
use felsen_mcp_server_postgr.App.Objects.{ObjectReference}
use felsen_mcp_server_postgr.App.Sources.{
  Signer, described, requested_source, caller, may_read, may_use, valid_citation_url,
  describe_source, source_http_handler,
}

module _ ⦃u : Unicode⦄ where
  -- The description is the store's, of a table in a schema that its connection allows.
  abbrev pub IsDescription : App → ObjectReference → TableDescription → Type 0
  IsDescription app ref description =
      (cfg : ConnectionConfig) × ((app.store.connection_config ref.connection ≡ some cfg)
        × ((schema_allowed cfg ref.schema ≡ true)
            × (app.store.describe_table ref.connection ref.schema ref.table ≡ value description)))

  describe_source-described :
      (app : App) (asked ref : ObjectReference) (description : TableDescription)
      → describe_source app asked ≡ described ref description
      → (ref ≡ asked) × IsDescription app asked description
  unfolding describe_source
  describe_source-described app asked ref description h =
      elim (Option-cases (app.store.connection_config asked.connection)) [
        | inl e ↦ absurd (ground arith)
        | inr (cfg, e) ↦ elim (Bool-cases (schema_allowed cfg asked.schema)) [
          | inr refuses ↦ absurd (ground arith)
          | inl allows ↦
              elim (Answer-cases
                (app.store.describe_table asked.connection asked.schema asked.table)) [
                  | inl (x, r) ↦ absurd (ground arith)
                  | inr (found, r) ↦ (ground arith, (cfg, (e, (allows, ground arith))))
                ]
        ]
      ]

  -- The caller is a principal with the scope read that can use the connection.
  abbrev pub IsReader : App → Text → Text → Type 0
  IsReader app header connection =
      (p : Principal) × ((caller app header ≡ some p)
        × ((has_scope p (runes "read") ≡ true) × (can_use_connection p connection ≡ true)))

  caller-IsReader :
      (app : App) (header connection : Text)
      → may_read (caller app header) ≡ true
      → may_use (caller app header) connection ≡ true
      → IsReader app header connection
  caller-IsReader app header connection reads uses = elim (Option-cases (caller app header)) [
    | inl e ↦ absurd (ground arith)
    | inr (p, e) ↦ (p, (e, (ground arith, ground arith)))
  ]

  past_guards :
      (s : Signer) (app : App) (now : ℤ) (path method header : Text) (values : Entries Text)
      (ref : ObjectReference) (description : TableDescription)
      → source_http_handler s app now path method header values ≡ described ref description
      → ((valid_citation_url s now values ≡ true)
          ⊎ ((may_read (caller app header) ≡ true)
              × (may_use (caller app header) (requested_source values).connection ≡ true)))
        × (describe_source app (requested_source values) ≡ described ref description)
  unfolding source_http_handler
  past_guards s app now path method header values ref description h = ground arith

  -- `/sources` shows a table only to a request whose query has a valid signature, or whose header
  -- gives a principal that has the scope read and can use the connection. It shows what the query
  -- names, as the store describes it, and only in a schema that the connection allows.
  pub source_http_handler-IsAllowed :
      (s : Signer) (app : App) (now : ℤ) (path method header : Text) (values : Entries Text)
      (ref : ObjectReference) (description : TableDescription)
      → source_http_handler s app now path method header values ≡ described ref description
      → ((valid_citation_url s now values ≡ true) ⊎ IsReader app header ref.connection)
        × ((ref ≡ requested_source values) × IsDescription app ref description)
  source_http_handler-IsAllowed s app now path method header values ref description h =
      let (allowed, shown) = past_guards s app now path method header values ref description h in
      let (same, of_store) =
        describe_source-described app (requested_source values) ref description shown in
      (
        elim allowed [
          | inl signed ↦ inl signed
          | inr reads ↦ inr (rw same (caller-IsReader app header _ reads.0 reads.1))
        ],
        (same, rw same of_store),
      )
