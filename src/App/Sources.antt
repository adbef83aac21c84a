-- ===== src/App/Sources.antt =====
-- internal/mcpserver/server.go: the signed URLs of search results, and `/sources`, which they name.
-- HMAC, base64, the printing of a query and the parser of integers are arguments.
pub mod Signed
pub mod Shown
use felsen_mcp_server_postgr.Base.{
  Bool, true, false, not, ◌&&◌, ◌||◌, List, [], ◌∷◌, Option, none, some, Text, text_eq, runes,
  Entries, find, put, any, ℤ, int_leb, if◌then◌else◌,
}
use felsen_mcp_server_postgr.Strings.{Unicode}
use felsen_mcp_server_postgr.Guard.Tables.{is_empty}
use felsen_mcp_server_postgr.Authn.{Principal, has_scope, can_use_connection}
use felsen_mcp_server_postgr.Config.Policy.{ConnectionConfig, schema_allowed}
use felsen_mcp_server_postgr.Store.{value, failure, TableDescription}
use felsen_mcp_server_postgr.App.{App}
use felsen_mcp_server_postgr.App.Objects.{ObjectReference}

-- `CitationSigningKey`, and what is called of Go's library.
pub record Signer : Type 0 where
  pub key : Text
  pub mac : Text → Text → Text
  pub encode_values : Entries Text → Text
  pub encode64 : Text → Text
  pub decode64 : Text → Option Text
  pub parse_int : Text → Option ℤ

-- `values.Get`.
unfoldable pub get_value : Entries Text → Text → Text
get_value values key = elim (find values key) [ none ↦ [] | some v ↦ v ]

-- The loop over the keys that are signed.
unfoldable pub canonical_values : List Text → Entries Text → Entries Text
canonical_values [] values = []
canonical_values (key ∷ keys) values =
    let rest = canonical_values keys values in
    if is_empty (get_value values key) then rest else (key, get_value values key) ∷ rest

unfoldable pub signed_keys : List Text
signed_keys =
    runes "connection" ∷ runes "schema" ∷ runes "table" ∷ runes "column" ∷ runes "expires" ∷ []

unfoldable pub citation_signature : Signer → Entries Text → Text
citation_signature s values =
    s.encode64 (s.mac s.key (s.encode_values (canonical_values signed_keys values)))

-- The query of `sourceURL`: `base` is the query of the public URL, `expires` the printed time.
unfoldable pub source_values : Signer → Entries Text → ObjectReference → Text → Entries Text
source_values s base ref expires =
    let named =
      put (put (put base (runes "connection") ref.connection) (runes "schema") ref.schema)
        (runes "table") ref.table in
    let full = if is_empty ref.column then named else put named (runes "column") ref.column in
    let dated = put full (runes "expires") expires in
    if is_empty s.key then full else put dated (runes "signature") (citation_signature s dated)

-- `hmac.Equal`, of what is sent and what is expected.
abbrev pub same_bytes : Option Text → Option Text → Bool
same_bytes (some provided) (some expected) = text_eq provided expected
same_bytes _ _ = false

abbrev pub is_live : ℤ → Option ℤ → Bool
is_live now none = false
is_live now (some expires) = int_leb now expires

unfoldable pub valid_citation_url : Signer → ℤ → Entries Text → Bool
valid_citation_url s now values =
    not (is_empty s.key)
    && not (is_empty (get_value values (runes "signature")))
    && is_live now (s.parse_int (get_value values (runes "expires")))
    && same_bytes (s.decode64 (get_value values (runes "signature")))
        (s.decode64 (citation_signature s values))

-- The answer of `/sources`: the errors, or the object with its table.
pub data SourceAnswer : Type 0 where
  path_not_found method_not_allowed unauthorized invalid_source source_not_found : SourceAnswer
  described : ObjectReference → TableDescription → SourceAnswer

abbrev pub requested_source : Entries Text → ObjectReference
requested_source values = record {
  connection = get_value values (runes "connection");
  schema = get_value values (runes "schema");
  table = get_value values (runes "table");
  column = get_value values (runes "column");
}

-- `AuthenticateHeader`, where there is an authenticator.
abbrev pub caller : App → Text → Option Principal
caller app header = elim app.auth [ none ↦ none | some authenticate ↦ authenticate header ]

module _ ⦃u : Unicode⦄ where
  abbrev pub may_read : Option Principal → Bool
  may_read none = false
  may_read (some p) = has_scope p (runes "read")

  abbrev pub may_use : Option Principal → Text → Bool
  may_use none connection = false
  may_use (some p) connection = can_use_connection p connection

  -- Behind the authorization.
  unfoldable pub describe_source : App → ObjectReference → SourceAnswer
  describe_source app ref = elim (app.store.connection_config ref.connection) [
    | none ↦ source_not_found
    | some cfg ↦
        if not (schema_allowed cfg ref.schema)
        then source_not_found
        else elim (app.store.describe_table ref.connection ref.schema ref.table) [
          | failure e ↦ source_not_found
          | value description ↦
              if is_empty ref.column || any (λ c. text_eq c.name ref.column) description.columns
              then described ref description
              else source_not_found
        ]
  ]

  unfoldable pub source_http_handler :
      Signer → App → ℤ → Text → Text → Text → Entries Text → SourceAnswer
  source_http_handler s app now path method header values =
      let ref = requested_source values in
      let signed = valid_citation_url s now values in
      let p = caller app header in
      if not (text_eq path (runes "/sources")) && not (text_eq path (runes "/sources/"))
      then path_not_found
      else if not (text_eq method (runes "GET"))
      then method_not_allowed
      else if not signed && not (may_read p)
      then unauthorized
      else if is_empty ref.connection
          || is_empty ref.schema
          || is_empty ref.table
          || not signed && not (may_use p ref.connection)
      then invalid_source
      else describe_source app ref
