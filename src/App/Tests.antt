-- ===== src/App/Tests.antt =====
-- Runs of the application's authorization, identifiers and search, and its theorems at them.
use felsen_mcp_server_postgr.Base.{runes, text_eq, mem_text, one_of}
use felsen_mcp_server_postgr.Strings.{
  trim_left, trim_right, trim_char, split, goes_on, fields, join, contains_char, cut_prefix,
  trim_space, to_lower, equal_fold, utf8_length,
}
use felsen_mcp_server_postgr.Strings.Ascii.{ascii_space, ascii_letter, ascii_digit, ascii_lower}
use felsen_mcp_server_postgr.Guard.Tables.{append_unique, split_table, normalize_table}
use felsen_mcp_server_postgr.Authn.{
  is_hex_digit, clone_principal, principal_named, first_principal, key_with_hash, has_scope,
  can_use_connection, bearer_token, key_hash, new_key, new_keys, new_manager, authenticate_header,
  some_items, composite_authenticate, new_composite, http_middleware,
}
use felsen_mcp_server_postgr.App.{principal, resolve_connection, authorize, usable_names}
use felsen_mcp_server_postgr.App.Objects.{
  encode_object_id, object_title, is_complete, decode_object_id, decode_legacy_object_id,
  legacy_reference, fetched_reference,
}
use felsen_mcp_server_postgr.App.Search.{
  contains_text, add_result, search_columns, search_tables, search_in_schema, search_schemas,
  schemas_of, search_connection, search_connections, search,
}
use felsen_mcp_server_postgr.Base.{
  String, true, false, List, [], ◌∷◌, ◌++◌, none, some, Option, ◌≡◌, ◌↔◌, refl, Text, if◌then◌else◌,
}
use felsen_mcp_server_postgr.Strings.Ascii.{ascii}
use felsen_mcp_server_postgr.Authn.{Principal, Authenticator}
use felsen_mcp_server_postgr.Config.Policy.{ConnectionConfig}
use felsen_mcp_server_postgr.Store.{value, failure, TableDescription, ColumnInfo}
use felsen_mcp_server_postgr.App.{App, StoreView}
use felsen_mcp_server_postgr.App.Access.{IsCaller, IsResolved, authorize_iff}
use felsen_mcp_server_postgr.App.Objects.{
  ObjectReference, Codec, found, refused, ambiguous, empty_column,
  fetched_reference-encode_object_id,
}
use felsen_mcp_server_postgr.App.Search.{SearchResultItem}
use felsen_mcp_server_postgr.App.Found.{AreAllowed, search-AreAllowed}
use felsen_mcp_server_postgr.App.Sources.{
  Signer, SourceAnswer, unauthorized, described, requested_source, get_value, canonical_values,
  signed_keys, citation_signature, source_values, valid_citation_url, describe_source,
  source_http_handler,
}
use felsen_mcp_server_postgr.App.Sources.Signed.{valid_citation_url-source_values}
use felsen_mcp_server_postgr.App.Sources.Shown.{
  IsReader, IsDescription, source_http_handler-IsAllowed,
}
use felsen_mcp_server_postgr.Config.Policy.{matches_name, schema_allowed}
use felsen_mcp_server_postgr.Base.{Entries, find, delete, put, int_leb, pos, ◌⊎◌}

open_all : Unit {0}
unfolding find delete put int_leb get_value canonical_values signed_keys citation_signature
    source_values valid_citation_url describe_source source_http_handler matches_name schema_allowed
    runes text_eq mem_text one_of trim_left trim_right trim_char split goes_on fields join
    contains_char cut_prefix trim_space to_lower equal_fold utf8_length ascii_space ascii_letter
    ascii_digit ascii_lower append_unique split_table normalize_table is_hex_digit clone_principal
    principal_named first_principal key_with_hash has_scope can_use_connection bearer_token key_hash
    new_key new_keys new_manager authenticate_header some_items composite_authenticate new_composite
    http_middleware principal resolve_connection authorize usable_names encode_object_id
    object_title is_complete decode_object_id decode_legacy_object_id legacy_reference
    fetched_reference contains_text add_result search_columns search_tables search_in_schema
    search_schemas schemas_of search_connection search_connections search
open_all = tt

-- A codec that joins the parts by a bar.
abbrev parts_of : List Text → Option ObjectReference
parts_of (connection ∷ schema ∷ table ∷ column ∷ []) =
    some (record { connection = connection; schema = schema; table = table; column = column })
parts_of _ = none

abbrev bars : Codec
bars = record {
  to_json = λ ref. ref.connection ++ b'|' ∷ ref.schema ++ b'|' ∷ ref.table ++ b'|' ∷ ref.column;
  from_json = λ s. parts_of (split b'|' s);
  encode64 = λ s. s;
  decode64 = some;
}

abbrev column : String → ColumnInfo
column name = record {
  name = runes name;
  type = runes "text";
  nullable = true;
  default = none;
  comment = none;
  is_primary_key = false;
}

abbrev users : TableDescription
users = record {
  schema = runes "public";
  table = runes "Users";
  columns = column "id" ∷ column "user_name" ∷ [];
  primary_key = [];
  foreign_keys = [];
  indexes = [];
}

abbrev any_schema : ConnectionConfig
any_schema = record {
  schemas = runes "*" ∷ [];
  max_rows = 100;
  max_affected_rows = 100;
  max_script_statements = 10;
  max_script_affected_rows = 100;
  max_script_bytes = 1000;
  dml_policies = [];
  ddl_enabled = none;
}

abbrev view : StoreView
view = record {
  connection_names = runes "a" ∷ runes "b" ∷ [];
  connection_config =
      λ name. if mem_text name (runes "a" ∷ runes "b" ∷ []) then some any_schema else none;
  list_schemas = λ connection. value (runes "public" ∷ []);
  list_tables = λ connection schema. value (runes "Users" ∷ []);
  describe_table = λ connection schema name. value users;
}

-- It may read on the connection b.
abbrev reader : Principal
reader = record { name = runes "r"; scopes = runes "read" ∷ []; connections = runes "b" ∷ [] }

abbrev gate : Authenticator
gate token = if text_eq token (runes "k") then some reader else none

abbrev app : App
app = record { auth = some gate; store = view; max_search_results = 5 }

abbrev url : ObjectReference → Text
url ref = runes "u"

abbrev of_b : String → ObjectReference
of_b name = record {
  connection = runes "b";
  schema = runes "public";
  table = runes "Users";
  column = runes name;
}

abbrev item : ObjectReference → SearchResultItem
item ref = record { id = encode_object_id bars ref; title = object_title ref; url = url ref }

-- The table and the column with the word, on the connection of the caller only.
search_test :
    search bars url app (some (runes "k")) (runes " user ")
    ≡ value (item (of_b "") ∷ item (of_b "user_name") ∷ [])
unfolding open_all
search_test = refl

search_full :
    search bars url (record app { max_search_results = 1 }) (some (runes "k")) (runes "user")
    ≡ value (item (of_b "") ∷ [])
unfolding open_all
search_full = refl

search_stranger :
    search bars url app (some (runes "x")) (runes "user") ≡ failure (runes "unauthorized")
unfolding open_all
search_stranger = refl

search-AreAllowed_example :
    AreAllowed bars url app
      (some (runes "k"))
      (runes " user ")
      (item (of_b "") ∷ item (of_b "user_name") ∷ [])
unfolding open_all
search-AreAllowed_example =
    search-AreAllowed bars url app (some (runes "k")) (runes " user ") search_test

authorize_test :
    authorize app (some (runes "k")) (runes "b") (runes "read") ≡ value (reader, runes "b")
unfolding open_all
authorize_test = refl

authorize_many :
    authorize app (some (runes "k")) [] (runes "read")
    ≡ failure (runes "connection_name is required when multiple connections are configured")
unfolding open_all
authorize_many = refl

authorize_iff_example :
    (authorize app (some (runes "k")) (runes "b") (runes "read") ≡ value (reader, runes "b")) ↔ (
      IsCaller app (some (runes "k")) reader
      × ((has_scope reader (runes "read") ≡ true)
          × (IsResolved app (runes "b") (runes "b")
              × (can_use_connection reader (runes "b") ≡ true))))
unfolding open_all
authorize_iff_example =
    authorize_iff app (some (runes "k")) (runes "b") (runes "read") reader (runes "b")

fetched_reference-encode_object_id_example :
    fetched_reference bars [] (encode_object_id bars (of_b "id")) ≡ found (of_b "id")
unfolding open_all
fetched_reference-encode_object_id_example =
    fetched_reference-encode_object_id bars (of_b "id") [] refl refl refl

legacy_test : fetched_reference bars (runes "b" ∷ []) (runes "public.Users.id") ≡ found (of_b "id")
unfolding open_all
legacy_test = refl

legacy_ambiguous :
    fetched_reference bars view.connection_names (runes "public.Users.id") ≡ refused ambiguous
unfolding open_all
legacy_ambiguous = refl

legacy_empty_column :
    fetched_reference bars (runes "b" ∷ []) (runes "public.Users.") ≡ refused empty_column
unfolding open_all
legacy_empty_column = refl

abbrev spell_values : Entries Text → Text
spell_values [] = []
spell_values ((key, v) ∷ values) = key ++ b'=' ∷ v ++ b'&' ∷ spell_values values

abbrev signer : Signer
signer = record {
  key = runes "key";
  mac = λ key query. key ++ query;
  encode_values = spell_values;
  encode64 = λ s. s;
  decode64 = some;
  parse_int = λ s. if text_eq s (runes "9") then some (pos 9) else none;
}

abbrev signed_query : Entries Text
signed_query = source_values signer [] (of_b "id") (runes "9")

valid_citation_url-source_values_example : valid_citation_url signer (pos 9) signed_query ≡ true
unfolding open_all
valid_citation_url-source_values_example =
    valid_citation_url-source_values signer (pos 9) (pos 9) [] (of_b "id") (runes "9") refl refl
      refl (λ query. refl) (λ bytes. refl)

signed_expired : valid_citation_url signer (pos 10) signed_query ≡ false
unfolding open_all
signed_expired = refl

signed_forged :
    valid_citation_url signer (pos 9) (put signed_query (runes "table") (runes "t")) ≡ false
unfolding open_all
signed_forged = refl

abbrev ask : Text → Entries Text → SourceAnswer
ask header values =
    source_http_handler signer app (pos 9) (runes "/sources") (runes "GET") header values

signed_source : ask [] signed_query ≡ described (of_b "id") users
unfolding open_all
signed_source = refl

unsigned_source : ask [] (put signed_query (runes "signature") []) ≡ unauthorized
unfolding open_all
unsigned_source = refl

source_http_handler-IsAllowed_example :
    ((valid_citation_url signer (pos 9) signed_query ≡ true) ⊎ IsReader app [] (runes "b"))
    × ((of_b "id" ≡ requested_source signed_query) × IsDescription app (of_b "id") users)
source_http_handler-IsAllowed_example =
    source_http_handler-IsAllowed signer app (pos 9) (runes "/sources") (runes "GET") []
      signed_query (of_b "id") users signed_source
