-- ===== src/App/Objects.antt =====
-- internal/mcpserver/server.go: the identifiers of tables and columns. Their JSON and base64 are
-- arguments.
use felsen_mcp_server_postgr.Base.{
  Bool, true, not, ◌||◌, List, [], ◌∷◌, ◌++◌, Option, none, some, ◌≡◌, refl, Text, runes,
  if◌then◌else◌,
}
use felsen_mcp_server_postgr.Strings.{Unicode, trim_space, cut_prefix, split}
use felsen_mcp_server_postgr.Guard.Tables.{is_empty}

pub record ObjectReference : Type 0 where
  pub connection : Text
  pub schema : Text
  pub table : Text
  pub column : Text

-- `json.Marshal` and `json.Unmarshal` of a reference, and `base64.RawURLEncoding`.
pub record Codec : Type 0 where
  pub to_json : ObjectReference → Text
  pub from_json : Text → Option ObjectReference
  pub encode64 : Text → Text
  pub decode64 : Text → Option Text

abbrev object_id_prefix : Text
object_id_prefix = runes "pg:v1:"

unfoldable pub encode_object_id : Codec → ObjectReference → Text
encode_object_id codec ref = object_id_prefix ++ codec.encode64 (codec.to_json ref)

-- The errors of the two decoders.
pub data IdError : Type 0 where
  no_prefix bad_encoding bad_payload incomplete bad_legacy empty_column ambiguous : IdError

pub data IdResult : Type 0 where
  found : ObjectReference → IdResult
  refused : IdError → IdResult

unfoldable pub object_title : ObjectReference → Text
object_title ref =
    let title = ref.connection ++ runes ":" ++ ref.schema ++ runes "." ++ ref.table in
    if is_empty ref.column then title else title ++ runes "." ++ ref.column

module _ ⦃u : Unicode⦄ where
  unfoldable pub is_complete : ObjectReference → Bool
  is_complete ref = not (
      is_empty (trim_space ref.connection)
      || is_empty (trim_space ref.schema)
      || is_empty (trim_space ref.table))

  unfoldable pub decode_object_id : Codec → Text → IdResult
  decode_object_id codec id = elim (cut_prefix object_id_prefix id) [
    | none ↦ refused no_prefix
    | some encoded ↦ elim (codec.decode64 encoded) [
      | none ↦ refused bad_encoding
      | some payload ↦ elim (codec.from_json payload) [
        | none ↦ refused bad_payload
        | some ref ↦ if is_complete ref then found ref else refused incomplete
      ]
    ]
  ]

-- The parts of a legacy identifier.
abbrev from_parts : Text → List Text → IdResult
from_parts connection (schema ∷ table ∷ []) =
    if is_empty schema || is_empty table
    then refused bad_legacy
    else found (record { connection = connection; schema = schema; table = table; column = [] })
from_parts connection (schema ∷ table ∷ column ∷ []) =
    if is_empty schema || is_empty table
    then refused bad_legacy
    else if is_empty column
    then refused empty_column
    else found (record { connection = connection; schema = schema; table = table; column = column })
from_parts connection _ = refused bad_legacy

unfoldable pub decode_legacy_object_id : Text → Text → IdResult
decode_legacy_object_id id connection = from_parts connection (split b'.' id)

-- The start of `fetch`: an identifier without the prefix is a legacy one where the principal may
-- use one connection only.
unfoldable pub legacy_reference : Text → List Text → IdError → IdResult
legacy_reference id [] e = refused e
legacy_reference id (connection ∷ []) e = decode_legacy_object_id id connection
legacy_reference id (a ∷ b ∷ names) e = refused ambiguous

unfoldable pub fetched_reference : ⦃u : Unicode⦄ → Codec → List Text → Text → IdResult
fetched_reference codec allowed id = elim (decode_object_id codec id) [
  | found ref ↦ found ref
  | refused e ↦ elim (cut_prefix object_id_prefix id) [
    | none ↦ legacy_reference id allowed e
    | some rest ↦ refused e
  ]
]

module _ ⦃u : Unicode⦄ (codec : Codec) where
  -- The identifier of a reference with a connection, a schema and a table, none of them blank, is
  -- decoded to that reference, whatever connections the principal may use: if its base64 is
  -- decoded to what was encoded, and its JSON read back as what was written.
  pub fetched_reference-encode_object_id :
      (ref : ObjectReference) (allowed : List Text)
      → is_complete ref ≡ true
      → codec.decode64 (codec.encode64 (codec.to_json ref)) ≡ some (codec.to_json ref)
      → codec.from_json (codec.to_json ref) ≡ some ref
      → fetched_reference codec allowed (encode_object_id codec ref) ≡ found ref
  unfolding encode_object_id decode_object_id fetched_reference cut_prefix runes
  fetched_reference-encode_object_id ref allowed complete decodes reads =
      rw decodes (rw reads (rw complete refl))
