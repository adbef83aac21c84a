-- ===== src/Store/Describe.antt =====
-- `DescribeTable` with its cache, and the four catalog queries it makes.
pub mod Cache
use felsen_mcp_server_postgr.Base.{
  ℕ, Bool, true, false, not, List, [], ◌∷◌, ◌++◌, map, Option, none, some, Text, text_eq, mem_text,
  if◌then◌else◌,
}
use felsen_mcp_server_postgr.Strings.{Unicode, trim_space, trim_char, split}
use felsen_mcp_server_postgr.Config.Policy.{ConnectionConfig, schema_allowed}
use felsen_mcp_server_postgr.Masking.{Masker}
use felsen_mcp_server_postgr.Guard.Tables.{is_empty}
use felsen_mcp_server_postgr.Store.{
  Answer, value, failure, Outcome, done, failed, schema_refused, driver, Database, TableDescription,
  ColumnInfo, ForeignKeyInfo, IndexInfo,
}

-- The rows of a catalog query, each scanned or refused, and `rows.Err()`.
pub record Scanned (A : Type 0) : Type 0 where
  pub rows : List (Answer A)
  pub error : Option Text

-- The columns that the queries on columns and on indexes scan.
pub record ColumnRow : Type 0 where
  pub name : Text
  pub type : Text
  pub nullable : Bool
  pub default : Option Text
  pub comment : Option Text

pub record IndexRow : Type 0 where
  pub name : Text
  pub unique : Bool
  pub definition : Text

-- What PostgreSQL answers to the four queries; `column_list` is the regular expression
-- `indexColumnsPattern`: the text of its group, if it matches.
pub record Catalog : Type 0 where
  pub primary_key : Text → Text → Answer (Scanned Text)
  pub columns : Text → Text → Answer (Scanned ColumnRow)
  pub foreign_keys : Text → Text → Answer (Scanned ForeignKeyInfo)
  pub indexes : Text → Text → Answer (Scanned IndexRow)
  pub column_list : Text → Option Text

-- The loop that each of the four queries runs: the rows, or the first error.
unfoldable pub scan_rows : {A : Type 0} → List (Answer A) → Option Text → Answer (List A)
scan_rows [] none = value []
scan_rows [] (some e) = failure e
scan_rows (failure e ∷ rows) last = failure e
scan_rows (value a ∷ rows) last = elim (scan_rows rows last) [
  | failure e ↦ failure e
  | value more ↦ value (a ∷ more)
]

unfoldable pub scan_all : {A : Type 0} → Answer (Scanned A) → Answer (List A)
scan_all (failure e) = failure e
scan_all (value s) = scan_rows s.rows s.error

abbrev pub column_info : List Text → ColumnRow → ColumnInfo
column_info pk row = record {
  name = row.name;
  type = row.type;
  nullable = row.nullable;
  default = row.default;
  comment = row.comment;
  is_primary_key = mem_text row.name pk;
}

unfoldable pub find_description : List (Text × TableDescription) → Text → Option TableDescription
find_description [] key = none
find_description ((k, desc) ∷ cache) key =
    let rest = find_description cache key in if text_eq k key then some desc else rest

-- `schema + "." + table`.
unfoldable pub cache_key : Text → Text → Text
cache_key schema table = schema ++ b'.' ∷ table

unfoldable pub store_description : Database → Text → TableDescription → Database
store_description db key desc = record {
  cfg = db.cfg;
  masker = db.masker;
  cache = (key, desc) ∷ db.cache;
}

module _ ⦃u : Unicode⦄ where
  unfoldable pub index_column_names : List Text → List Text
  index_column_names [] = []
  index_column_names (col ∷ cols) =
      let rest = index_column_names cols in
      let name = trim_space (trim_char 34 col) in if not (is_empty name) then name ∷ rest else rest

  module _ (c : Catalog) where
    unfoldable pub parse_index_columns : Text → List Text
    parse_index_columns definition = elim (c.column_list definition) [
      | none ↦ []
      | some columns ↦ index_column_names (split b',' columns)
    ]

    abbrev pub index_info : IndexRow → IndexInfo
    index_info row = record {
      name = row.name;
      columns = parse_index_columns row.definition;
      unique = row.unique;
      definition = row.definition;
    }

    -- The four queries, in order.
    unfoldable pub introspect : Text → Text → Answer TableDescription
    introspect schema table = elim (scan_all (c.primary_key schema table)) [
      | failure e ↦ failure e
      | value pk ↦ elim (scan_all (c.columns schema table)) [
        | failure e ↦ failure e
        | value columns ↦ elim (scan_all (c.foreign_keys schema table)) [
          | failure e ↦ failure e
          | value fks ↦ elim (scan_all (c.indexes schema table)) [
            | failure e ↦ failure e
            | value indexes ↦ value (record {
              schema = schema;
              table = table;
              columns = map (column_info pk) columns;
              primary_key = pk;
              foreign_keys = fks;
              indexes = map index_info indexes;
            })
          ]
        ]
      ]
    ]

    abbrev pub introspected :
        Database → Text → Answer TableDescription → Outcome TableDescription × Database
    introspected db key (failure e) = (failed (driver e), db)
    introspected db key (value desc) = (done desc, store_description db key desc)

    unfoldable pub describe_table : Database → Text → Text → Outcome TableDescription × Database
    describe_table db schema table =
        if not (schema_allowed db.cfg schema)
        then (failed (schema_refused schema), db)
        else elim (find_description db.cache (cache_key schema table)) [
          | some desc ↦ (done desc, db)
          | none ↦ introspected db (cache_key schema table) (introspect schema table)
        ]
