-- ===== src/Guard/Tables.antt =====
-- internal/sqlguard/sqlguard.go: the names of tables, `SplitTable` and `normalizeTable`, and the
-- lists of them that `appendUnique` builds.
pub mod Names
pub mod Unique
use felsen_mcp_server_postgr.Base.{
  ℕ, Bool, true, false, not, ◌&&◌, ◌||◌, List, [], ◌∷◌, ◌++◌, Text, runes, mem_text, if◌then◌else◌,
}
use felsen_mcp_server_postgr.Strings.{Unicode, trim_space, trim_char, split, contains_char}

-- `table == ""`.
abbrev pub is_empty : Text → Bool
is_empty [] = true
is_empty (c ∷ s) = false

-- The two results of `SplitTable`, from the parts between the dots.
abbrev pub schema_and_name : List Text → Text × Text
schema_and_name [] = (runes "public", [])
schema_and_name (name ∷ []) = (runes "public", trim_char b'"' name)
schema_and_name (schema ∷ name ∷ rest) = (trim_char b'"' schema, trim_char b'"' name)

-- The list that is returned holds what was seen, so it stands for the map `seen` too.
unfoldable pub append_unique : List Text → List Text → List Text
append_unique tables [] = tables
append_unique tables (table ∷ values) =
    append_unique
      (if not (is_empty table) && not (mem_text table tables) then tables ++ table ∷ [] else tables)
      values

module _ ⦃u : Unicode⦄ where
  unfoldable pub split_table : Text → Text × Text
  split_table table = schema_and_name (split b'.' (trim_space table))

  unfoldable pub normalize_table : Text → Text
  normalize_table table =
      let trimmed = trim_space table in
      if is_empty trimmed
      then []
      else if not (contains_char b'.' trimmed)
      then runes "public." ++ trimmed
      else trimmed
