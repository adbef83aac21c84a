-- ===== src/Guard/Ddl.antt =====
-- internal/sqlguard/sqlguard.go: `DetectDDLTablesWithError`, the parsers of the four DDL
-- statements and `hasUnsafeDDLCascade`. A loop over positions recurs on the tokens from its start
-- on, beside the position.
pub mod Cascade
pub mod Alter
pub mod Fuel
use felsen_mcp_server_postgr.Base.{
  ℕ, suc, ◌+◌, ◌-◌, Bool, true, false, not, ◌&&◌, ◌||◌, List, [], ◌∷◌, Option, none, some, String,
  Text, text_eq, runes, one_of, drop, leb, if◌then◌else◌,
}
use felsen_mcp_server_postgr.Strings.{Unicode, to_lower}
use felsen_mcp_server_postgr.Guard.Reason.{
  Result, ok, err, ◌>>=◌, ◌>>◌, ddl_no_object, cascade, unsupported_ddl, temporary_tables,
  create_only, index_concurrently, index_needs_on, alter_only, alter_forbidden, drop_only,
  drop_concurrently, drop_multiple, truncate_only, truncate_multiple,
}
use felsen_mcp_server_postgr.Guard.Token.{
  Token, is_keyword, keyword_at, text_at, operation_from_tokens,
}
use felsen_mcp_server_postgr.Guard.Tables.{is_empty, append_unique}
use felsen_mcp_server_postgr.Guard.Relations.{relation_at, relation_at_with_trailing_parentheses}

module _ ⦃u : Unicode⦄ where
  -- `i >= 2`, `on` at `i-2`, and `delete` or `update` at `i-1`.
  unfoldable pub is_referential_action : List Token → ℕ → Bool
  is_referential_action tokens i =
      leb 2 i
      && keyword_at tokens (i - 2) "on"
      && (keyword_at tokens (i - 1) "delete" || keyword_at tokens (i - 1) "update")

  unfoldable pub unsafe_cascade_from : List Token → Text → ℕ → List Token → Bool
  unsafe_cascade_from tokens op i [] = false
  unsafe_cascade_from tokens op i (tok ∷ rest) =
      let later = unsafe_cascade_from tokens op (i + 1) rest in
      if not (is_keyword tok "cascade")
      then later
      else if (text_eq op (runes "create") || text_eq op (runes "alter"))
          && is_referential_action tokens i
      then later
      else true

  unfoldable pub has_unsafe_ddl_cascade : List Token → Text → Bool
  has_unsafe_ddl_cascade tokens op = unsafe_cascade_from tokens op 0 tokens

  unfoldable pub skip_if_not_exists : List Token → ℕ → ℕ
  skip_if_not_exists tokens i =
      if keyword_at tokens i "if"
        && keyword_at tokens (i + 1) "not"
        && keyword_at tokens (i + 2) "exists"
      then i + 3
      else i

  unfoldable pub skip_if_exists : List Token → ℕ → ℕ
  skip_if_exists tokens i =
      if keyword_at tokens i "if" && keyword_at tokens (i + 1) "exists" then i + 2 else i

  -- `if isKeyword(tokens[i], v) { i++ }`.
  abbrev pub skip_keyword : List Token → String → ℕ → ℕ
  skip_keyword tokens v i = if keyword_at tokens i v then i + 1 else i

  -- The first position from `i` on that holds `on`; `rest` is `tokens[i:]`.
  unfoldable pub find_on : ℕ → List Token → Option ℕ
  find_on i [] = none
  find_on i (tok ∷ rest) =
      let later = find_on (i + 1) rest in if is_keyword tok "on" then some i else later

  -- The target of `CREATE INDEX`, behind the name of the index, if it has one.
  unfoldable pub index_target : List Token → Text → Option ℕ → Result (List Text)
  index_target tokens index none = err index_needs_on
  index_target tokens index (some next) = do
    (target, _) ←
        relation_at_with_trailing_parentheses tokens (skip_keyword tokens "only" (next + 1))
    ok (append_unique [] (index ∷ target ∷ []))

  unfoldable pub index_name : List Token → ℕ → Result (Text × ℕ)
  index_name tokens i = if keyword_at tokens i "on" then ok ([], i) else relation_at tokens i

  unfoldable pub parse_create_index : List Token → ℕ → Result (List Text)
  unfolding index_name index_target find_on
  parse_create_index tokens i =
      if not (keyword_at tokens i "index")
      then err create_only
      else if keyword_at tokens (i + 1) "concurrently"
      then err index_concurrently
      else do
        (index, next) ← index_name tokens (skip_if_not_exists tokens (i + 1))
        index_target tokens index (find_on next (drop next tokens))

  unfoldable pub parse_create_tables : List Token → Result (List Text)
  parse_create_tables tokens =
      if keyword_at tokens 1 "temporary"
        || keyword_at tokens 1 "temp"
        || keyword_at tokens 1 "unlogged"
      then err temporary_tables
      else if keyword_at tokens 1 "table"
      then (do
        (table, _) ← relation_at_with_trailing_parentheses tokens (skip_if_not_exists tokens 2)
        ok (table ∷ []))
      else parse_create_index tokens (skip_keyword tokens "unique" 1)

  unfoldable pub is_foreign_key_referential_action : List Token → ℕ → Bool
  is_foreign_key_referential_action tokens i =
      if not (is_referential_action tokens i)
      then false
      else if keyword_at tokens i "set"
      then keyword_at tokens (i + 1) "null" || keyword_at tokens (i + 1) "default"
      else if keyword_at tokens i "no"
      then keyword_at tokens (i + 1) "action"
      else false

  -- The variable `forbidden`, for `tok` at position `i`.
  unfoldable pub forbidden_word : List Token → ℕ → Token → Text
  forbidden_word tokens i tok =
      if is_keyword tok "rename"
        || is_keyword tok "owner"
        || is_keyword tok "attach"
        || is_keyword tok "detach"
        || is_keyword tok "inherit"
        || is_keyword tok "replica"
      then to_lower tok.text
      else if is_keyword tok "set" && not (is_foreign_key_referential_action tokens i)
      then runes "set"
      else if is_keyword tok "no" && not (is_foreign_key_referential_action tokens i)
      then runes "no"
      else []

  unfoldable pub check_alter_from : List Token → ℕ → List Token → Result (Unit {0})
  check_alter_from tokens i [] = ok tt
  check_alter_from tokens i (tok ∷ rest) =
      let later = check_alter_from tokens (i + 1) rest in
      if not (is_empty (forbidden_word tokens i tok))
      then err (alter_forbidden (forbidden_word tokens i tok))
      else later

  unfoldable pub parse_alter_tables : List Token → Result (List Text)
  parse_alter_tables tokens = if not (keyword_at tokens 1 "table") then err alter_only else do
    (table, next) ← relation_at tokens (skip_keyword tokens "only" (skip_if_exists tokens 2))
    check_alter_from tokens next (drop next tokens)
    ok (table ∷ [])

  unfoldable pub parse_drop_tables : List Token → Result (List Text)
  parse_drop_tables tokens =
      if not (keyword_at tokens 1 "table") && not (keyword_at tokens 1 "index")
      then err drop_only
      else if keyword_at tokens 1 "index" && keyword_at tokens 2 "concurrently"
      then err drop_concurrently
      else do
        (table, next) ← relation_at tokens (skip_if_exists tokens 2)
        if text_at tokens next "," then err drop_multiple else ok (table ∷ [])

  unfoldable pub parse_truncate_tables : List Token → Result (List Text)
  parse_truncate_tables tokens =
      let i = skip_keyword tokens "table" 1 in
      if keyword_at tokens i "only" then err truncate_only else do
        (table, next) ← relation_at tokens i
        if text_at tokens next "," then err truncate_multiple else ok (table ∷ [])

  unfoldable pub detect_ddl_tables_with_error : List Token → Result (List Text)
  detect_ddl_tables_with_error [] = err ddl_no_object
  detect_ddl_tables_with_error (t ∷ ts) =
      let tokens = t ∷ ts in
      let op = operation_from_tokens tokens in
      if has_unsafe_ddl_cascade tokens op
      then err cascade
      else if text_eq op (runes "create")
      then parse_create_tables tokens
      else if text_eq op (runes "alter")
      then parse_alter_tables tokens
      else if text_eq op (runes "drop")
      then parse_drop_tables tokens
      else if text_eq op (runes "truncate")
      then parse_truncate_tables tokens
      else err unsupported_ddl
