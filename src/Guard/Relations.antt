-- ===== src/Guard/Relations.antt =====
-- internal/sqlguard/sqlguard.go: `relationAtWithOptions`, `rejectRelationList` and
-- `detectTableRefs`. The loop over the tokens jumps behind each table that it reads, so it runs
-- on fuel; the number of tokens is enough.
pub mod At
pub mod Fuel
pub mod Covered
use felsen_mcp_server_postgr.Base.{
  ℕ, zero, suc, ◌+◌, Bool, true, false, not, ◌&&◌, ◌||◌, List, [], ◌∷◌, ◌++◌, Option, none, some,
  String, Text, text_eq, runes, one_of, length, get_elem?, drop, ◌==◌, if◌then◌else◌,
}
use felsen_mcp_server_postgr.Strings.{Unicode, to_lower}
use felsen_mcp_server_postgr.Guard.Reason.{
  Result, ok, err, ◌>>=◌, ◌>>◌, simple_identifiers, modifiers, invalid_qualified,
  database_qualified, wildcards, relation_list, out_of_fuel,
}
use felsen_mcp_server_postgr.Guard.Token.{
  Token, is_identifier, is_keyword, keyword_at, text_at, identifier_value,
}
use felsen_mcp_server_postgr.Guard.Tables.{normalize_table, append_unique}

unfoldable pub list_ends : List String
list_ends =
    "where" ∷ "group" ∷ "order" ∷ "having" ∷ "limit" ∷ "offset" ∷ "union" ∷ "intersect" ∷ "except"
    ∷ "returning" ∷ "window" ∷ "join" ∷ "left" ∷ "right" ∷ "full" ∷ "inner" ∷ "cross" ∷ "on" ∷ "set"
    ∷ "values" ∷ []

module _ ⦃u : Unicode⦄ where
  -- The tests behind the name `first`, which ends before `next`.
  unfoldable pub relation_end : List Token → ℕ → Bool → Text → Result (Text × ℕ)
  relation_end tokens next allow_parentheses first =
      if text_at tokens next "*"
      then err wildcards
      else if text_at tokens next "(" && not allow_parentheses
      then err wildcards
      else ok (normalize_table first, next)

  -- The part behind the dot, `tokens[next+1]`.
  unfoldable pub relation_second : List Token → ℕ → Bool → Text → Option Token → Result (Text × ℕ)
  relation_second tokens next allow_parentheses first none = err invalid_qualified
  relation_second tokens next allow_parentheses first (some second) =
      if not (is_identifier second)
      then err invalid_qualified
      else if text_at tokens (next + 2) "."
      then err database_qualified
      else relation_end tokens (next + 2) allow_parentheses
          (first ++ b'.' ∷ identifier_value second)

  unfoldable pub relation_first : List Token → ℕ → Bool → Option Token → Result (Text × ℕ)
  relation_first tokens start allow_parentheses none = err simple_identifiers
  relation_first tokens start allow_parentheses (some tok) =
      let first = identifier_value tok in
      let next = start + 1 in
      if not (is_identifier tok)
      then err simple_identifiers
      else if is_keyword tok "only"
          || is_keyword tok "table"
          || is_keyword tok "if"
          || is_keyword tok "exists"
      then err modifiers
      else if text_at tokens next "."
      then relation_second tokens next allow_parentheses first (get_elem? tokens (next + 1))
      else relation_end tokens next allow_parentheses first

  -- The table and the position behind it. The positions that the source returns beside an error
  -- are not used by its callers.
  unfoldable pub relation_at_with_options : List Token → ℕ → Bool → Result (Text × ℕ)
  relation_at_with_options tokens start allow_parentheses =
      relation_first tokens start allow_parentheses (get_elem? tokens start)

  abbrev pub relation_at : List Token → ℕ → Result (Text × ℕ)
  relation_at tokens start = relation_at_with_options tokens start false

  abbrev pub relation_at_with_trailing_parentheses : List Token → ℕ → Result (Text × ℕ)
  relation_at_with_trailing_parentheses tokens start = relation_at_with_options tokens start true

  -- The loop of `rejectRelationList`, on `tokens[start:]`.
  unfoldable pub reject_list_from : List Token → Result (Unit {0})
  reject_list_from [] = ok tt
  reject_list_from (tok ∷ tokens) =
      let rest = reject_list_from tokens in
      if text_eq tok.text (runes ",")
      then err relation_list
      else if text_eq tok.text (runes "(")
      then ok tt
      else if is_identifier tok && not tok.quoted && one_of list_ends (to_lower tok.text)
      then ok tt
      else rest

  unfoldable pub reject_relation_list : List Token → ℕ → Result (Unit {0})
  unfolding reject_list_from
  reject_relation_list tokens start = reject_list_from (drop start tokens)

  -- `i > 0 && isKeyword(tokens[i-1], v)`.
  abbrev pub keyword_before : List Token → ℕ → String → Bool
  keyword_before tokens zero v = false
  keyword_before tokens (suc i) v = keyword_at tokens i v

  unfoldable pub is_relation_keyword : List Token → Text → ℕ → Bool
  is_relation_keyword tokens op i =
      keyword_at tokens i "from"
      || keyword_at tokens i "join"
      || keyword_at tokens i "references"
      || keyword_at tokens i "using"
      || keyword_at tokens i "update"
      || keyword_at tokens i "into"
      || text_eq op (runes "create") && keyword_at tokens i "like"
      || text_eq op (runes "create") && keyword_at tokens i "inherits"
      || text_eq op (runes "create")
        && keyword_before tokens i "partition"
        && keyword_at tokens i "of"
      || text_eq op (runes "create") && keyword_before tokens i "as" && keyword_at tokens i "table"

  -- The tests that pass over a relation keyword.
  unfoldable pub is_passed_over : List Token → Text → ℕ → Bool
  is_passed_over tokens op i =
      keyword_at tokens i "update" && not (text_eq op (runes "update") && i == 0)
      || keyword_at tokens i "into"
        && not (text_eq op (runes "insert"))
        && not (text_eq op (runes "select"))
      || keyword_at tokens i "using" && not (text_eq op (runes "delete"))

  -- Where the table that position `i` announces is read; `none` is `continue`.
  unfoldable pub relation_start : List Token → Text → ℕ → Option ℕ
  relation_start tokens op i =
      let start =
        if keyword_at tokens i "inherits" && text_at tokens (i + 1) "(" then i + 2 else i + 1 in
      if not (is_relation_keyword tokens op i)
      then none
      else if is_passed_over tokens op i
      then none
      else if keyword_at tokens i "using" && text_at tokens start "("
      then none
      else some start

  abbrev pub allow_trailing : List Token → ℕ → Bool
  allow_trailing tokens i = keyword_at tokens i "into" || keyword_at tokens i "references"

  -- The table read at `start` for position `i`, and the position behind it.
  unfoldable pub read_relation : List Token → ℕ → ℕ → Result (Text × ℕ)
  read_relation tokens i start = do
    (table, next) ← relation_at_with_options tokens start (allow_trailing tokens i)
    reject_relation_list tokens next
    ok (table, next)

  unfoldable pub detect_from : ℕ → List Token → Text → ℕ → List Text → Result (List Text)
  detect_from zero tokens op i tables = elim (get_elem? tokens i) [
    | none ↦ ok tables
    | some t ↦ err out_of_fuel
  ]
  detect_from (suc fuel) tokens op i tables = elim (get_elem? tokens i) [
    | none ↦ ok tables
    | some t ↦ elim (relation_start tokens op i) [
      | none ↦ detect_from fuel tokens op (i + 1) tables
      | some start ↦ do
        (table, next) ← read_relation tokens i start
        detect_from fuel tokens op next (append_unique tables (table ∷ []))
    ]
  ]

  -- The position behind the first `delete from`, searched from position `i`.
  unfoldable pub delete_target : List Token → ℕ → List Token → Option ℕ
  delete_target tokens i [] = none
  delete_target tokens i (t ∷ rest) =
      let later = delete_target tokens (i + 1) rest in
      if keyword_at tokens i "delete" && keyword_at tokens (i + 1) "from"
      then some (i + 2)
      else later

  unfoldable pub add_delete_target : List Token → List Text → Option ℕ → Result (List Text)
  add_delete_target tokens tables none = ok tables
  add_delete_target tokens tables (some start) = do
    (table, next) ← relation_at tokens start
    ok (append_unique tables (table ∷ []))

  unfoldable pub detect_table_refs : List Token → Text → Result (List Text)
  detect_table_refs tokens op = do
    tables ← detect_from (length tokens) tokens op 0 []
    if text_eq op (runes "delete")
        then add_delete_target tokens tables (delete_target tokens 0 tokens)
        else ok tables
