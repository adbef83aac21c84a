-- ===== src/Guard/Split.antt =====
-- internal/sqlguard/parser_nocgo.go: `splitStatements` and `addStatement`, the splitter of the
-- build without cgo.
pub mod Laws
use felsen_mcp_server_postgr.Base.{
  ℕ, Bool, true, false, ◌&&◌, List, [], ◌∷◌, ◌++◌, Text, ◌==◌, if◌then◌else◌,
}
use felsen_mcp_server_postgr.Strings.{Unicode, trim_space}
use felsen_mcp_server_postgr.Guard.Reason.{Result, ok}
use felsen_mcp_server_postgr.Guard.Tables.{is_empty}

-- The four flags `inSingle`, `inDouble`, `inLineComment` and `inBlockComment`: at most one of
-- them is set.
pub data Scan : Type 0 where
  plain single double line block : Scan

-- `next`: 0 at the end.
abbrev pub next_rune : Text → ℕ
next_rune [] = 0
next_rune (c ∷ s) = c

-- One turn of the loop: the flags behind it, whether the next rune is written with this one
-- (`i++`), and whether this rune ends a statement.
unfoldable pub split_step : Scan → ℕ → ℕ → Scan × Bool × Bool
split_step Scan.line c next =
    if c == b'\n' then (Scan.plain, false, false) else (Scan.line, false, false)
split_step Scan.block c next =
    if c == b'*' && next == b'/' then (Scan.plain, true, false) else (Scan.block, false, false)
split_step Scan.single c next =
    if c == 39 then (Scan.plain, false, false) else (Scan.single, false, false)
split_step Scan.double c next =
    if c == 34 then (Scan.plain, false, false) else (Scan.double, false, false)
split_step Scan.plain c next =
    if c == b'-' && next == b'-'
    then (Scan.line, true, false)
    else if c == b'/' && next == b'*'
    then (Scan.block, true, false)
    else if c == 39
    then (Scan.single, next == 39, false)
    else if c == 34
    then (Scan.double, false, false)
    else if c == b';'
    then (Scan.plain, false, true)
    else (Scan.plain, false, false)

module _ ⦃u : Unicode⦄ where
  -- `addStatement`, in front of the statements that follow.
  unfoldable pub add_statement : Text → List Text → List Text
  add_statement sql statements =
      if is_empty (trim_space sql) then statements else trim_space sql ∷ statements

  -- The loop: `skip` where the rune was written with the one before.
  unfoldable pub split_from : Scan → Bool → Text → Text → List Text
  split_from scan skip current [] = add_statement current []
  split_from scan true current (c ∷ s) = split_from scan false (current ++ c ∷ []) s
  split_from scan false current (c ∷ s) =
      let (scan', skip, ends) = split_step scan c (next_rune s) in
      let rest = split_from scan' skip (if ends then [] else current ++ c ∷ []) s in
      if ends then add_statement current rest else rest

  unfoldable pub split_statements : Text → Result (List Text)
  split_statements sql = ok (split_from Scan.plain false [] sql)
