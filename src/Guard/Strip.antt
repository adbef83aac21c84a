-- ===== src/Guard/Strip.antt =====
-- internal/sqlguard/sqlguard.go: `stripSQLComments`.
pub mod Blanks
use felsen_mcp_server_postgr.Base.{
  ℕ, Bool, true, false, ◌&&◌, List, [], ◌∷◌, Text, ◌==◌, if◌then◌else◌,
}
use felsen_mcp_server_postgr.Guard.Reason.{
  Result, ok, err, ◌>>=◌, unterminated_string, unterminated_identifier, unterminated_comment,
}
use felsen_mcp_server_postgr.Guard.Split.{Scan, next_rune}

-- What the turn before made of this rune (`i++`): nothing, a space, or the rune itself.
pub data Skip : Type 0 where
  here blank keep : Skip

-- One turn: the flags behind it, what it makes of the next rune, and the rune it writes. The
-- guard `i+1 < len(runes)` of the backslash changes nothing: at the end no rune is left to keep.
unfoldable pub strip_step : Scan → ℕ → ℕ → Scan × Skip × ℕ
strip_step Scan.line c next =
    if c == b'\n' then (Scan.plain, Skip.here, c) else (Scan.line, Skip.here, b' ')
strip_step Scan.block c next =
    if c == b'*' && next == b'/'
    then (Scan.plain, Skip.blank, b' ')
    else if c == b'\n'
    then (Scan.block, Skip.here, c)
    else (Scan.block, Skip.here, b' ')
strip_step Scan.single c next =
    if c == 92
    then (Scan.single, Skip.keep, c)
    else if c == 39
    then (if next == 39 then (Scan.single, Skip.keep, c) else (Scan.plain, Skip.here, c))
    else (Scan.single, Skip.here, c)
strip_step Scan.double c next =
    if c == 34
    then (if next == 34 then (Scan.double, Skip.keep, c) else (Scan.plain, Skip.here, c))
    else (Scan.double, Skip.here, c)
strip_step Scan.plain c next =
    if c == b'-' && next == b'-'
    then (Scan.line, Skip.blank, b' ')
    else if c == b'/' && next == b'*'
    then (Scan.block, Skip.blank, b' ')
    else if c == 39
    then (Scan.single, Skip.here, c)
    else if c == 34
    then (Scan.double, Skip.here, c)
    else (Scan.plain, Skip.here, c)

-- The tests behind the loop.
unfoldable pub strip_end : Scan → Result Text
strip_end Scan.block = err unterminated_comment
strip_end Scan.single = err unterminated_string
strip_end Scan.double = err unterminated_identifier
strip_end _ = ok []

unfoldable pub strip_from : Scan → Skip → Text → Result Text
strip_from scan skip [] = strip_end scan
strip_from scan Skip.blank (c ∷ s) = do out ← strip_from scan Skip.here s; ok (b' ' ∷ out)
strip_from scan Skip.keep (c ∷ s) = do out ← strip_from scan Skip.here s; ok (c ∷ out)
strip_from scan Skip.here (c ∷ s) =
    let (scan', skip, written) = strip_step scan c (next_rune s) in
    (do out ← strip_from scan' skip s; ok (written ∷ out))

unfoldable pub strip_sql_comments : Text → Result Text
strip_sql_comments sql = strip_from Scan.plain Skip.here sql
