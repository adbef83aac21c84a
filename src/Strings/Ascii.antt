-- ===== src/Strings/Ascii.antt =====
-- The tables of Unicode restricted to ASCII, for the tests.
use felsen_mcp_server_postgr.Base.{ℕ, ◌+◌, Bool, ◌&&◌, ◌||◌, ltb, ◌==◌, if◌then◌else◌}
use felsen_mcp_server_postgr.Strings.{Unicode}

abbrev between : ℕ → ℕ → ℕ → Bool
between lo hi c = ltb lo (c + 1) && ltb c (hi + 1)

unfoldable pub ascii_space : ℕ → Bool
ascii_space c = between 9 13 c || c == b' '

unfoldable pub ascii_letter : ℕ → Bool
ascii_letter c = between b'a' b'z' c || between b'A' b'Z' c

unfoldable pub ascii_digit : ℕ → Bool
ascii_digit c = between b'0' b'9' c

unfoldable pub ascii_lower : ℕ → ℕ
ascii_lower c = if between b'A' b'Z' c then c + 32 else c

instance abbrev pub ascii : Unicode
ascii = record {
  is_space = ascii_space;
  is_letter = ascii_letter;
  is_digit = ascii_digit;
  lower = ascii_lower;
  fold = ascii_lower;
}
