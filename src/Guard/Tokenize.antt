-- ===== src/Guard/Tokenize.antt =====
-- internal/sqlguard/sqlguard.go: `tokenize`. The loop drops a varying number of characters each
-- round, so it runs on fuel; the length of the input is enough. The inner loops of the source
-- return what they read and the rest of the input.
pub mod Fuel
pub mod Bodies
pub mod Lex
pub mod Reads
use felsen_mcp_server_postgr.Base.{
  ℕ, zero, suc, Bool, true, false, not, ◌&&◌, ◌||◌, List, [], ◌∷◌, ◌++◌, Option, none, some, Text,
  length, ◌==◌, if◌then◌else◌,
}
use felsen_mcp_server_postgr.Strings.{Unicode}
use felsen_mcp_server_postgr.Guard.Reason.{
  Result, ok, err, ◌>>=◌, comments_not_allowed, dollar_quoted, unterminated_string,
  unterminated_identifier, out_of_fuel,
}
use felsen_mcp_server_postgr.Guard.Token.{Token, TokenKind}

-- `i+1 < len(runes) && runes[i+1] == d`, on the characters behind `runes[i]`.
abbrev pub next_is : ℕ → Text → Bool
next_is d [] = false
next_is d (x ∷ s) = x == d

abbrev pub next_satisfies : (ℕ → Bool) → Text → Bool
next_satisfies p [] = false
next_satisfies p (x ∷ s) = p x

-- The longest prefix of characters with `p`, and the rest.
abbrev pub push : ℕ → Text × Text → Text × Text
push c (taken, rest) = (c ∷ taken, rest)

unfoldable pub span : (ℕ → Bool) → Text → Text × Text
span p [] = ([], [])
span p (c ∷ s) = let more = push c (span p s) in if p c then more else ([], c ∷ s)

-- The characters of a string literal behind its first quote, up to and with the last one: a
-- backslash and a doubled quote take the next character along. `none` is an unclosed literal.
abbrev pub push_body : Text → Option (Text × Text) → Option (Text × Text)
push_body cs none = none
push_body cs (some (body, rest)) = some (cs ++ body, rest)

unfoldable pub string_body : Text → Option (Text × Text)
string_body [] = none
string_body (c ∷ []) = if c == b'\'' then some (c ∷ [], []) else none
string_body (c ∷ d ∷ s) =
    let two = push_body (c ∷ d ∷ []) (string_body s) in
    let one = push_body (c ∷ []) (string_body (d ∷ s)) in
    if c == b'\\'
    then two
    else if not (c == b'\'')
    then one
    else if d == b'\''
    then two
    else some (c ∷ [], d ∷ s)

-- The value of a quoted identifier behind its first quote; a doubled quote stands for one.
unfoldable pub identifier_body : Text → Option (Text × Text)
identifier_body [] = none
identifier_body (c ∷ []) = if c == b'"' then some ([], []) else none
identifier_body (c ∷ d ∷ s) =
    let doubled = push_body (c ∷ []) (identifier_body s) in
    let one = push_body (c ∷ []) (identifier_body (d ∷ s)) in
    if not (c == b'"') then one else if d == b'"' then doubled else some ([], d ∷ s)

module _ ⦃u : Unicode⦄ where
  unfoldable pub is_identifier_start : ℕ → Bool
  is_identifier_start c = c == b'_' || u.is_letter c

  unfoldable pub is_identifier_part : ℕ → Bool
  is_identifier_part c = c == b'_' || c == b'$' || u.is_letter c || u.is_digit c

  abbrev pub is_number_part : ℕ → Bool
  is_number_part c = u.is_digit c || c == b'.'

  abbrev pub word : Text → Token
  word s = record { text = s; quoted = false; kind = TokenKind.identifier }

  -- One round of the loop at the character `c` with `s` behind it: the token that it appends, if
  -- any, and the characters that are left.
  abbrev pub Lexed : Type 0
  Lexed = Option Token × Text

  unfoldable pub lex_dollar : Text → Result Lexed
  lex_dollar s =
      let (digits, rest) = span u.is_digit s in
      if next_satisfies u.is_digit s
      then ok
          (some (record { text = b'$' ∷ digits; quoted = false; kind = TokenKind.symbol }), rest)
      else err dollar_quoted

  unfoldable pub lex_string : ℕ → Option (Text × Text) → Result Lexed
  lex_string c none = err unterminated_string
  lex_string c (some (body, rest)) =
      ok (some (record { text = c ∷ body; quoted = false; kind = TokenKind.string }), rest)

  unfoldable pub lex_quoted : Option (Text × Text) → Result Lexed
  lex_quoted none = err unterminated_identifier
  lex_quoted (some (value, rest)) =
      ok (some (record { text = value; quoted = true; kind = TokenKind.identifier }), rest)

  unfoldable pub lex_span : TokenKind → ℕ → Text × Text → Result Lexed
  lex_span kind c (taken, rest) =
      ok (some (record { text = c ∷ taken; quoted = false; kind = kind }), rest)

  unfoldable pub lex : ℕ → Text → Result Lexed
  lex c s =
      if u.is_space c
      then ok (none, s)
      else if c == b'-' && next_is b'-' s
      then err comments_not_allowed
      else if c == b'/' && next_is b'*' s
      then err comments_not_allowed
      else if c == b'$'
      then lex_dollar s
      else if c == b'\''
      then lex_string c (string_body s)
      else if c == b'"'
      then lex_quoted (identifier_body s)
      else if is_identifier_start c
      then lex_span TokenKind.identifier c (span is_identifier_part s)
      else if u.is_digit c
      then lex_span TokenKind.number c (span is_number_part s)
      else ok (some (record { text = c ∷ []; quoted = false; kind = TokenKind.symbol }), s)

  abbrev pub append_token : Option Token → List Token → List Token
  append_token none ts = ts
  append_token (some t) ts = t ∷ ts

  unfoldable pub tokenize_from : ℕ → Text → Result (List Token)
  tokenize_from fuel [] = ok []
  tokenize_from zero (c ∷ s) = err out_of_fuel
  tokenize_from (suc fuel) (c ∷ s) = do
    (token, rest) ← lex c s
    ts ← tokenize_from fuel rest
    ok (append_token token ts)

  unfoldable pub tokenize : Text → Result (List Token)
  unfolding tokenize_from lex lex_dollar lex_string lex_quoted lex_span span string_body
      identifier_body is_identifier_start is_identifier_part
  tokenize sql = tokenize_from (length sql) sql
