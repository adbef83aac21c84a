-- ===== src/Guard/Tokenize/Reads.antt =====
-- The tokens spell the whole statement, up to white space, so that no character of the text is
-- hidden from the checks on tokens.
use felsen_mcp_server_postgr.Base.{
  ℕ, zero, suc, true, List, [], ◌∷◌, ◌++◌, Option, none, some, Text, length, ◌≡◌,
}
use felsen_mcp_server_postgr.Strings.{Unicode}
use felsen_mcp_server_postgr.Guard.Reason.{ok, bind-eq-ok}
use felsen_mcp_server_postgr.Guard.Token.{Token}
use felsen_mcp_server_postgr.Guard.Tokenize.{lex, append_token, tokenize_from, tokenize}
use felsen_mcp_server_postgr.Guard.Tokenize.Bodies.{spelling}
use felsen_mcp_server_postgr.Guard.Tokenize.Lex.{IsToken, Lexes, lex-Lexes}

module _ ⦃u : Unicode⦄ where
  -- The statement and its tokens: blanks, and the spellings of the tokens in their order.
  pub data Reads : Text → List Token → Type 0 where
    stop : Reads [] []
    blank :
        {c : ℕ} {s : Text} {ts : List Token} → u.is_space c ≡ true → Reads s ts → Reads (c ∷ s) ts
    lexeme :
        {s rest : Text} {t : Token} {ts : List Token}
        → s ≡ spelling t ++ rest
        → IsToken t
        → Reads rest ts
        → Reads s (t ∷ ts)

  append_token-Reads :
      (c : ℕ) (s rest : Text) (t : Option Token) {ts : List Token}
      → Lexes c s (ok (t, rest))
      → Reads rest ts
      → Reads (c ∷ s) (append_token t ts)
  append_token-Reads c s rest none h r = blank h.0 (rw (← h.1) r)
  append_token-Reads c s rest (some t) h r = lexeme h.0 h.1 r

  tokenize_from-Reads :
      (fuel : ℕ) (s : Text) {ts : List Token} → tokenize_from fuel s ≡ ok ts → Reads s ts
  unfolding tokenize_from
  tokenize_from-Reads fuel [] {ts} h = let e : ts ≡ [] = cc in rw e stop
  tokenize_from-Reads zero (c ∷ s) h = cc
  tokenize_from-Reads (suc fuel) (c ∷ s) {ts} h =
      let ((t, rest), lexed, h') = bind-eq-ok (lex c s) _ h in
      let (us, read, h'') = bind-eq-ok (tokenize_from fuel rest) _ h' in
      let e : append_token t us ≡ ts = cc in
      rw (← e) (
        append_token-Reads c s rest t (rw lexed at (lex-Lexes c s))
          (tokenize_from-Reads fuel rest read))

  -- The tokens of a text that `tokenize` accepts spell all of it but its white space, each with a
  -- text that fits its kind.
  pub tokenize-Reads : (sql : Text) {ts : List Token} → tokenize sql ≡ ok ts → Reads sql ts
  unfolding tokenize
  tokenize-Reads sql h = tokenize_from-Reads (length sql) sql h
