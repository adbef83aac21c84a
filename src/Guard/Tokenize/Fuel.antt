-- ===== src/Guard/Tokenize/Fuel.antt =====
-- `tokenize` never runs out of fuel.
use felsen_mcp_server_postgr.Base.{
  ℕ, zero, suc, Bool, true, false, [], ◌∷◌, Option, none, some, Text, length, length-append, refl,
  ap, ◌≤◌, ◌<◌, arith, ◌≢◌,
}
use felsen_mcp_server_postgr.Strings.{Unicode}
use felsen_mcp_server_postgr.Guard.Reason.{ok, err, bind-ne-err, out_of_fuel}
use felsen_mcp_server_postgr.Guard.Token.{Token, TokenKind}
use felsen_mcp_server_postgr.Guard.Tokenize.{lex, tokenize_from, tokenize}
use felsen_mcp_server_postgr.Guard.Tokenize.Bodies.{spelling}
use felsen_mcp_server_postgr.Guard.Tokenize.Lex.{IsLexeme, IsToken, Lexes, lex-Lexes}

module _ ⦃u : Unicode⦄ where
  spelling_pos : (t : Token) → IsToken t → 0 < length (spelling t)
  spelling_pos t h = go t.kind t.quoted t.text h
    where
      go :
          (k : TokenKind) (q : Bool) (s : Text)
          → IsLexeme k q s
          → 0 < length (spelling (record { text = s; quoted = q; kind = k }))
      go TokenKind.identifier true s h = omega arith
      go TokenKind.identifier false [] h = absurd h
      go TokenKind.identifier false (c ∷ s) h = omega arith
      go TokenKind.string false [] h = absurd h
      go TokenKind.string false (c ∷ s) h = omega arith
      go TokenKind.number false [] h = absurd h
      go TokenKind.number false (c ∷ s) h = omega arith
      go TokenKind.symbol false [] h = absurd h
      go TokenKind.symbol false (c ∷ s) h = omega arith
      go TokenKind.string true s h = absurd h
      go TokenKind.number true s h = absurd h
      go TokenKind.symbol true s h = absurd h

  -- One round leaves at most the characters behind the one that it looks at.
  Lexes-shorter :
      (c : ℕ) (s rest : Text) (t : Option Token) → Lexes c s (ok (t, rest)) → length rest ≤ length s
  Lexes-shorter c s rest none h = omega (arith, ap (length {0}) h.1)
  Lexes-shorter c s rest (some t) h =
      omega (arith, ap (length {0}) h.0, length-append {0} (spelling t) rest, spelling_pos t h.1)

  tokenize_from-fuel :
      (fuel : ℕ) (s : Text) → length s ≤ fuel → tokenize_from fuel s ≢ err out_of_fuel
  unfolding tokenize_from
  tokenize_from-fuel fuel [] h = λ x. cc
  tokenize_from-fuel zero (c ∷ s) h = absurd (omega arith)
  tokenize_from-fuel (suc fuel) (c ∷ s) h =
      bind-ne-err out_of_fuel (lex c s) _ (λ e. (rw e at (lex-Lexes c s)) refl)
        λ (t, rest) e.
          bind-ne-err out_of_fuel (tokenize_from fuel rest) _
            (tokenize_from-fuel fuel rest
              (omega (arith, Lexes-shorter c s rest t (rw e at (lex-Lexes c s)))))
            λ ts _ x. cc

  -- `tokenize` never ends for want of fuel: the length of the text is enough.
  pub tokenize-fuel : (sql : Text) → tokenize sql ≢ err out_of_fuel
  unfolding tokenize
  tokenize-fuel sql = tokenize_from-fuel (length sql) sql (omega arith)
