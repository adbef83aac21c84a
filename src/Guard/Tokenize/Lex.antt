-- ===== src/Guard/Tokenize/Lex.antt =====
-- One round of `tokenize`: the token that it appends and the characters that it drops.
use felsen_mcp_server_postgr.Base.{
  ℕ, Bool, true, false, ◌&&◌, ◌||◌, [], ◌∷◌, ◌++◌, Option, none, some, Text, ◌≡◌, refl, sym, ap,
  arith, ◌==◌, ==_iff, All, Bool-cases, if_cases, inl, inr, ◌≢◌,
}
use felsen_mcp_server_postgr.Strings.{Unicode}
use felsen_mcp_server_postgr.Guard.Reason.{Result, ok, err, out_of_fuel}
use felsen_mcp_server_postgr.Guard.Token.{Token, TokenKind}
use felsen_mcp_server_postgr.Guard.Tokenize.{
  next_is, span, string_body, identifier_body, is_identifier_start, is_identifier_part,
  is_number_part, lex, lex_dollar, lex_string, lex_quoted, lex_span,
}
use felsen_mcp_server_postgr.Guard.Tokenize.Bodies.{
  spelling, last_is, span-append, span-All, Body, string_body-Body, Value, identifier_body-Value,
}

module _ ⦃u : Unicode⦄ where
  -- The texts that a token of each kind can have; the flag is `quoted`.
  abbrev pub IsLexeme : TokenKind → Bool → Text → Type 0
  IsLexeme TokenKind.identifier true s = Unit
  IsLexeme TokenKind.identifier false (c ∷ s) =
      (is_identifier_start c ≡ true) × All (λ x. is_identifier_part x ≡ true) s
  IsLexeme TokenKind.number false (c ∷ s) =
      (u.is_digit c ≡ true) × All (λ x. is_number_part x ≡ true) s
  IsLexeme TokenKind.string false (c ∷ s) = (c ≡ b'\'') × (last_is b'\'' s ≡ true)
  IsLexeme TokenKind.symbol false (c ∷ []) =
      (u.is_space c ≡ false)
      × ((c == b'$' || c == b'\'' || c == b'"') ≡ false)
      × (is_identifier_start c ≡ false)
      × (u.is_digit c ≡ false)
  IsLexeme TokenKind.symbol false (c ∷ d ∷ s) = (c ≡ b'$') × All (λ x. u.is_digit x ≡ true) (d ∷ s)
  IsLexeme kind quoted s = ⊥

  abbrev pub IsToken : Token → Type 0
  IsToken t = IsLexeme t.kind t.quoted t.text

  -- What one round of the loop at `c` and `s` returns.
  abbrev pub Lexes : ℕ → Text → Result (Option Token × Text) → Type 0
  Lexes c s (ok (none, rest)) = (u.is_space c ≡ true) × (rest ≡ s)
  Lexes c s (ok (some t, rest)) = (c ∷ s ≡ spelling t ++ rest) × IsToken t
  Lexes c s (err e) = e ≢ out_of_fuel

  dollar-Lexes : (c : ℕ) (s : Text) → (c == b'$') ≡ true → Lexes c s (lex_dollar s)
  unfolding lex_dollar span
  dollar-Lexes c [] e = λ h. cc
  dollar-Lexes c (d ∷ s) e = elim (Bool-cases (u.is_digit d)) [
    | inl q ↦
        rw q
          (cc ((==_iff c b'$').0 e, span-append u.is_digit s), (refl, (q, span-All u.is_digit s)))
    | inr q ↦ rw q (λ h. cc)
  ]

  string-Lexes :
      (c : ℕ) (s : Text) (o : Option (Text × Text))
      → (c == b'\'') ≡ true
      → Body s o
      → Lexes c s (lex_string c o)
  unfolding lex_string
  string-Lexes c s none e h = λ x. cc
  string-Lexes c s (some (b, r)) e h = (sym (ap (◌∷◌ c) h.0), ((==_iff c b'\'').0 e, h.1))

  quoted-Lexes :
      (c : ℕ) (s : Text) (o : Option (Text × Text))
      → (c == b'"') ≡ true
      → Value s o
      → Lexes c s (lex_quoted o)
  unfolding lex_quoted
  quoted-Lexes c s none e h = λ x. cc
  quoted-Lexes c s (some (b, r)) e h = (cc (h, (==_iff c b'"').0 e), tt)

  span-Lexes :
      (kind : TokenKind) (c : ℕ) (p : ℕ → Bool) (s : Text)
      → IsLexeme kind false (c ∷ (span p s).0)
      → Lexes c s (lex_span kind c (span p s))
  unfolding lex_span
  span-Lexes kind c p s h = (ap (◌∷◌ c) (sym (span-append p s)), h)

  pub lex-Lexes : (c : ℕ) (s : Text) → Lexes c s (lex c s)
  unfolding lex
  lex-Lexes c s =
      if_cases (Lexes c s) (u.is_space c) (λ e. (e, refl))
        λ space.
          if_cases (Lexes c s) (c == b'-' && next_is b'-' s) (λ e x. cc)
            λ _.
              if_cases (Lexes c s) (c == b'/' && next_is b'*' s) (λ e x. cc)
                λ _. if_cases (Lexes c s) (c == b'$') (dollar-Lexes c s) λ dollar.
                  if_cases (Lexes c s) (c == b'\'')
                    (λ e. string-Lexes c s (string_body s) e (string_body-Body s))
                    λ single.
                      if_cases (Lexes c s) (c == b'"')
                        (λ e. quoted-Lexes c s (identifier_body s) e (identifier_body-Value s))
                        λ double.
                          if_cases (Lexes c s) (is_identifier_start c)
                            (λ e.
                              span-Lexes TokenKind.identifier c is_identifier_part s
                                (e, span-All _ s))
                            λ start.
                              if_cases (Lexes c s) (u.is_digit c)
                                (λ e.
                                  span-Lexes TokenKind.number c is_number_part s (e, span-All _ s))
                                λ digit. (refl, (space, ground arith, start, digit))
