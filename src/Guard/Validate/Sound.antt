-- ===== src/Guard/Validate/Sound.antt =====
-- The checks that all modes share: `Validate` goes on exactly with the tokens of a single
-- statement in which every token and every qualified call is allowed.
use felsen_mcp_server_postgr.Base.{
  ℕ, true, false, List, [], ◌∷◌, ◌≡◌, ◌≢◌, ◌↔◌, refl, sym, ◌∙◌, arith, Text, length, Bool-cases,
  ◌==◌, inl, inr,
}
use felsen_mcp_server_postgr.Strings.{Unicode}
use felsen_mcp_server_postgr.Config.Policy.{ConnectionConfig}
use felsen_mcp_server_postgr.Guard.Reason.{Result, ok, err, bind-eq-ok}
use felsen_mcp_server_postgr.Guard.Token.{Token}
use felsen_mcp_server_postgr.Guard.Tokenize.{tokenize}
use felsen_mcp_server_postgr.Guard.Statement.{
  is_nil, validate_statement_tokens, validate_function_schemas,
}
use felsen_mcp_server_postgr.Guard.Statement.Allowed.{IsStatement, validate_statement_tokens_iff}
use felsen_mcp_server_postgr.Guard.Statement.Functions.{
  IsCallAt, IsAllowedCall, validate_function_schemas-IsAllowedCall,
  IsAllowedCall-validate_function_schemas,
}
use felsen_mcp_server_postgr.Guard.Tables.{is_empty}
use felsen_mcp_server_postgr.Guard.Validate.{check_statement, check_split, checked_tokens}

module _ ⦃u : Unicode⦄ (split : Text → Result (List Text)) (sql : Text)
    (cfg : ConnectionConfig) where
  -- The splitter finds one statement, `tokens` are its tokens, and all of them are allowed.
  pub record IsChecked (tokens : List Token) : Type 0 where
    pub statement : Text
    pub single : split sql ≡ ok (statement ∷ [])
    pub tokenized : tokenize sql ≡ ok tokens
    pub full : tokens ≢ []
    pub allowed : IsStatement tokens
    pub calls : (i : ℕ) (a : Token) → IsCallAt tokens i a → IsAllowedCall cfg a

  one-statement : (ss : List Text) → (length ss == 1) ≡ true → (s : Text) × (ss ≡ s ∷ [])
  one-statement [] h = ground arith
  one-statement (s ∷ []) h = (s, refl)
  one-statement (s ∷ t ∷ ss) h = ground arith

  check_statement-ok :
      (ts tokens : List Token)
      → check_statement cfg ts ≡ ok tokens
      → (ts ≡ tokens)
        × (is_nil ts ≡ false)
        × (validate_statement_tokens ts ≡ ok tt)
        × (validate_function_schemas ts cfg ≡ ok tt)
  unfolding check_statement
  check_statement-ok ts tokens h = elim (Bool-cases (is_nil ts)) [
    | inl e ↦ ground (arith, e)
    | inr e ↦
        let (_, s, h') = bind-eq-ok (validate_statement_tokens ts) _ (rw e at h) in
        let (_, f, h'') = bind-eq-ok (validate_function_schemas ts cfg) _ h' in
        (ground arith, e, s, f)
  ]

  check_split-IsChecked :
      (r : Result (List Text)) (tokens : List Token)
      → r ≡ split sql
      → check_split r sql cfg ≡ ok tokens
      → IsChecked tokens
  unfolding check_split
  check_split-IsChecked (err e) tokens s h = cc
  check_split-IsChecked (ok ss) tokens s h = elim (Bool-cases (length ss == 1)) [
    | inr many ↦ ground (arith, many)
    | inl one ↦
        let (statement, e) = one-statement ss one in
        let (ts, t, h') = bind-eq-ok (tokenize sql) (check_statement cfg) (rw one at h) in
        let (same, full, v, f) = check_statement-ok ts tokens h' in
        record {
          statement = statement;
          single = sym s ∙ rw e refl;
          tokenized = t ∙ rw same refl;
          full = λ nil. ground (arith, same, nil, full);
          allowed = (validate_statement_tokens_iff tokens).0 (rw same at v);
          calls = λ i a. validate_function_schemas-IsAllowedCall tokens cfg i a (rw same at f);
        }
  ]

  tokens-full : (ts : List Token) → ts ≢ [] → is_nil ts ≡ false
  tokens-full [] n = absurd (n refl)
  tokens-full (t ∷ ts) n = refl

  -- An empty text has no tokens.
  sql-full : (s : Text) (ts : List Token) → tokenize s ≡ ok ts → ts ≢ [] → is_empty s ≡ false
  unfolding tokenize
  sql-full [] ts t n = absurd (n cc)
  sql-full (c ∷ s) ts t n = refl

  IsChecked-checked_tokens :
      (tokens : List Token) → IsChecked tokens → checked_tokens split sql cfg ≡ ok tokens
  unfolding checked_tokens
  IsChecked-checked_tokens tokens c = rw (
    sql-full sql tokens c.tokenized c.full,
    c.single,
    c.tokenized,
    tokens-full tokens c.full,
    (validate_statement_tokens_iff tokens).1 c.allowed,
    IsAllowedCall-validate_function_schemas tokens cfg c.calls,
  )

  -- `Validate` goes on with these tokens exactly if the splitter finds one statement, they are the
  -- tokens of the text and not none, each of them is allowed, and every qualified call is of an
  -- allowed schema.
  pub checked_tokens_iff :
      (tokens : List Token) → (checked_tokens split sql cfg ≡ ok tokens) ↔ IsChecked tokens
  unfolding checked_tokens
  checked_tokens_iff tokens = (
    λ h. check_split-IsChecked (split sql) tokens refl (ground arith),
    IsChecked-checked_tokens tokens,
  )
