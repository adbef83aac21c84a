-- ===== src/Guard/Statement/Allowed.antt =====
-- `validateStatementTokens` accepts exactly the token lists of a declarative description.
use felsen_mcp_server_postgr.Base.{
  true, false, List, [], ◌∷◌, ◌++◌, ◌≡◌, ◌↔◌, inl, inr, refl, arith, text_eq, text_eq_iff, runes,
  OneOf, one_of→OneOf, OneOf→one_of, any, Bool-cases, All, Any, any→Any, Any→any,
}
use felsen_mcp_server_postgr.Strings.{Unicode, to_lower}
use felsen_mcp_server_postgr.Guard.Reason.{ok, bind-eq-ok}
use felsen_mcp_server_postgr.Guard.Token.{
  Token, TokenKind, contains_sequence, contains_keyword, is_keyword, operation_from_tokens,
}
use felsen_mcp_server_postgr.Guard.Token.Keywords.{Appears, contains_sequence_iff}
use felsen_mcp_server_postgr.Guard.Statement.{
  denied_functions, denied_words, locking_sequences, check_token, check_tokens, check_clauses,
  validate_statement_tokens,
}

module _ ⦃u : Unicode⦄ where
  -- What is asked of the token `t` between those before and after it.
  pub record IsAllowed (before : List Token) (t : Token) (after : List Token) : Type 0 where
    pub ends : t.kind ≡ TokenKind.symbol → t.text ≡ runes ";" → after ≡ []
    pub function : t.kind ≡ TokenKind.identifier → ¬ OneOf denied_functions (to_lower t.text)
    pub statement :
        t.kind ≡ TokenKind.identifier → t.quoted ≡ false → ¬ OneOf denied_words (to_lower t.text)
    pub upsert :
        t.kind ≡ TokenKind.identifier
        → t.quoted ≡ false
        → to_lower t.text ≡ runes "do"
        → Appears before ("on" ∷ "conflict" ∷ [])

  check_token-IsAllowed :
      (before : List Token) (t : Token) (after : List Token)
      → check_token before t after ≡ ok tt
      → IsAllowed before t after
  unfolding check_token
  check_token-IsAllowed before t after h = record {
    ends = λ k e. ground (arith, text_eq_iff t.text (runes ";"));
    function = λ k e. ground (arith, OneOf→one_of denied_functions (to_lower t.text) e);
    statement = λ k q e. ground (arith, OneOf→one_of denied_words (to_lower t.text) e);
    upsert = λ k q e.
        (contains_sequence_iff before "on" ("conflict" ∷ [])).0
          (ground (arith, text_eq_iff (to_lower t.text) (runes "do")));
  }

  IsAllowed-check_token :
      (before : List Token) (t : Token) (after : List Token)
      → IsAllowed before t after
      → check_token before t after ≡ ok tt
  unfolding check_token
  IsAllowed-check_token before t after a = ground (
    arith,
    a,
    text_eq_iff t.text (runes ";"),
    one_of→OneOf denied_functions (to_lower t.text),
    one_of→OneOf denied_words (to_lower t.text),
    text_eq_iff (to_lower t.text) (runes "do"),
    contains_sequence_iff before "on" ("conflict" ∷ []),
  )

  -- Every token is allowed, those before it being `before` and what this list has before it.
  abbrev pub EachIsAllowed : List Token → List Token → Type 0
  EachIsAllowed before [] = Unit
  EachIsAllowed before (t ∷ after) =
      IsAllowed before t after × EachIsAllowed (before ++ t ∷ []) after

  check_tokens-EachIsAllowed :
      (before ts : List Token) → check_tokens before ts ≡ ok tt → EachIsAllowed before ts
  unfolding check_tokens
  check_tokens-EachIsAllowed before [] h = tt
  check_tokens-EachIsAllowed before (t ∷ after) h =
      let (_, e, h') = bind-eq-ok (check_token before t after) _ h in
      (check_token-IsAllowed before t after e, check_tokens-EachIsAllowed _ after h')

  EachIsAllowed-check_tokens :
      (before ts : List Token) → EachIsAllowed before ts → check_tokens before ts ≡ ok tt
  unfolding check_tokens
  EachIsAllowed-check_tokens before [] h = refl
  EachIsAllowed-check_tokens before (t ∷ after) h =
      rw (IsAllowed-check_token before t after h.0) (EachIsAllowed-check_tokens _ after h.1)

  locking_iff :
      (ts : List Token)
      → (any (λ s. contains_sequence ts s) locking_sequences ≡ false)
        ↔ All (λ s. ¬ Appears ts s) locking_sequences
  unfolding locking_sequences
  locking_iff ts =
      let update = contains_sequence_iff ts "for" ("update" ∷ []) in
      let no_key = contains_sequence_iff ts "for" ("no" ∷ "key" ∷ "update" ∷ []) in
      let share = contains_sequence_iff ts "for" ("share" ∷ []) in
      let key_share = contains_sequence_iff ts "for" ("key" ∷ "share" ∷ []) in
      (
        λ h. (
          λ a. ground (arith, update.1 a),
          (
            λ a. ground (arith, no_key.1 a),
            (λ a. ground (arith, share.1 a), (λ a. ground (arith, key_share.1 a), tt)),
          ),
        ),
        λ h. ground (
          arith,
          λ (e : contains_sequence ts ("for" ∷ "update" ∷ []) ≡ true). h.0 (update.0 e),
          λ (e : contains_sequence ts ("for" ∷ "no" ∷ "key" ∷ "update" ∷ []) ≡ true).
              h.1.0 (no_key.0 e),
          λ (e : contains_sequence ts ("for" ∷ "share" ∷ []) ≡ true). h.1.1.0 (share.0 e),
          λ (e : contains_sequence ts ("for" ∷ "key" ∷ "share" ∷ []) ≡ true).
              h.1.1.1.0 (key_share.0 e),
        ),
      )

  -- A statement that the token checks let through.
  pub record IsStatement (ts : List Token) : Type 0 where
    pub each : EachIsAllowed [] ts
    pub unlocked : All (λ s. ¬ Appears ts s) locking_sequences
    pub no_into :
        operation_from_tokens ts ≡ runes "select" → ¬ Any (λ t. is_keyword t "into" ≡ true) ts

  check_clauses-ok :
      (ts : List Token)
      → All (λ s. ¬ Appears ts s) locking_sequences
      → (operation_from_tokens ts ≡ runes "select" → ¬ Any (λ t. is_keyword t "into" ≡ true) ts)
      → check_clauses ts ≡ ok tt
  unfolding check_clauses contains_keyword
  check_clauses-ok ts unlocked no_into =
      rw ((locking_iff ts).1 unlocked)
        (elim (Bool-cases (text_eq (operation_from_tokens ts) (runes "select"))) [
          | inl select ↦ elim (Bool-cases (any (λ t. is_keyword t "into") ts)) [
            | inl into ↦
                absurd (
                  no_into ((text_eq_iff _ _).0 select) (any→Any (λ t. is_keyword t "into") ts into))
            | inr into ↦ ground arith
          ]
          | inr select ↦ ground arith
        ])

  -- `validateStatementTokens` succeeds exactly on the tokens with none behind a semicolon, no
  -- denied function, no denied word that is not quoted, `do` only behind `on conflict`, no row
  -- lock and, in a `select`, no `into`.
  pub validate_statement_tokens_iff :
      (ts : List Token) → (validate_statement_tokens ts ≡ ok tt) ↔ IsStatement ts
  unfolding validate_statement_tokens check_clauses contains_keyword
  validate_statement_tokens_iff ts = (
    λ h.
        let (_, e, h') = bind-eq-ok (check_tokens [] ts) _ h in
        record {
          each = check_tokens-EachIsAllowed [] ts e;
          unlocked = (locking_iff ts).0 (ground arith);
          no_into = λ o a. ground (
            arith,
            text_eq_iff (operation_from_tokens ts) (runes "select"),
            Any→any (λ t. is_keyword t "into") ts a,
          );
        },
    λ s. rw (EachIsAllowed-check_tokens [] ts s.each) (check_clauses-ok ts s.unlocked s.no_into),
  )
