-- ===== src/Guard/Statement/Functions.antt =====
-- The schemas of qualified calls.
use felsen_mcp_server_postgr.Base.{
  ℕ, zero, suc, true, List, [], ◌∷◌, some, ◌≡◌, ◌⊎◌, inl, inr, refl, subst, arith, runes, get_elem?,
  Option-cases,
}
use felsen_mcp_server_postgr.Strings.{Unicode, equal_fold}
use felsen_mcp_server_postgr.Config.Policy.{ConnectionConfig, schema_allowed}
use felsen_mcp_server_postgr.Guard.Reason.{ok, bind-eq-ok}
use felsen_mcp_server_postgr.Guard.Token.{Token, TokenKind, text_at, identifier_value}
use felsen_mcp_server_postgr.Guard.Statement.{
  qualified_call, check_function_schema, validate_function_schemas,
}

-- At position `i` stands `a . f (`, with `a` and `f` identifiers, quoted or not.
pub record IsCallAt (ts : List Token) (i : ℕ) (a : Token) : Type 0 where
  pub schema : get_elem? ts i ≡ some a
  pub schema_kind : a.kind ≡ TokenKind.identifier
  pub dot : text_at ts (suc i) "." ≡ true
  pub function : Token
  pub name : get_elem? ts (suc (suc i)) ≡ some function
  pub name_kind : function.kind ≡ TokenKind.identifier
  pub opens : text_at ts (suc (suc (suc i))) "(" ≡ true

module _ ⦃u : Unicode⦄ where
  IsCallAt-qualified_call :
      (ts : List Token) (a : Token) → IsCallAt ts 0 a → qualified_call ts ≡ some a
  unfolding qualified_call text_at
  IsCallAt-qualified_call [] a h = ground (arith, h.schema)
  IsCallAt-qualified_call (x ∷ []) a h = ground (arith, h.dot)
  IsCallAt-qualified_call (x ∷ y ∷ []) a h = ground (arith, h.name)
  IsCallAt-qualified_call (x ∷ y ∷ z ∷ []) a h = ground (arith, h.opens)
  IsCallAt-qualified_call (x ∷ y ∷ z ∷ w ∷ ts) a h = ground arith

  IsCallAt-tail :
      (t : Token) (ts : List Token) (i : ℕ) (a : Token)
      → IsCallAt (t ∷ ts) (suc i) a
      → IsCallAt ts i a
  unfolding text_at
  IsCallAt-tail t ts i a h = record {
    schema = h.schema;
    schema_kind = h.schema_kind;
    dot = h.dot;
    function = h.function;
    name = h.name;
    name_kind = h.name_kind;
    opens = h.opens;
  }

  -- A call is allowed: its schema is `pg_catalog` up to case, or one of the connection.
  abbrev pub IsAllowedCall : ConnectionConfig → Token → Type 0
  IsAllowedCall cfg a =
      (equal_fold (identifier_value a) (runes "pg_catalog") ≡ true)
      ⊎ (schema_allowed cfg (identifier_value a) ≡ true)

  check_function_schema-IsAllowedCall :
      (cfg : ConnectionConfig) (a : Token)
      → check_function_schema cfg (some a) ≡ ok tt
      → IsAllowedCall cfg a
  check_function_schema-IsAllowedCall cfg a h = ground arith

  -- If the function schemas of a statement pass, every schema-qualified call in it, wherever it
  -- stands, is of `pg_catalog` or an allowed schema.
  pub validate_function_schemas-IsAllowedCall :
      (ts : List Token) (cfg : ConnectionConfig) (i : ℕ) (a : Token)
      → validate_function_schemas ts cfg ≡ ok tt
      → IsCallAt ts i a
      → IsAllowedCall cfg a
  unfolding validate_function_schemas
  validate_function_schemas-IsAllowedCall [] cfg i a h c = ground (arith, c.schema)
  validate_function_schemas-IsAllowedCall (t ∷ ts) cfg zero a h c =
      let (_, e, _) = bind-eq-ok (check_function_schema cfg (qualified_call (t ∷ ts))) _ h in
      check_function_schema-IsAllowedCall cfg a
        (subst (λ o. check_function_schema cfg o ≡ ok tt) (IsCallAt-qualified_call (t ∷ ts) a c) e)
  validate_function_schemas-IsAllowedCall (t ∷ ts) cfg (suc i) a h c =
      let (_, _, h') = bind-eq-ok (check_function_schema cfg (qualified_call (t ∷ ts))) _ h in
      validate_function_schemas-IsAllowedCall ts cfg i a h' (IsCallAt-tail t ts i a c)

  qualified_call-IsCallAt :
      (ts : List Token) (a : Token) → qualified_call ts ≡ some a → IsCallAt ts 0 a
  unfolding qualified_call text_at
  qualified_call-IsCallAt [] a h = cc
  qualified_call-IsCallAt (x ∷ []) a h = cc
  qualified_call-IsCallAt (x ∷ y ∷ []) a h = cc
  qualified_call-IsCallAt (x ∷ y ∷ z ∷ []) a h = cc
  qualified_call-IsCallAt (x ∷ y ∷ z ∷ w ∷ ts) a h = record {
    schema = ground arith;
    schema_kind = ground arith;
    dot = ground arith;
    function = z;
    name = refl;
    name_kind = ground arith;
    opens = ground arith;
  }

  IsCallAt-cons :
      (t : Token) (ts : List Token) (i : ℕ) (a : Token)
      → IsCallAt ts i a
      → IsCallAt (t ∷ ts) (suc i) a
  unfolding text_at
  IsCallAt-cons t ts i a h = record {
    schema = h.schema;
    schema_kind = h.schema_kind;
    dot = h.dot;
    function = h.function;
    name = h.name;
    name_kind = h.name_kind;
    opens = h.opens;
  }

  IsAllowedCall-check_function_schema :
      (cfg : ConnectionConfig) (a : Token)
      → IsAllowedCall cfg a
      → check_function_schema cfg (some a) ≡ ok tt
  IsAllowedCall-check_function_schema cfg a h = ground arith

  -- Calls that are all allowed pass.
  pub IsAllowedCall-validate_function_schemas :
      (ts : List Token) (cfg : ConnectionConfig)
      → ((i : ℕ) (a : Token) → IsCallAt ts i a → IsAllowedCall cfg a)
      → validate_function_schemas ts cfg ≡ ok tt
  unfolding validate_function_schemas
  IsAllowedCall-validate_function_schemas [] cfg f = refl
  IsAllowedCall-validate_function_schemas (t ∷ ts) cfg f =
      let rest =
        IsAllowedCall-validate_function_schemas ts cfg
          (λ i a c. f (suc i) a (IsCallAt-cons t ts i a c)) in
      elim (Option-cases (qualified_call (t ∷ ts))) [
        | inl e ↦ rw (e, rest)
        | inr (a, e) ↦ rw (
          e,
          IsAllowedCall-check_function_schema cfg a (f 0 a (qualified_call-IsCallAt (t ∷ ts) a e)),
          rest,
        )
      ]
