-- ===== src/Guard/Reason.antt =====
-- internal/sqlguard: the errors of the guard, one constructor for each message of the source,
-- and the result type of its fallible functions.
use felsen_mcp_server_postgr.Base.{ℕ, ◌≡◌, ◌≢◌, refl, ◌⊎◌, inl, inr, Text}

pub data Reason : Type 0 where
  -- `Validate`
  sql_required one_statement unsupported_mode : Reason
  invalid_syntax : Reason → Reason
  ddl_mode_statement ddl_disabled ddl_no_object : Reason
  read_only_select dml_only dml_no_target : Reason
  schema_not_allowed : Text → Reason
  dml_not_allowed : Text → Text → Text → Reason
  -- `tokenize` and `stripSQLComments`
  comments_not_allowed dollar_quoted : Reason
  unterminated_string unterminated_identifier unterminated_comment : Reason
  -- `validateStatementTokens` and `validateFunctionSchemas`
  word_not_allowed : Text → Reason
  row_locking select_into : Reason
  function_schema : Text → Reason
  -- `relationAtWithOptions` and `rejectRelationList`
  simple_identifiers modifiers invalid_qualified database_qualified wildcards : Reason
  relation_list : Reason
  -- `DetectDDLTablesWithError` and the parsers of DDL
  cascade unsupported_ddl : Reason
  temporary_tables create_only index_concurrently index_needs_on : Reason
  alter_only : Reason
  alter_forbidden : Text → Reason
  drop_only drop_concurrently drop_multiple truncate_only truncate_multiple : Reason
  -- `ValidateScript`
  script_required max_statements_positive not_allowed no_executable : Reason
  script_syntax : Reason → Reason
  script_statement : ℕ → Reason → Reason
  script_mode_refused : ℕ → Reason
  too_many_statements : ℕ → ℕ → Reason
  -- an error of the statement splitter of another build, and of the model only
  splitter : Text → Reason
  out_of_fuel : Reason

-- What a function of the guard returns beside its error: `err` is a non-nil `error`.
pub data Result {ℓ} (Value : Type ℓ) : Type ℓ where
  err : Reason → Result Value
  ok : Value → Result Value

-- `if err != nil { return nil, err }`, and the rest of the function.
infixl 5 ◌>>=◌
abbrev pub ◌>>=◌ {ℓ κ} :
    {V : Type ℓ} {W : Type κ} (first : Result V) (rest : V → Result W) → Result W
err reason >>= rest = err reason
ok v >>= rest = rest v

-- The same behind a check, which has no value.
infixl 5 ◌>>◌
abbrev pub ◌>>◌ {κ} : {W : Type κ} (check : Result (Unit {0})) (rest : Result W) → Result W
check >> rest = check >>= λ passed. rest

module _ {ℓ} {V : Type ℓ} where
  pub Result-cases :
      (r : Result V) → ((reason : Reason) × (r ≡ err reason)) ⊎ ((v : V) × (r ≡ ok v))
  Result-cases (err reason) = inl (reason, refl)
  Result-cases (ok v) = inr (v, refl)

  -- A value that comes out of a chain has a value in its first link.
  pub bind-eq-ok {κ} :
      {W : Type κ} (first : Result V) (rest : V → Result W) {w : W}
      → (first >>= rest) ≡ ok w
      → (v : V) × (first ≡ ok v) × (rest v ≡ ok w)
  bind-eq-ok (err reason) rest e = cc
  bind-eq-ok (ok v) rest e = (v, refl, e)

-- An error that neither part of a bind returns is not returned by the bind.
pub bind-ne-err {ℓ κ} :
    {A : Type ℓ} {B : Type κ} (e : Reason) (m : Result A) (f : A → Result B)
    → m ≢ err e
    → ((a : A) → m ≡ ok a → f a ≢ err e)
    → (m >>= f) ≢ err e
bind-ne-err e (ok a) f h k = k a refl
bind-ne-err e (err d) f h k = λ x. h (let d≡e : d ≡ e = cc in rw d≡e)
