-- ===== src/Guard/Statement.antt =====
-- internal/sqlguard/sqlguard.go: `validateStatementTokens` and `validateFunctionSchemas`.
pub mod Allowed
pub mod Functions
use felsen_mcp_server_postgr.Base.{
  ℕ, Bool, true, false, not, ◌&&◌, ◌||◌, List, [], ◌∷◌, ◌++◌, Option, none, some, String, Text,
  text_eq, runes, one_of, any, if◌then◌else◌,
}
use felsen_mcp_server_postgr.Strings.{Unicode, to_lower, equal_fold}
use felsen_mcp_server_postgr.Config.Policy.{ConnectionConfig, schema_allowed}
use felsen_mcp_server_postgr.Guard.Reason.{
  Result, ok, err, ◌>>=◌, ◌>>◌, one_statement, word_not_allowed, row_locking, select_into,
  function_schema,
}
use felsen_mcp_server_postgr.Guard.Token.{
  Token, is_identifier, is_symbol, contains_keyword, contains_sequence, operation_from_tokens,
  identifier_value,
}

-- The first `switch`: refused quoted or not.
unfoldable pub denied_functions : List String
denied_functions =
    "pg_sleep" ∷ "pg_terminate_backend" ∷ "pg_cancel_backend" ∷ "pg_notify" ∷ "pg_read_file"
    ∷ "pg_read_binary_file" ∷ "pg_ls_dir" ∷ "pg_ls_waldir" ∷ "pg_ls_logdir"
    ∷ "pg_ls_archive_statusdir" ∷ "pg_ls_tmpdir" ∷ "pg_stat_file" ∷ "pg_reload_conf"
    ∷ "pg_rotate_logfile" ∷ "pg_create_physical_replication_slot" ∷ "pg_drop_replication_slot"
    ∷ "pg_create_logical_replication_slot" ∷ "pg_logical_slot_get_changes"
    ∷ "pg_logical_slot_peek_changes" ∷ "dblink" ∷ "dblink_connect" ∷ "dblink_exec" ∷ "lo_import"
    ∷ "lo_export" ∷ "lo_open" ∷ "lo_put" ∷ "lo_unlink" ∷ "lo_create" ∷ "lo_truncate" ∷ "set_config"
    ∷ "current_setting" ∷ "nextval" ∷ "setval" ∷ "pg_advisory_lock" ∷ "pg_advisory_xact_lock"
    ∷ "pg_advisory_unlock" ∷ "pg_advisory_unlock_all" ∷ []

-- The second `switch`: refused where not quoted.
unfoldable pub denied_words : List String
denied_words =
    "begin" ∷ "commit" ∷ "rollback" ∷ "savepoint" ∷ "release" ∷ "copy" ∷ "listen" ∷ "notify"
    ∷ "vacuum" ∷ "analyze" ∷ "reset" ∷ "call" ∷ "prepare" ∷ "execute" ∷ "deallocate" ∷ "grant"
    ∷ "revoke" ∷ []

unfoldable pub locking_sequences : List (List String)
locking_sequences =
    ("for" ∷ "update" ∷ [])
    ∷ ("for" ∷ "no" ∷ "key" ∷ "update" ∷ [])
    ∷ ("for" ∷ "share" ∷ [])
    ∷ ("for" ∷ "key" ∷ "share" ∷ [])
    ∷ []

abbrev pub is_nil {ℓ} : {A : Type ℓ} → List A → Bool
is_nil [] = true
is_nil (x ∷ xs) = false

module _ ⦃u : Unicode⦄ where
  -- The body of the loop at `tok`, with `tokens[:i]` before it and `tokens[i+1:]` after it.
  unfoldable pub check_token : List Token → Token → List Token → Result (Unit {0})
  check_token before tok after =
      let word = to_lower tok.text in
      if is_symbol tok && text_eq tok.text (runes ";") && not (is_nil after)
      then err one_statement
      else if not (is_identifier tok)
      then ok tt
      else if one_of denied_functions word
      then err (word_not_allowed tok.text)
      else if tok.quoted
      then ok tt
      else if one_of denied_words word
      then err (word_not_allowed tok.text)
      else if text_eq word (runes "do") && not (contains_sequence before ("on" ∷ "conflict" ∷ []))
      then err (word_not_allowed tok.text)
      else ok tt

  unfoldable pub check_tokens : List Token → List Token → Result (Unit {0})
  check_tokens before [] = ok tt
  check_tokens before (tok ∷ after) = do
    check_token before tok after
    check_tokens (before ++ tok ∷ []) after

  -- What follows the loop.
  unfoldable pub check_clauses : List Token → Result (Unit {0})
  check_clauses tokens =
      if any (λ sequence. contains_sequence tokens sequence) locking_sequences
      then err row_locking
      else if text_eq (operation_from_tokens tokens) (runes "select")
          && contains_keyword tokens "into"
      then err select_into
      else ok tt

  unfoldable pub validate_statement_tokens : List Token → Result (Unit {0})
  validate_statement_tokens tokens = do check_tokens [] tokens; check_clauses tokens

  -- `tokens[i]` where `tokens[i:i+4]` is `schema . function (`.
  unfoldable pub qualified_call : List Token → Option Token
  qualified_call (a ∷ b ∷ c ∷ d ∷ rest) =
      if is_identifier a
        && text_eq b.text (runes ".")
        && is_identifier c
        && text_eq d.text (runes "(")
      then some a
      else none
  qualified_call _ = none

  abbrev pub check_function_schema : ConnectionConfig → Option Token → Result (Unit {0})
  check_function_schema cfg none = ok tt
  check_function_schema cfg (some tok) =
      let schema = identifier_value tok in
      if equal_fold schema (runes "pg_catalog") || schema_allowed cfg schema
      then ok tt
      else err (function_schema schema)

  unfoldable pub validate_function_schemas : List Token → ConnectionConfig → Result (Unit {0})
  validate_function_schemas [] cfg = ok tt
  validate_function_schemas (tok ∷ tokens) cfg = do
    check_function_schema cfg (qualified_call (tok ∷ tokens))
    validate_function_schemas tokens cfg
