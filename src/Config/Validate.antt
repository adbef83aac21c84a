-- ===== src/Config/Validate.antt =====
-- internal/config/config.go: `Validate` from the keys on, and `Load`. A loop over a map takes its
-- entries in order.
use felsen_mcp_server_postgr.Base.{
  to_nat, is_positive, is_negative, int_leb, ◌==◌, Bool, true, false, not, ◌&&◌, ◌||◌, List, [],
  ◌∷◌, Option, none, some, Text, text_eq, mem_text, one_of, runes, any, all, Entries, find,
  if◌then◌else◌,
}
use felsen_mcp_server_postgr.Strings.{Unicode, trim_space, to_lower, utf8_length}
use felsen_mcp_server_postgr.Guard.Statement.{is_nil}
use felsen_mcp_server_postgr.Guard.Tables.{is_empty}
use felsen_mcp_server_postgr.Authn.{ApiKeyConfig, is_hex_digit}
use felsen_mcp_server_postgr.Config.Policy.{DmlPolicy, ConnectionConfig}
use felsen_mcp_server_postgr.Config.Model.{
  ServerConfig, ConnectionSettings, AuditConfig, Config, System,
}
use felsen_mcp_server_postgr.Config.Defaults.{apply_defaults}
use felsen_mcp_server_postgr.Config.Check.{
  ConfigError, no_connections, no_keys, key_unnamed, key_repeated, key_without_token, key_insecure,
  hash_invalid, hash_repeated, key_without_scopes, scope_unsupported, key_without_connections,
  connection_unknown, connection_name_unsafe, no_dsn, connection_timeout_invalid, connection_limits,
  pool_invalid, no_schemas, schema_empty, policy_incomplete, policy_without_operations,
  operation_unsupported, server_timeout_invalid, audit_file_missing, audit_unsupported,
  malformed_switch, is_slash, has_duration, first_error, refuse_if, insecure_secret, is_known_scope,
  check_server, check_oauth,
}

-- What the guard and the store read of a connection.
unfoldable pub connection_config : ConnectionSettings → ConnectionConfig
connection_config c = record {
  schemas = c.schemas;
  max_rows = to_nat c.max_rows;
  max_affected_rows = to_nat c.max_affected_rows;
  max_script_statements = to_nat c.max_script_statements;
  max_script_affected_rows = to_nat c.max_script_affected_rows;
  max_script_bytes = to_nat c.max_script_bytes;
  dml_policies = c.dml_policies;
  ddl_enabled = c.ddl_enabled;
}

abbrev pub is_known : Entries ConnectionSettings → Text → Bool
is_known connections name = elim (find connections name) [ none ↦ false | some c ↦ true ]

module _ ⦃u : Unicode⦄ where
  -- The hash of a key as `Validate` compares it.
  unfoldable pub normal_hash : ApiKeyConfig → Text
  normal_hash key = to_lower (trim_space key.token_sha256)

  unfoldable pub check_hash : List Text → ApiKeyConfig → Option ConfigError
  check_hash hashes key =
      let hash = trim_space key.token_sha256 in
      if is_empty key.token_sha256
      then none
      else first_error (
          refuse_if (not (utf8_length hash == 64) || not (all is_hex_digit hash)) hash_invalid
          ∷ refuse_if (mem_text (normal_hash key) hashes) hash_repeated
          ∷ [])

  unfoldable pub connection_allowed : Entries ConnectionSettings → Text → Bool
  connection_allowed connections name = text_eq name (runes "*") || is_known connections name

  -- The checks on one key, behind those on its name.
  unfoldable pub check_key :
      Entries ConnectionSettings → List Text → List Text → ApiKeyConfig → Option ConfigError
  check_key connections names hashes key = first_error (
      refuse_if (is_empty (trim_space key.name)) key_unnamed
      ∷ refuse_if (mem_text key.name names) key_repeated
      ∷ refuse_if (is_empty (trim_space key.token) && is_empty (trim_space key.token_sha256))
          key_without_token
      ∷ refuse_if (not (is_empty key.token) && insecure_secret key.token) key_insecure
      ∷ check_hash hashes key
      ∷ refuse_if (is_nil key.scopes) key_without_scopes
      ∷ refuse_if (not (all (λ scope. is_known_scope (to_lower (trim_space scope))) key.scopes))
          scope_unsupported
      ∷ refuse_if (is_nil key.connections) key_without_connections
      ∷ refuse_if (not (all (connection_allowed connections) key.connections)) connection_unknown
      ∷ [])

  abbrev pub with_hash : ApiKeyConfig → List Text → List Text
  with_hash key hashes = if is_empty key.token_sha256 then hashes else normal_hash key ∷ hashes

  -- The loop over the keys, with the names and the hashes seen so far.
  unfoldable pub check_keys :
      Entries ConnectionSettings → List Text → List Text → List ApiKeyConfig → Option ConfigError
  check_keys connections names hashes [] = none
  check_keys connections names hashes (key ∷ keys) = first_error (
      check_key connections names hashes key
      ∷ check_keys connections (key.name ∷ names) (with_hash key hashes) keys
      ∷ [])

  unfoldable pub is_known_operation : Text → Bool
  is_known_operation operation =
      one_of ("insert" ∷ "update" ∷ "delete" ∷ "*" ∷ []) (to_lower (trim_space operation))

  unfoldable pub check_policy : DmlPolicy → Option ConfigError
  check_policy policy = first_error (
      refuse_if (is_empty (trim_space policy.schema) || is_empty (trim_space policy.table))
        policy_incomplete
      ∷ refuse_if (is_nil policy.operations) policy_without_operations
      ∷ refuse_if (not (all is_known_operation policy.operations)) operation_unsupported
      ∷ [])

  unfoldable pub check_policies : List DmlPolicy → Option ConfigError
  check_policies [] = none
  check_policies (policy ∷ policies) =
      first_error (check_policy policy ∷ check_policies policies ∷ [])

  unfoldable pub limits_positive : ConnectionSettings → Bool
  limits_positive c =
      is_positive c.max_rows
      && is_positive c.max_affected_rows
      && is_positive c.max_script_statements
      && is_positive c.max_script_affected_rows
      && is_positive c.max_script_bytes

  unfoldable pub check_connection : System → Text → ConnectionSettings → Option ConfigError
  check_connection sys name c = first_error (
      refuse_if (is_empty (trim_space name) || any is_slash name || one_of ("." ∷ ".." ∷ []) name)
        connection_name_unsafe
      ∷ refuse_if (is_empty (trim_space c.dsn)) no_dsn
      ∷ refuse_if (not (has_duration sys c.query_timeout)) connection_timeout_invalid
      ∷ refuse_if (not (limits_positive c)) connection_limits
      ∷ refuse_if
          (is_negative c.min_conns
            || not (is_positive c.max_conns)
            || not (int_leb c.min_conns c.max_conns))
          pool_invalid
      ∷ refuse_if (is_nil c.schemas) no_schemas
      ∷ refuse_if (any (λ schema. is_empty (trim_space schema)) c.schemas) schema_empty
      ∷ check_policies c.dml_policies
      ∷ [])

  unfoldable pub check_connections : System → Entries ConnectionSettings → Option ConfigError
  check_connections sys [] = none
  check_connections sys ((name, c) ∷ connections) =
      first_error (check_connection sys name c ∷ check_connections sys connections ∷ [])

  unfoldable pub check_timeouts : System → ServerConfig → Option ConfigError
  check_timeouts sys s =
      refuse_if
        (not (
          has_duration sys s.query_timeout
          && has_duration sys s.session_timeout
          && has_duration sys s.read_header_timeout
          && has_duration sys s.read_timeout
          && has_duration sys s.write_timeout
          && has_duration sys s.idle_timeout))
        server_timeout_invalid

  unfoldable pub check_audit : AuditConfig → Option ConfigError
  check_audit audit =
      let destination = to_lower audit.destination in
      if one_of ("" ∷ "stdout" ∷ []) destination
      then none
      else if text_eq destination (runes "file")
      then refuse_if (is_empty (trim_space audit.file)) audit_file_missing
      else some audit_unsupported

  unfoldable pub check_oauth_if_enabled : System → Config → Option ConfigError
  check_oauth_if_enabled sys cfg =
      if cfg.oauth.enabled
      then check_oauth sys cfg.server.public_base_url cfg.api_keys cfg.oauth
      else none

  unfoldable pub validate_config : System → Config → Option ConfigError
  validate_config sys cfg = first_error (
      refuse_if (is_nil cfg.connections) no_connections
      ∷ check_server sys cfg.server
      ∷ refuse_if (is_nil cfg.api_keys) no_keys
      ∷ check_oauth_if_enabled sys cfg
      ∷ check_keys cfg.connections [] [] cfg.api_keys
      ∷ check_connections sys cfg.connections
      ∷ check_timeouts sys cfg.server
      ∷ check_audit cfg.audit
      ∷ [])

  pub data Loaded : Type 0 where
    loaded : Config → Loaded
    invalid : ConfigError → Loaded

  -- `Load`, behind the reading and the decoding of the file.
  unfoldable pub load : System → Config → Loaded
  load sys decoded = elim (apply_defaults sys decoded) [
    | none ↦ invalid malformed_switch
    | some cfg ↦ elim (validate_config sys cfg) [ some e ↦ invalid e | none ↦ loaded cfg ]
  ]
