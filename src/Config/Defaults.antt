-- ===== src/Config/Defaults.antt =====
-- internal/config/config.go: the defaults and the environment, `applyDefaults` and what it calls.
use felsen_mcp_server_postgr.Base.{
  ℤ, pos, is_positive, ◌==◌, Bool, true, false, not, ◌&&◌, ◌||◌, List, [], ◌∷◌, ◌++◌, Option, none,
  some, Text, text_eq, runes, Entries, if◌then◌else◌,
}
use felsen_mcp_server_postgr.Strings.{Unicode, trim_space, equal_fold, fields}
use felsen_mcp_server_postgr.Guard.Statement.{is_nil}
use felsen_mcp_server_postgr.Guard.Tables.{is_empty}
use felsen_mcp_server_postgr.Authn.{ApiKeyConfig}
use felsen_mcp_server_postgr.Config.Policy.{DmlPolicy}
use felsen_mcp_server_postgr.Config.Model.{
  OauthConfig, ServerConfig, ConnectionSettings, Config, System,
}
use felsen_mcp_server_postgr.Oauth.Scopes.{is_separator, normalize}

-- `os.Getenv`.
abbrev or_nothing : Option Text → Text
or_nothing none = []
or_nothing (some value) = value

unfoldable pub getenv : System → Text → Text
getenv sys name = or_nothing (sys.lookup_env name)

-- `if value == "" { value = default }` and its kin for numbers and lists.
abbrev pub or_text : Text → Text → Text
or_text value default = if is_empty value then default else value

abbrev pub or_positive : ℤ → ℤ → ℤ
or_positive value default = if is_positive value then value else default

abbrev pub or_list {ℓ} : {A : Type ℓ} → List A → List A → List A
or_list value default = if is_nil value then default else value

-- A value of its own or the one of the variable that is named.
abbrev or_named : System → Text → Text → Text
or_named sys value name = if is_empty value && not (is_empty name) then getenv sys name else value

unfoldable pub default_dml_policies : List DmlPolicy
default_dml_policies =
    record {
      schema = runes "*";
      table = runes "*";
      operations = runes "insert" ∷ runes "update" ∷ runes "delete" ∷ [];
    }
    ∷ []

-- The lines on the server.
unfoldable pub default_public_url : System → Text → ℤ → Text → Text
default_public_url sys host port url =
    if is_empty url && not (text_eq host (runes "0.0.0.0")) && not (text_eq host (runes "::"))
    then runes "http://" ++ sys.join_host_port host (sys.decimal port)
    else url

abbrev is_zero : ℤ → Bool
is_zero (pos n) = n == 0
is_zero _ = false

unfoldable pub default_server : System → ServerConfig → ServerConfig
default_server sys s =
    let host = or_text s.host (runes "127.0.0.1") in
    let port = if is_zero s.port then pos 8080 else s.port in
    let url = or_text (getenv sys (runes "MCP_PUBLIC_BASE_URL")) s.public_base_url in
    record s {
      host = host;
      port = port;
      endpoint = or_text s.endpoint (runes "/mcp");
      public_base_url = default_public_url sys host port url;
      citation_signing_key = or_named sys s.citation_signing_key s.citation_signing_key_env;
      citation_ttl = or_text s.citation_ttl (runes "15m");
      query_timeout = or_text s.query_timeout (runes "10s");
      max_rows = or_positive s.max_rows (pos 100);
      max_search_results = or_positive s.max_search_results (pos 100);
      max_body_bytes = or_positive s.max_body_bytes (pos 8388608);
      max_concurrent = or_positive s.max_concurrent (pos 64);
      session_timeout = or_text s.session_timeout (runes "30m");
      read_header_timeout = or_text s.read_header_timeout (runes "10s");
      read_timeout = or_text s.read_timeout (runes "60s");
      write_timeout = or_text s.write_timeout (runes "60s");
      idle_timeout = or_text s.idle_timeout (runes "120s");
    }

-- The lines on one connection.
unfoldable pub default_connection : System → ServerConfig → ConnectionSettings → ConnectionSettings
default_connection sys server c = record c {
  dsn = or_named sys c.dsn c.dsn_env;
  schemas = or_list c.schemas (runes "public" ∷ []);
  max_rows = or_positive c.max_rows server.max_rows;
  max_affected_rows = or_positive c.max_affected_rows (pos 100);
  max_script_statements = or_positive c.max_script_statements (pos 10000);
  max_script_affected_rows = or_positive c.max_script_affected_rows (pos 10000);
  max_script_bytes = or_positive c.max_script_bytes (pos 8388608);
  max_conns = or_positive c.max_conns (pos 8);
  query_timeout = or_text c.query_timeout server.query_timeout;
  dml_policies = or_list c.dml_policies default_dml_policies;
  ddl_enabled = elim c.ddl_enabled [ none ↦ some true | some enabled ↦ some enabled ];
}

-- The loops over the connections.
unfoldable pub map_connections :
    (ConnectionSettings → ConnectionSettings)
    → Entries ConnectionSettings
    → Entries ConnectionSettings
map_connections f [] = []
map_connections f ((name, c) ∷ connections) = (name, f c) ∷ map_connections f connections

-- The loop over the keys.
unfoldable pub resolve_tokens : System → List ApiKeyConfig → List ApiKeyConfig
resolve_tokens sys [] = []
resolve_tokens sys (key ∷ keys) =
    record key { token = or_named sys key.token key.token_env } ∷ resolve_tokens sys keys

pub record EnvironmentPrincipal : Type 0 where
  pub name : Text
  pub token_env : Text
  pub scopes : List Text
  pub connections : List Text

unfoldable pub environment_principals : List EnvironmentPrincipal
environment_principals =
    record {
      name = runes "writer";
      token_env = runes "MCP_WRITER_API_KEY";
      scopes = runes "read" ∷ runes "write" ∷ [];
      connections = runes "*" ∷ [];
    }
    ∷ record {
      name = runes "ddl";
      token_env = runes "MCP_DDL_API_KEY";
      scopes = runes "read" ∷ runes "write" ∷ runes "ddl" ∷ [];
      connections = runes "*" ∷ [];
    }
    ∷ record {
      name = runes "admin";
      token_env = runes "MCP_ADMIN_API_KEY";
      scopes = runes "read" ∷ runes "write" ∷ runes "ddl" ∷ runes "admin" ∷ [];
      connections = runes "*" ∷ [];
    }
    ∷ []

-- `readEnvironmentBool`.
pub data EnvironmentBool : Type 0 where
  unset malformed : EnvironmentBool
  set_to : Bool → EnvironmentBool

unfoldable pub set_or_malformed : Option Bool → EnvironmentBool
set_or_malformed none = malformed
set_or_malformed (some value) = set_to value

-- `applyMutationEnvironment` for one connection.
unfoldable pub set_ddl : EnvironmentBool → ConnectionSettings → ConnectionSettings
set_ddl (set_to enabled) c = record c { ddl_enabled = some enabled }
set_ddl _ c = c

unfoldable pub set_dml : EnvironmentBool → ConnectionSettings → ConnectionSettings
set_dml (set_to true) c = record c { dml_policies = or_list c.dml_policies default_dml_policies }
set_dml (set_to false) c = record c { dml_policies = [] }
set_dml _ c = c

unfoldable pub is_malformed : EnvironmentBool → Bool
is_malformed malformed = true
is_malformed _ = false

module _ ⦃u : Unicode⦄ where
  unfoldable pub has_api_key_name : List ApiKeyConfig → Text → Bool
  has_api_key_name [] name = false
  has_api_key_name (key ∷ keys) name =
      let rest = has_api_key_name keys name in
      if equal_fold (trim_space key.name) name then true else rest

  -- `applyEnvironmentPrincipals`, whose loop appends to the keys that it looks at.
  unfoldable pub add_principals :
      System → List EnvironmentPrincipal → List ApiKeyConfig → List ApiKeyConfig
  add_principals sys [] keys = keys
  add_principals sys (role ∷ roles) keys =
      let token = trim_space (getenv sys role.token_env) in
      let skipped = add_principals sys roles keys in
      let added = add_principals sys roles (
        keys
        ++ record {
          name = role.name;
          token = token;
          token_env = [];
          token_sha256 = [];
          scopes = role.scopes;
          connections = role.connections;
        }
          ∷ []) in
      if is_empty token || has_api_key_name keys role.name then skipped else added

  unfoldable pub read_environment_bool : System → Text → EnvironmentBool
  read_environment_bool sys name = elim (sys.lookup_env name) [
    | none ↦ unset
    | some raw ↦
        if is_empty (trim_space raw)
        then unset
        else set_or_malformed (sys.parse_bool (trim_space raw))
  ]

  -- A trimmed variable, where it is not empty, before a value.
  abbrev override : System → Text → Text → Text
  override sys name value = or_text (trim_space (getenv sys name)) value

  -- `normalizeConfigList` is the same code as `normalize` of the OAuth server, and
  -- `splitConfigList` has its separators.
  unfoldable pub split_config_list : Text → List Text
  split_config_list value = normalize (fields is_separator value)

  unfoldable pub override_list : System → Text → List Text → List Text
  override_list sys name values =
      let value = trim_space (getenv sys name) in
      if is_empty value then values else split_config_list value

  unfoldable pub oauth_enabled : System → Bool → Bool
  oauth_enabled sys enabled = elim (read_environment_bool sys (runes "MCP_OAUTH_ENABLED")) [
    | set_to value ↦ value
    | _ ↦ enabled
  ]

  -- The variables of `applyOAuthDefaults`.
  unfoldable pub override_oauth : System → OauthConfig → OauthConfig
  override_oauth sys o =
      let callback = trim_space (getenv sys (runes "MCP_OAUTH_CALLBACK_URL")) in
      record o {
        enabled = oauth_enabled sys o.enabled;
        issuer = override sys (runes "MCP_OAUTH_ISSUER") o.issuer;
        resource = override sys (runes "MCP_OAUTH_RESOURCE") o.resource;
        signing_key = override sys (runes "MCP_OAUTH_SIGNING_KEY") o.signing_key;
        username = override sys (runes "MCP_OAUTH_USERNAME") o.username;
        password = or_text (getenv sys (runes "MCP_OAUTH_PASSWORD")) o.password;
        principal = override sys (runes "MCP_OAUTH_PRINCIPAL") o.principal;
        client_id = override sys (runes "MCP_OAUTH_CLIENT_ID") o.client_id;
        client_store_path = override sys (runes "MCP_OAUTH_CLIENT_STORE_PATH") o.client_store_path;
        redirect_uris = if is_empty callback then o.redirect_uris else callback ∷ [];
        default_scopes = override_list sys (runes "MCP_OAUTH_DEFAULT_SCOPES") o.default_scopes;
        base_scopes = override_list sys (runes "MCP_OAUTH_BASE_SCOPES") o.base_scopes;
      }

  abbrev first_name : List ApiKeyConfig → Text
  first_name [] = []
  first_name (key ∷ keys) = key.name

  -- The rest of `applyOAuthDefaults`, for the public URL and the keys.
  unfoldable pub complete_oauth : System → Text → List ApiKeyConfig → OauthConfig → OauthConfig
  complete_oauth sys url keys o = record o {
    signing_key = or_named sys o.signing_key o.signing_key_env;
    username = or_named sys o.username o.username_env;
    password = or_named sys o.password o.password_env;
    client_store_path = or_named sys o.client_store_path o.client_store_path_env;
    issuer = or_text o.issuer url;
    resource = or_text o.resource url;
    principal = or_text o.principal (first_name keys);
    client_id = or_text o.client_id (runes "felsen-chatgpt");
    default_scopes = normalize (or_list o.default_scopes (runes "read" ∷ []));
    base_scopes = normalize (or_list o.base_scopes (runes "read" ∷ []));
    access_token_ttl = or_text o.access_token_ttl (runes "1h");
    refresh_token_ttl = or_text o.refresh_token_ttl (runes "720h");
    authorization_code_ttl = or_text o.authorization_code_ttl (runes "5m");
  }

  unfoldable pub apply_oauth_defaults :
      System → Text → List ApiKeyConfig → OauthConfig → OauthConfig
  apply_oauth_defaults sys url keys o = complete_oauth sys url keys (override_oauth sys o)

  -- `applyMutationEnvironment`: none where a variable is neither true nor false.
  unfoldable pub apply_mutation_environment :
      System → Entries ConnectionSettings → Option (Entries ConnectionSettings)
  apply_mutation_environment sys connections =
      let ddl = read_environment_bool sys (runes "MCP_DDL_ENABLED") in
      let dml = read_environment_bool sys (runes "MCP_DML_ENABLED") in
      if is_malformed ddl || is_malformed dml
      then none
      else some (map_connections (λ c. set_dml dml (set_ddl ddl c)) connections)

  abbrev with_connections : Config → Option (Entries ConnectionSettings) → Option Config
  with_connections cfg none = none
  with_connections cfg (some connections) = some (record cfg { connections = connections })

  -- `applyDefaults`: none is its error.
  unfoldable pub apply_defaults : System → Config → Option Config
  apply_defaults sys cfg =
      let server = default_server sys cfg.server in
      let keys = add_principals sys environment_principals (resolve_tokens sys cfg.api_keys) in
      let oauth = apply_oauth_defaults sys server.public_base_url keys cfg.oauth in
      with_connections
        (record {
          server = server;
          api_keys = keys;
          oauth = oauth;
          connections = cfg.connections;
          audit = record cfg.audit { destination = or_text cfg.audit.destination (runes "stdout") };
        })
        (apply_mutation_environment sys
          (map_connections (default_connection sys server) cfg.connections))

-- `envFallback`: the configuration without a file. A field that is not set is the zero value.
unfoldable pub env_fallback : System → Config
env_fallback sys =
    let token =
      or_text (getenv sys (runes "MCP_API_KEY")) (getenv sys (runes "POSTGRES_MCP_API_KEY")) in
    record {
      server = record {
        host = runes "127.0.0.1";
        port = pos 8080;
        endpoint = runes "/mcp";
        public_base_url = getenv sys (runes "MCP_PUBLIC_BASE_URL");
        citation_signing_key = getenv sys (runes "MCP_CITATION_SIGNING_KEY");
        citation_signing_key_env = [];
        citation_ttl = [];
        query_timeout = [];
        max_rows = pos 0;
        max_search_results = pos 0;
        max_body_bytes = pos 0;
        max_concurrent = pos 0;
        json_response = false;
        stateless = false;
        session_timeout = [];
        read_header_timeout = [];
        read_timeout = [];
        write_timeout = [];
        idle_timeout = [];
      };
      api_keys =
          if is_empty token
          then []
          else record {
            name = runes "default";
            token = token;
            token_env = [];
            token_sha256 = [];
            scopes = runes "read" ∷ [];
            connections = runes "default" ∷ [];
          }
            ∷ [];
      oauth = record {
        enabled = false;
        issuer = [];
        resource = [];
        signing_key = [];
        signing_key_env = [];
        username = [];
        username_env = [];
        password = [];
        password_env = [];
        principal = [];
        client_id = [];
        redirect_uris = [];
        client_store_path = [];
        client_store_path_env = [];
        default_scopes = [];
        base_scopes = [];
        access_token_ttl = [];
        refresh_token_ttl = [];
        authorization_code_ttl = [];
      };
      connections =
          (
            runes "default",
            record {
              dsn = getenv sys (runes "DATABASE_URL");
              dsn_env = [];
              schemas = runes "public" ∷ [];
              max_rows = pos 0;
              max_affected_rows = pos 0;
              max_script_statements = pos 0;
              max_script_affected_rows = pos 0;
              max_script_bytes = pos 0;
              min_conns = pos 0;
              max_conns = pos 0;
              query_timeout = [];
              masking = record { enabled = none; sensitive_columns = []; allow_columns = [] };
              dml_policies = default_dml_policies;
              ddl_enabled = some true;
            },
          )
          ∷ [];
      audit = record { destination = runes "stdout"; file = [] };
    }
