-- ===== src/Config/Model.antt =====
-- internal/config/config.go: the types of the configuration, as it is decoded from its file. A
-- map is its entries; a row limit or a port is an `int`, which may be negative here.
use felsen_mcp_server_postgr.Base.{ℕ, ℤ, Bool, List, Option, Text, Entries}
use felsen_mcp_server_postgr.Authn.{ApiKeyConfig}
use felsen_mcp_server_postgr.Config.Policy.{DmlPolicy}
use felsen_mcp_server_postgr.Masking.{MaskingConfig}

pub record OauthConfig : Type 0 where
  pub enabled : Bool
  pub issuer : Text
  pub resource : Text
  pub signing_key : Text
  pub signing_key_env : Text
  pub username : Text
  pub username_env : Text
  pub password : Text
  pub password_env : Text
  pub principal : Text
  pub client_id : Text
  pub redirect_uris : List Text
  pub client_store_path : Text
  pub client_store_path_env : Text
  pub default_scopes : List Text
  pub base_scopes : List Text
  pub access_token_ttl : Text
  pub refresh_token_ttl : Text
  pub authorization_code_ttl : Text

pub record ServerConfig : Type 0 where
  pub host : Text
  pub port : ℤ
  pub endpoint : Text
  pub public_base_url : Text
  pub citation_signing_key : Text
  pub citation_signing_key_env : Text
  pub citation_ttl : Text
  pub query_timeout : Text
  pub max_rows : ℤ
  pub max_search_results : ℤ
  pub max_body_bytes : ℤ
  pub max_concurrent : ℤ
  pub json_response : Bool
  pub stateless : Bool
  pub session_timeout : Text
  pub read_header_timeout : Text
  pub read_timeout : Text
  pub write_timeout : Text
  pub idle_timeout : Text

-- `ConnectionConfig` with all its fields. The guard and the store read those of
-- `Config.Policy.ConnectionConfig`.
pub record ConnectionSettings : Type 0 where
  pub dsn : Text
  pub dsn_env : Text
  pub schemas : List Text
  pub max_rows : ℤ
  pub max_affected_rows : ℤ
  pub max_script_statements : ℤ
  pub max_script_affected_rows : ℤ
  pub max_script_bytes : ℤ
  pub min_conns : ℤ
  pub max_conns : ℤ
  pub query_timeout : Text
  pub masking : MaskingConfig
  pub dml_policies : List DmlPolicy
  pub ddl_enabled : Option Bool

pub record AuditConfig : Type 0 where
  pub destination : Text
  pub file : Text

-- `Config`; `api_keys` are those of its `AuthConfig`.
pub record Config : Type 0 where
  pub server : ServerConfig
  pub api_keys : List ApiKeyConfig
  pub oauth : OauthConfig
  pub connections : Entries ConnectionSettings
  pub audit : AuditConfig

-- What the source reads of a `url.URL`; `hostname` is the result of `Hostname()`.
pub record ParsedUrl : Type 0 where
  pub scheme : Text
  pub host : Text
  pub hostname : Text
  pub path : Text
  pub has_user : Bool
  pub raw_query : Text
  pub fragment : Text

-- The environment (`os.LookupEnv`) and the functions of Go's library: `strconv.ParseBool`,
-- `time.ParseDuration` as far as there is no error and the duration is positive, whether
-- `net.ParseIP` returns an address, `url.Parse`, `net.JoinHostPort` and the verb `%d`.
pub record System : Type 0 where
  pub lookup_env : Text → Option Text
  pub parse_bool : Text → Option Bool
  pub positive_duration : Text → Option ℕ
  pub is_ip : Text → Bool
  pub parse_url : Text → Option ParsedUrl
  pub join_host_port : Text → Text → Text
  pub decimal : ℤ → Text
