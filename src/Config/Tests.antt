-- ===== src/Config/Tests.antt =====
-- Runs of the loading of the configuration, and its theorems at them.
use felsen_mcp_server_postgr.Base.{runes, text_eq, mem_text, one_of}
use felsen_mcp_server_postgr.Base.{find, delete, put, text_leb, insert_key, sorted_keys}
use felsen_mcp_server_postgr.Base.{is_positive, is_negative, int_leb, to_nat}
use felsen_mcp_server_postgr.Strings.{
  trim_left, trim_right, trim_char, split, goes_on, fields, join, contains_char, cut_prefix,
  trim_space, to_lower, equal_fold, utf8_length,
}
use felsen_mcp_server_postgr.Strings.Ascii.{ascii_space, ascii_letter, ascii_digit, ascii_lower}
use felsen_mcp_server_postgr.Authn.{
  is_hex_digit, clone_principal, principal_named, first_principal, key_with_hash, has_scope,
  can_use_connection, bearer_token, key_hash, new_key, new_keys, new_manager, authenticate_header,
  some_items, composite_authenticate, new_composite, http_middleware,
}
use felsen_mcp_server_postgr.Oauth.Scopes.{
  is_supported, is_separator, has_prefix, contains, normalize_from, normalize, parse_scopes,
  default_scopes, keep_scopes, scopes_supported, refused_scope, validate_scopes, is_localhost,
  is_redirect_url, valid_redirect_uri, is_approved, principal_connection_names,
  redirect_allowed_for_client, client_of, redirect_allowed,
}
use felsen_mcp_server_postgr.Oauth.Register.{
  all_valid_uris, all_grants, is_code_only, insert_client, saved_clients, save_clients,
  load_clients, checked_registration, add_client, register,
}
use felsen_mcp_server_postgr.Oauth.Server.{
  configured_client, clients_in, stored_clients, new_with, new_provider, trim_slashes, paths,
  challenge, protected_resource_metadata, authorization_server_metadata, serve_http,
}
use felsen_mcp_server_postgr.Guard.Tables.{append_unique, split_table, normalize_table}
use felsen_mcp_server_postgr.Config.Policy.{
  matches_name, schema_allowed, ddl_allowed, policy_allows, dml_allowed,
}
use felsen_mcp_server_postgr.Config.Defaults.{
  getenv, default_dml_policies, default_public_url, default_server, default_connection,
  map_connections, resolve_tokens, environment_principals, set_or_malformed, set_ddl, set_dml,
  is_malformed, has_api_key_name, add_principals, read_environment_bool, split_config_list,
  override_list, oauth_enabled, override_oauth, complete_oauth, apply_oauth_defaults,
  apply_mutation_environment, apply_defaults, env_fallback,
}
use felsen_mcp_server_postgr.Config.Check.{
  is_blank_char, is_slash, has_two_dots, has_duration, first_error, refuse_if, insecure_secret,
  is_known_scope, contains_fold, is_origin, is_wildcard, check_origin, validate_oauth_origin,
  is_oauth_redirect, valid_oauth_redirect_uri, same_origin, check_server, key_named,
  check_oauth_scopes, check_principal, check_oauth,
}
use felsen_mcp_server_postgr.Config.Validate.{
  connection_config, normal_hash, check_hash, connection_allowed, check_key, check_keys,
  is_known_operation, check_policy, check_policies, limits_positive, check_connection,
  check_connections, check_timeouts, check_audit, check_oauth_if_enabled, validate_config, load,
}
use felsen_mcp_server_postgr.Base.{
  pos, Bool, true, false, [], ◌∷◌, none, some, Option, ◌≡◌, refl, arith, Text, if◌then◌else◌,
}
use felsen_mcp_server_postgr.Strings.Ascii.{ascii}
use felsen_mcp_server_postgr.Authn.{ApiKeyConfig, Manager, accepted}
use felsen_mcp_server_postgr.Config.Model.{Config, ConnectionSettings, ParsedUrl, System}
use felsen_mcp_server_postgr.Config.Validate.{Loaded, loaded, invalid}
use felsen_mcp_server_postgr.Config.Switches.{load-dml_off}
use felsen_mcp_server_postgr.Config.Limits.{HasServerLimits, HasLimits, load-HasLimits}
use felsen_mcp_server_postgr.Config.Keys.{KeepsHex, load-new_manager}
use felsen_mcp_server_postgr.Config.Start.{HasNoScheme, load-new_provider}
use felsen_mcp_server_postgr.Oauth.{Provider}
use felsen_mcp_server_postgr.Oauth.Server.{made, missing}

open_all : Unit {0}
unfolding runes text_eq mem_text one_of find delete put text_leb insert_key sorted_keys is_positive
    is_negative int_leb to_nat trim_left trim_right trim_char split goes_on fields join
    contains_char cut_prefix trim_space to_lower equal_fold utf8_length ascii_space ascii_letter
    ascii_digit ascii_lower is_hex_digit clone_principal principal_named first_principal
    key_with_hash has_scope can_use_connection bearer_token key_hash new_key new_keys new_manager
    authenticate_header some_items composite_authenticate new_composite http_middleware is_supported
    is_separator has_prefix contains normalize_from normalize parse_scopes default_scopes
    keep_scopes scopes_supported refused_scope validate_scopes is_localhost is_redirect_url
    valid_redirect_uri is_approved principal_connection_names redirect_allowed_for_client client_of
    redirect_allowed all_valid_uris all_grants is_code_only insert_client saved_clients save_clients
    load_clients checked_registration add_client register configured_client clients_in
    stored_clients new_with new_provider trim_slashes paths challenge protected_resource_metadata
    authorization_server_metadata serve_http append_unique split_table normalize_table matches_name
    schema_allowed ddl_allowed policy_allows dml_allowed getenv default_dml_policies
    default_public_url default_server default_connection map_connections resolve_tokens
    environment_principals set_or_malformed set_ddl set_dml is_malformed has_api_key_name
    add_principals read_environment_bool split_config_list override_list oauth_enabled
    override_oauth complete_oauth apply_oauth_defaults apply_mutation_environment apply_defaults
    env_fallback is_blank_char is_slash has_two_dots has_duration first_error refuse_if
    insecure_secret is_known_scope contains_fold is_origin is_wildcard check_origin
    validate_oauth_origin is_oauth_redirect valid_oauth_redirect_uri same_origin check_server
    key_named check_oauth_scopes check_principal check_oauth connection_config normal_hash
    check_hash connection_allowed check_key check_keys is_known_operation check_policy
    check_policies limits_positive check_connection check_connections check_timeouts check_audit
    check_oauth_if_enabled validate_config load
open_all = tt

abbrev url : ParsedUrl
url = record {
  scheme = runes "https";
  host = runes "h";
  hostname = runes "h";
  path = [];
  has_user = false;
  raw_query = [];
  fragment = [];
}

abbrev url_of : Text → Option ParsedUrl
url_of [] = none
url_of (c ∷ s) = some url

abbrev bool_of : Text → Option Bool
bool_of s =
    if text_eq s (runes "true")
    then some true
    else if text_eq s (runes "false")
    then some false
    else none

abbrev sys : System
sys = record {
  lookup_env = find (
      (runes "MCP_DML_ENABLED", runes "false")
      ∷ (runes "MCP_DDL_ENABLED", runes " true ")
      ∷ (runes "DATABASE_URL", runes "dsn")
      ∷ []);
  parse_bool = bool_of;
  positive_duration = λ s. some 1;
  is_ip = λ s. false;
  parse_url = url_of;
  join_host_port = λ host port. host;
  decimal = λ n. [];
}

abbrev key : ApiKeyConfig
key = record {
  name = runes "reader";
  token = runes "tok";
  token_env = [];
  token_sha256 = [];
  scopes = runes "read" ∷ [];
  connections = runes "default" ∷ [];
}

abbrev decoded : Config
decoded = record (env_fallback sys) {
  api_keys = key ∷ [];
  oauth = record (env_fallback sys).oauth {
    enabled = true;
    signing_key = runes "0123456789abcdef0123456789abcdef";
    username = runes "u";
    password = runes "w";
    redirect_uris = runes "https://h" ∷ [];
  };
}

abbrev config_of : Loaded → Config
config_of (loaded cfg) = cfg
config_of (invalid e) = decoded

-- What `Load` makes of it.
abbrev cfg : Config
cfg = config_of (load sys decoded)

abbrev default : ConnectionSettings
default = record {
  dsn = runes "dsn";
  dsn_env = [];
  schemas = runes "public" ∷ [];
  max_rows = pos 100;
  max_affected_rows = pos 100;
  max_script_statements = pos 10000;
  max_script_affected_rows = pos 10000;
  max_script_bytes = pos 8388608;
  min_conns = pos 0;
  max_conns = pos 8;
  query_timeout = runes "10s";
  masking = record { enabled = none; sensitive_columns = []; allow_columns = [] };
  dml_policies = [];
  ddl_enabled = some true;
}

load_test : find cfg.connections (runes "default") ≡ some default
unfolding open_all
load_test = refl

load-dml_off_example :
    dml_allowed (connection_config default) (runes "public") (runes "t") (runes "delete") ≡ false
unfolding open_all
load-dml_off_example =
    load-dml_off sys decoded cfg (runes "default") (runes "public") (runes "t") (runes "delete")
      default refl refl refl

load-HasLimits_example : HasServerLimits cfg.server × HasLimits default
unfolding open_all
load-HasLimits_example = load-HasLimits sys decoded cfg (runes "default") default refl refl

ascii-KeepsHex : KeepsHex ascii
unfolding is_hex_digit ascii_lower
ascii-KeepsHex c h = ground arith

abbrev same_text : Text → Text
same_text s = s

load-new_manager_example : (m : Manager) × (new_manager same_text cfg.api_keys ≡ accepted m)
unfolding open_all
load-new_manager_example = load-new_manager ascii-KeepsHex same_text sys decoded cfg refl

sys-HasNoScheme : HasNoScheme sys
sys-HasNoScheme url e = cc

abbrev manager : Manager
manager = record {
  keys =
      record {
        hash = runes "tok";
        principal = record {
          name = runes "reader";
          scopes = runes "read" ∷ [];
          connections = runes "default" ∷ [];
        };
      }
      ∷ [];
}

load-new_provider_example :
    (p : Provider) × (new_provider sys.positive_duration cfg.oauth (some manager.keys) missing
      ≡ made p)
unfolding open_all
load-new_provider_example =
    load-new_provider sys same_text decoded cfg manager missing [] refl refl refl refl refl
      sys-HasNoScheme
