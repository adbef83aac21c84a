-- ===== src/Oauth/Tests.antt =====
-- Runs of the OAuth server, and its theorems at them.
use felsen_mcp_server_postgr.Base.{runes, text_eq, mem_text, one_of}
use felsen_mcp_server_postgr.Base.{find, delete, put, text_leb, insert_key, sorted_keys}
use felsen_mcp_server_postgr.Strings.{
  trim_left, trim_right, trim_char, split, goes_on, fields, join, contains_char, cut_prefix,
  trim_space, to_lower, equal_fold, utf8_length,
}
use felsen_mcp_server_postgr.Strings.Ascii.{ascii_space, ascii_letter, ascii_digit, ascii_lower}
use felsen_mcp_server_postgr.Authn.{
  is_hex_digit, clone_principal, principal_named, first_principal, key_with_hash, has_scope,
  can_use_connection, bearer_token, key_hash, new_key, new_keys, new_manager, authenticate_header,
  some_items, composite_authenticate, new_composite, http_middleware,
}
use felsen_mcp_server_postgr.Oauth.{random_token, must_random_token, configured_principal}
use felsen_mcp_server_postgr.Oauth.Scopes.{
  is_supported, is_separator, has_prefix, contains, normalize_from, normalize, parse_scopes,
  default_scopes, keep_scopes, scopes_supported, refused_scope, validate_scopes, is_localhost,
  is_redirect_url, valid_redirect_uri, is_approved, principal_connection_names,
  redirect_allowed_for_client, client_of, redirect_allowed,
}
use felsen_mcp_server_postgr.Oauth.Register.{
  all_valid_uris, all_grants, is_code_only, insert_client, saved_clients, save_clients,
  load_clients, checked_registration, add_client, register,
}
use felsen_mcp_server_postgr.Oauth.Authorize.{
  cleanup_codes, first_unregistered, unregistered_scope, redirect_oauth_error, redirect_with_code,
  asked_request, scope_error, request_error, validate_authorization_request, refuse_request,
  new_code, approve_request, authorize_values, authorize,
}
use felsen_mcp_server_postgr.Oauth.Issue.{
  sign_token, signed_claims, verify_token, verify_pkce, new_claims, new_tokens,
  issue_token_response, redeem_code, exchange_authorization_code, exchange_refresh_token,
  grant_tokens, token_form, token, usable_connections, claimed_connections, claimed_principal,
  authenticate_token,
}
use felsen_mcp_server_postgr.Oauth.Server.{
  configured_client, clients_in, stored_clients, new_with, new_provider, trim_slashes, paths,
  challenge, protected_resource_metadata, authorization_server_metadata, serve_http,
}
use felsen_mcp_server_postgr.Guard.Tables.{append_unique, split_table, normalize_table}
use felsen_mcp_server_postgr.Base.{
  ℕ, ◌+◌, ◌-◌, ◌==◌, true, false, List, [], ◌∷◌, ◌++◌, none, some, Option, ◌≡◌, ◌≢◌, refl, inl,
  arith, Text, All, Entries, ap, take, drop,
}
use felsen_mcp_server_postgr.Strings.Ascii.{ascii}
use felsen_mcp_server_postgr.Authn.{ApiKey, Principal}
use felsen_mcp_server_postgr.Config.Model.{OauthConfig}
use felsen_mcp_server_postgr.Config.Model.{ParsedUrl}
use felsen_mcp_server_postgr.Oauth.{
  Provider, Library, RegisteredClient, AuthorizationCode, TokenClaims, TokenResponse, Request,
  World, tokens, redirect, panicked, access_token_type, refresh_token_type,
}
use felsen_mcp_server_postgr.Oauth.Register.{ServerState}
use felsen_mcp_server_postgr.Oauth.Server.{made, missing}
use felsen_mcp_server_postgr.Oauth.Steps.{here, after}
use felsen_mcp_server_postgr.Oauth.Calls.{gives, presents, call_of, OneTime, serve_http-OneTime}
use felsen_mcp_server_postgr.Oauth.Once.{start, token_once}
use felsen_mcp_server_postgr.Oauth.Grants.{IsClientOf, IsRedeemed, IsRefreshed}
use felsen_mcp_server_postgr.Oauth.Grants.Endpoint.{token-code_iff, token-refresh_iff}
use felsen_mcp_server_postgr.Oauth.Sound.{IsSound}
use felsen_mcp_server_postgr.Oauth.Reachable.{serve_http-IsSound, token-redeems}
use felsen_mcp_server_postgr.Oauth.Redirects.{
  Reads, IsRegisteredUrl, authorize-IsRegisteredUrl, authorize-answers,
}
use felsen_mcp_server_postgr.Oauth.Tokens.{IsCoding, IsVerified, verify_token-sign_token}
use felsen_mcp_server_postgr.Oauth.Bearers.{IsLimitedBy, authenticate_token-IsLimitedBy}

open_all : Unit {0}
unfolding runes text_eq mem_text one_of find delete put text_leb insert_key sorted_keys trim_left
    trim_right trim_char split goes_on fields join contains_char cut_prefix trim_space to_lower
    equal_fold utf8_length ascii_space ascii_letter ascii_digit ascii_lower is_hex_digit
    clone_principal principal_named first_principal key_with_hash has_scope can_use_connection
    bearer_token key_hash new_key new_keys new_manager authenticate_header some_items
    composite_authenticate new_composite http_middleware random_token must_random_token
    configured_principal is_supported is_separator has_prefix contains normalize_from normalize
    parse_scopes default_scopes keep_scopes scopes_supported refused_scope validate_scopes
    is_localhost is_redirect_url valid_redirect_uri is_approved principal_connection_names
    redirect_allowed_for_client client_of redirect_allowed all_valid_uris all_grants is_code_only
    insert_client saved_clients save_clients load_clients checked_registration add_client register
    cleanup_codes first_unregistered unregistered_scope redirect_oauth_error redirect_with_code
    asked_request scope_error request_error validate_authorization_request refuse_request new_code
    approve_request authorize_values authorize sign_token signed_claims verify_token verify_pkce
    new_claims new_tokens issue_token_response redeem_code exchange_authorization_code
    exchange_refresh_token grant_tokens token_form token usable_connections claimed_connections
    claimed_principal authenticate_token configured_client clients_in stored_clients new_with
    new_provider trim_slashes paths challenge protected_resource_metadata
    authorization_server_metadata serve_http append_unique split_table normalize_table
open_all = tt

abbrev shift : Text → Text
shift [] = []
shift (c ∷ s) = (c + 47) ∷ shift s

abbrev unshift : Text → Text
unshift [] = []
unshift (c ∷ s) = (c - 47) ∷ unshift s

abbrev url : ParsedUrl
url = record {
  scheme = runes "https";
  host = runes "h";
  hostname = runes "h";
  path = [];
  has_user = false;
  raw_query = [];
  fragment = [];
}

-- A library whose tokens all hold the same claims.
abbrev lib_of : TokenClaims → Library
lib_of claims = record {
  parse_url = λ s. some url;
  encode64 = shift;
  decode64 = λ s. some (unshift s);
  sha256 = λ s. s;
  hmac = λ key s. key ++ s;
  header_json = runes "h";
  claims_json = λ c. runes "c";
  read_claims = λ s. some claims;
  quote = λ s. s;
}

abbrev claims_of : Text → TokenClaims
claims_of typ = record {
  issuer = runes "i";
  subject = runes "p";
  client_id = runes "app";
  audience = runes "r";
  scope = runes "read";
  connections = runes "*" ∷ [];
  issued_at = 0;
  expires_at = 60;
  typ = typ;
  id = [];
}

abbrev lib : Library
lib = lib_of (claims_of access_token_type)

abbrev refresh_lib : Library
refresh_lib = lib_of (claims_of refresh_token_type)

decode_shift : (s : Text) → unshift (shift s) ≡ s
decode_shift [] = refl
decode_shift (c ∷ s) = ground (arith, decode_shift s)

shift_no_dot : (s : Text) → All (λ c. (c == b'.') ≡ false) (shift s)
shift_no_dot [] = tt
shift_no_dot (c ∷ s) = (ground arith, shift_no_dot s)

lib-IsCoding : IsCoding lib
lib-IsCoding = record { decodes = λ s. ap some (decode_shift s); no_dot = shift_no_dot }

abbrev cfg : OauthConfig
cfg = record {
  enabled = true;
  issuer = runes "i";
  resource = runes "r";
  signing_key = runes "0123456789abcdef0123456789abcdef";
  signing_key_env = [];
  username = runes "u";
  username_env = [];
  password = runes "w";
  password_env = [];
  principal = runes "p";
  client_id = runes "app";
  redirect_uris = runes "https://h" ∷ [];
  client_store_path = [];
  client_store_path_env = [];
  default_scopes = [];
  base_scopes = runes "read" ∷ [];
  access_token_ttl = runes "1m";
  refresh_token_ttl = runes "1m";
  authorization_code_ttl = runes "1m";
}

abbrev someone : Principal
someone = record { name = runes "p"; scopes = runes "read" ∷ []; connections = runes "*" ∷ [] }

abbrev keys : List ApiKey
keys = record { hash = runes "x"; principal = someone } ∷ []

abbrev one_minute : Text → Option ℕ
one_minute s = some 60000000000

abbrev app : RegisteredClient
app = record {
  client_id = runes "app";
  client_name = runes "Configured ChatGPT client";
  redirect_uris = runes "https://h" ∷ [];
  token_endpoint_auth_method = runes "none";
  grant_types = runes "authorization_code" ∷ runes "refresh_token" ∷ [];
  response_types = runes "code" ∷ [];
  scopes = [];
  issued_at = 0;
}

abbrev fresh : Provider
fresh = record {
  cfg = cfg;
  principals = keys;
  clients = (runes "app", app) ∷ [];
  codes = [];
  access_ttl = 60000000000;
  refresh_ttl = 60000000000;
  code_ttl = 60000000000;
}

new_provider_test : new_provider one_minute cfg (some keys) missing ≡ made fresh
unfolding open_all
new_provider_test = refl

abbrev world : World
world = record {
  now = 0;
  random = some (runes "a");
  access_random = some (runes "b");
  refresh_random = some (runes "c");
  can_save = true;
}

-- The form with these fields.
abbrev value_of : Option Text → Text
value_of none = []
value_of (some v) = v

abbrev form_of : Entries Text → Text → Text
form_of m key = value_of (find m key)

abbrev login_form : Text → Text
login_form = form_of (
    (runes "client_id", runes "app")
    ∷ (runes "redirect_uri", runes "https://h")
    ∷ (runes "response_type", runes "code")
    ∷ (runes "code_challenge", shift (runes "v"))
    ∷ (runes "code_challenge_method", runes "S256")
    ∷ (runes "username", runes "u")
    ∷ (runes "password", runes "w")
    ∷ (runes "consent", runes "allow")
    ∷ [])

abbrev post : Text → (Text → Text) → Request
post path form = record {
  method = runes "POST";
  path = path;
  query = λ key. [];
  form = some form;
  registration = none;
  authorization = [];
}

abbrev login : Request
login = post (runes "/oauth/authorize") login_form

abbrev code : AuthorizationCode
code = record {
  client_id = runes "app";
  redirect_uri = runes "https://h";
  code_challenge = shift (runes "v");
  scopes = runes "read" ∷ [];
  principal = runes "p";
  expires_at = 60000000000;
}

-- The provider after a login.
abbrev holding : Provider
holding = record fresh { codes = (shift (runes "a"), code) ∷ [] }

authorize_test :
    authorize lib world fresh login
    ≡ (redirect url ((runes "code", shift (runes "a")) ∷ []), holding)
unfolding open_all
authorize_test = refl

abbrev start_state : ServerState
start_state = record { provider = fresh; store = none }

abbrev exchange_form : Text → Text
exchange_form = form_of (
    (runes "client_id", runes "app")
    ∷ (runes "grant_type", runes "authorization_code")
    ∷ (runes "code", shift (runes "a"))
    ∷ (runes "code_verifier", runes "v")
    ∷ [])

abbrev exchange : Request
exchange = post (runes "/oauth/token") exchange_form

abbrev issued : TokenResponse
issued = new_tokens lib world holding (runes "app") someone (runes "p") (runes "read" ∷ [])

token-code_example :
    (client : RegisteredClient) × IsClientOf lib world holding exchange exchange_form client
    × IsRedeemed lib world holding exchange_form client issued
unfolding open_all
token-code_example =
    (token-code_iff lib world holding exchange exchange_form issued refl refl).0 refl

abbrev held_state : ServerState
held_state = record { provider = holding; store = none }

token_once_example :
    (token lib world (token lib world holding exchange).1 exchange).0 ≢ tokens issued
unfolding open_all
token_once_example =
    token_once lib held_state
      (record held_state { provider = (token lib world holding exchange).1 }) world world exchange
      exchange exchange_form exchange_form issued issued refl refl refl refl refl refl start

abbrev logged_in : ServerState
logged_in = (serve_http lib world start_state login).1

-- The login gives a code, which buys tokens once.
login_call :
    call_of fresh login (serve_http lib world start_state login).0 ≡ gives (shift (runes "a"))
unfolding open_all
login_call = refl

exchange_call :
    call_of logged_in.provider exchange (serve_http lib world logged_in exchange).0
    ≡ presents (shift (runes "a")) true
unfolding open_all
exchange_call = refl

second_call :
    call_of fresh exchange
      (serve_http lib world (serve_http lib world logged_in exchange).1 exchange).0
    ≡ presents (shift (runes "a")) false
unfolding open_all
second_call = refl

serve_http-OneTime_example :
    OneTime world.now
      (call_of logged_in.provider exchange (serve_http lib world logged_in exchange).0)
      (find logged_in.provider.codes)
      (find (serve_http lib world logged_in exchange).1.provider.codes)
serve_http-OneTime_example =
    serve_http-OneTime lib world start_state logged_in exchange refl
      (after start_state world login here)

serve_http-IsSound_example : IsSound lib (serve_http lib world start_state login).1.provider
unfolding open_all
serve_http-IsSound_example =
    serve_http-IsSound one_minute lib cfg (some keys) missing start_state
      (serve_http lib world start_state login).1 refl (after start_state world login here)

holding-IsSound : IsSound lib holding
unfolding open_all
holding-IsSound =
    serve_http-IsSound one_minute lib cfg (some keys) missing start_state
      (serve_http lib world start_state login).1 refl (after start_state world login here)

token-redeems_example : (t : TokenResponse) × ((token lib world holding exchange).0 ≡ tokens t)
unfolding open_all
token-redeems_example =
    token-redeems lib world holding exchange exchange_form code holding-IsSound refl refl refl refl
      refl refl refl refl (inl refl) (inl refl) refl

authorize-IsRegisteredUrl_example :
    (values : Text → Text) × Reads lib world fresh login values
    × IsRegisteredUrl lib fresh values url
unfolding open_all
authorize-IsRegisteredUrl_example =
    authorize-IsRegisteredUrl lib world fresh login url ((runes "code", shift (runes "a")) ∷ [])
      refl

authorize-answers_example : (authorize lib world fresh login).0 ≢ panicked
authorize-answers_example = authorize-answers lib world fresh login

abbrev access_claims : TokenClaims
access_claims = claims_of access_token_type

verify_token-sign_token_example :
    verify_token lib fresh 0 (sign_token lib cfg.signing_key access_claims) access_token_type
    ≡ some access_claims
verify_token-sign_token_example =
    (verify_token-sign_token lib fresh 0 access_token_type access_claims lib-IsCoding refl).1
      (refl, refl, omega arith)

abbrev access_token : Text
access_token = sign_token lib cfg.signing_key access_claims

abbrev header : Text
header = runes "Bearer " ++ access_token

authenticate_token_example :
    (claims : TokenClaims) × (base : Principal) × (equal_fold
        (take 7 (trim_space header))
        (runes "Bearer ")
      ≡ true)
    × IsVerified lib fresh 0 (trim_space (drop 7 (trim_space header))) access_token_type claims
    × (principal_named keys claims.subject ≡ some base)
    × (claims.audience ≡ runes "r")
    × (someone.scopes ≡ parse_scopes claims.scope)
    × IsLimitedBy lib base someone
unfolding open_all
authenticate_token_example = authenticate_token-IsLimitedBy lib fresh 0 header someone refl

abbrev refresh_form : Text → Text
refresh_form = form_of (
    (runes "client_id", runes "app")
    ∷ (runes "grant_type", runes "refresh_token")
    ∷ (runes "refresh_token", sign_token refresh_lib cfg.signing_key (claims_of refresh_token_type))
    ∷ [])

abbrev refresh : Request
refresh = post (runes "/oauth/token") refresh_form

abbrev refreshed : TokenResponse
refreshed = new_tokens refresh_lib world fresh (runes "app") someone (runes "p") (runes "read" ∷ [])

token-refresh_example :
    (client : RegisteredClient) × IsClientOf refresh_lib world fresh refresh refresh_form client
    × IsRefreshed refresh_lib world fresh refresh_form client refreshed
unfolding open_all
token-refresh_example =
    (token-refresh_iff refresh_lib world fresh refresh refresh_form refreshed refl refl).0 refl
