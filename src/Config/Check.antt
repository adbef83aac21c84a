-- ===== src/Config/Check.antt =====
-- internal/config/config.go: the errors of `Validate`, and its checks on the server and on the
-- OAuth server. A loop over a map takes its entries in order: which of several errors is reported
-- first differs from run to run in the source.
use felsen_mcp_server_postgr.Base.{
  ℕ, pos, is_positive, int_leb, ltb, ◌==◌, Bool, true, false, not, ◌&&◌, ◌||◌, List, [], ◌∷◌,
  Option, none, some, Text, text_eq, one_of, runes, any, all, if◌then◌else◌,
}
use felsen_mcp_server_postgr.Strings.{
  Unicode, trim_space, to_lower, equal_fold, contains_char, utf8_length,
}
use felsen_mcp_server_postgr.Guard.Statement.{is_nil}
use felsen_mcp_server_postgr.Guard.Tables.{is_empty}
use felsen_mcp_server_postgr.Authn.{ApiKeyConfig}
use felsen_mcp_server_postgr.Config.Model.{OauthConfig, ServerConfig, ParsedUrl, System}
use felsen_mcp_server_postgr.Oauth.Scopes.{has_prefix, is_localhost}

-- The errors, one for each message of the source.
pub data ConfigError : Type 0 where
  no_connections host_invalid port_range endpoint_unsafe public_url_missing public_url_invalid
        public_url_wildcard citation_ttl_invalid citation_key_unset citation_key_insecure
        citation_key_short server_limits no_keys :
      ConfigError
  origin_invalid origin_wildcard other_origin oauth_key_missing oauth_key_insecure oauth_key_short
        no_username no_password password_insecure client_id_invalid unknown_principal no_callback
        redirect_invalid oauth_scope_unsupported oauth_scope_not_granted oauth_ttl_invalid :
      ConfigError
  key_unnamed key_repeated key_without_token key_insecure hash_invalid hash_repeated
        key_without_scopes scope_unsupported key_without_connections connection_unknown :
      ConfigError
  connection_name_unsafe no_dsn connection_timeout_invalid connection_limits pool_invalid no_schemas
        schema_empty policy_incomplete policy_without_operations operation_unsupported :
      ConfigError
  server_timeout_invalid audit_file_missing audit_unsupported malformed_switch : ConfigError

-- The characters of a `ContainsAny`.
unfoldable pub is_blank_char : ℕ → Bool
is_blank_char c = c == b' ' || c == 9 || c == 13 || c == 10

unfoldable pub is_slash : ℕ → Bool
is_slash c = c == b'/' || c == 92

-- `strings.Contains(s, "..")`.
unfoldable pub has_two_dots : Text → Bool
has_two_dots [] = false
has_two_dots (c ∷ s) = let rest = has_two_dots s in has_prefix (runes "..") (c ∷ s) || rest

unfoldable pub has_duration : System → Text → Bool
has_duration sys value = elim (sys.positive_duration value) [ none ↦ false | some d ↦ true ]

-- The first error of the checks, which the source makes one after the other.
unfoldable pub first_error : List (Option ConfigError) → Option ConfigError
first_error [] = none
first_error (some e ∷ checks) = some e
first_error (none ∷ checks) = first_error checks

unfoldable pub refuse_if : Bool → ConfigError → Option ConfigError
refuse_if true e = some e
refuse_if false e = none

module _ ⦃u : Unicode⦄ where
  unfoldable pub insecure_secret : Text → Bool
  insecure_secret value =
      let lower = to_lower (trim_space value) in
      one_of
        ("change-me" ∷ "change-me-reader" ∷ "change-me-reader-token" ∷ "change-me-writer"
          ∷ "change-me-writer-token" ∷ "change-me-ddl" ∷ "change-me-ddl-token" ∷ "replace-me"
          ∷ "replace-with-a-real-token" ∷ "your-token-here" ∷ "secret" ∷ "password" ∷ [])
        lower
      || has_prefix (runes "change-me-") lower
      || has_prefix (runes "replace-with-") lower
      || has_prefix (runes "your-") lower

  unfoldable pub is_known_scope : Text → Bool
  is_known_scope scope = one_of ("read" ∷ "write" ∷ "ddl" ∷ "admin" ∷ []) scope

  unfoldable pub contains_fold : List Text → Text → Bool
  contains_fold [] wanted = false
  contains_fold (v ∷ values) wanted =
      let rest = contains_fold values wanted in
      if equal_fold (trim_space v) wanted then true else rest

  -- An origin: `validateOAuthOrigin`, and the same test on the public URL.
  unfoldable pub is_origin : ParsedUrl → Bool
  is_origin url =
      not (is_empty url.scheme)
      && not (is_empty url.host)
      && one_of ("http" ∷ "https" ∷ []) url.scheme
      && not url.has_user
      && (is_empty url.path || text_eq url.path (runes "/"))
      && is_empty url.raw_query
      && is_empty url.fragment

  unfoldable pub is_wildcard : ParsedUrl → Bool
  is_wildcard url =
      equal_fold url.hostname (runes "0.0.0.0") || equal_fold url.hostname (runes "::")

  unfoldable pub check_origin : Option ParsedUrl → ConfigError → ConfigError → Option ConfigError
  check_origin none invalid wildcard = some invalid
  check_origin (some url) invalid wildcard =
      if not (is_origin url) then some invalid else refuse_if (is_wildcard url) wildcard

  unfoldable pub validate_oauth_origin : System → Text → Option ConfigError
  validate_oauth_origin sys value =
      check_origin (sys.parse_url (trim_space value)) origin_invalid origin_wildcard

  unfoldable pub is_oauth_redirect : ParsedUrl → Bool
  is_oauth_redirect url =
      not (is_empty url.scheme)
      && not (is_empty url.host)
      && not url.has_user
      && is_empty url.raw_query
      && is_empty url.fragment
      && (text_eq url.scheme (runes "https")
          || text_eq url.scheme (runes "http") && is_localhost url.hostname)

  -- `validateOAuthRedirectURI`, whether it returns no error, and the loop over the URIs.
  unfoldable pub valid_oauth_redirect_uri : System → Text → Bool
  valid_oauth_redirect_uri sys value = elim (sys.parse_url (trim_space value)) [
    | none ↦ false
    | some url ↦ is_oauth_redirect url
  ]

  unfoldable pub same_origin : System → Text → Text → Bool
  same_origin sys left right = elim (sys.parse_url (trim_space left)) [
    | none ↦ false
    | some a ↦ elim (sys.parse_url (trim_space right)) [
      | none ↦ false
      | some b ↦ equal_fold a.scheme b.scheme && equal_fold a.host b.host
    ]
  ]

  -- The checks on the server, to its limits.
  unfoldable pub check_server : System → ServerConfig → Option ConfigError
  check_server sys s = first_error (
      refuse_if
        (is_empty (trim_space s.host)
          || any is_blank_char s.host
          || any is_slash s.host
          || contains_char b':' s.host && not (sys.is_ip s.host)
          || text_eq s.host (runes "*"))
        host_invalid
      ∷ refuse_if (not (is_positive s.port) || not (int_leb s.port (pos 65535))) port_range
      ∷ refuse_if
          (not (has_prefix (runes "/") s.endpoint)
            || has_prefix (runes "//") s.endpoint
            || any is_blank_char s.endpoint
            || has_two_dots s.endpoint
            || one_of ("/" ∷ "/healthz" ∷ "/readyz" ∷ "/sources" ∷ "/sse" ∷ []) s.endpoint)
          endpoint_unsafe
      ∷ refuse_if (is_empty (trim_space s.public_base_url)) public_url_missing
      ∷ check_origin (sys.parse_url s.public_base_url) public_url_invalid public_url_wildcard
      ∷ refuse_if (not (has_duration sys s.citation_ttl)) citation_ttl_invalid
      ∷ refuse_if
          (not (is_empty s.citation_signing_key_env)
            && is_empty (trim_space s.citation_signing_key))
          citation_key_unset
      ∷ refuse_if (not (is_empty s.citation_signing_key) && insecure_secret s.citation_signing_key)
          citation_key_insecure
      ∷ refuse_if
          (not (is_empty s.citation_signing_key) && ltb (utf8_length s.citation_signing_key) 32)
          citation_key_short
      ∷ refuse_if
          (not (
            is_positive s.max_rows
            && is_positive s.max_search_results
            && is_positive s.max_body_bytes
            && is_positive s.max_concurrent))
          server_limits
      ∷ [])

  -- `principalNames[name]`: of two keys with one name, the later one.
  unfoldable pub key_named : List ApiKeyConfig → Text → Option ApiKeyConfig
  key_named [] name = none
  key_named (key ∷ keys) name = elim (key_named keys name) [
    | some found ↦ some found
    | none ↦ if text_eq key.name name then some key else none
  ]

  unfoldable pub check_oauth_scopes : ApiKeyConfig → List Text → Option ConfigError
  check_oauth_scopes principal [] = none
  check_oauth_scopes principal (scope ∷ scopes) =
      let rest = check_oauth_scopes principal scopes in
      if not (is_known_scope scope)
      then some oauth_scope_unsupported
      else if not (contains_fold principal.scopes scope)
          && not (contains_fold principal.scopes (runes "admin"))
      then some oauth_scope_not_granted
      else rest

  -- The checks from the principal on.
  unfoldable pub check_principal : System → List ApiKeyConfig → OauthConfig → Option ConfigError
  check_principal sys keys o = elim (key_named keys o.principal) [
    | none ↦ some unknown_principal
    | some principal ↦ first_error (
        refuse_if (is_nil o.redirect_uris) no_callback
        ∷ refuse_if (not (all (valid_oauth_redirect_uri sys) o.redirect_uris)) redirect_invalid
        ∷ check_oauth_scopes principal o.default_scopes
        ∷ check_oauth_scopes principal o.base_scopes
        ∷ refuse_if
            (not (
              has_duration sys o.access_token_ttl
              && has_duration sys o.refresh_token_ttl
              && has_duration sys o.authorization_code_ttl))
            oauth_ttl_invalid
        ∷ [])
  ]

  unfoldable pub check_oauth : System → Text → List ApiKeyConfig → OauthConfig → Option ConfigError
  check_oauth sys url keys o = first_error (
      validate_oauth_origin sys o.issuer
      ∷ validate_oauth_origin sys o.resource
      ∷ refuse_if (not (same_origin sys url o.issuer) || not (same_origin sys url o.resource))
          other_origin
      ∷ refuse_if (is_empty (trim_space o.signing_key)) oauth_key_missing
      ∷ refuse_if (insecure_secret o.signing_key) oauth_key_insecure
      ∷ refuse_if (ltb (utf8_length o.signing_key) 32) oauth_key_short
      ∷ refuse_if (is_empty (trim_space o.username)) no_username
      ∷ refuse_if (is_empty (trim_space o.password)) no_password
      ∷ refuse_if (insecure_secret o.password) password_insecure
      ∷ refuse_if (is_empty (trim_space o.client_id) || any is_blank_char o.client_id)
          client_id_invalid
      ∷ check_principal sys keys o
      ∷ [])
