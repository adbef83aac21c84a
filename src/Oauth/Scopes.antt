-- ===== src/Oauth/Scopes.antt =====
-- internal/oauth/oauth.go: scopes, redirect URIs and the tests on a client.
use felsen_mcp_server_postgr.Base.{
  ℕ, ◌==◌, Bool, true, false, not, ◌&&◌, ◌||◌, List, [], ◌∷◌, ◌++◌, Option, none, some, Text,
  text_eq, mem_text, one_of, runes, if◌then◌else◌, find, sorted_keys,
}
use felsen_mcp_server_postgr.Strings.{Unicode, trim_space, to_lower, fields, cut_prefix}
use felsen_mcp_server_postgr.Authn.{Principal, has_scope}
use felsen_mcp_server_postgr.Config.Model.{OauthConfig}
use felsen_mcp_server_postgr.Guard.Tables.{is_empty}
use felsen_mcp_server_postgr.Config.Model.{ParsedUrl}
use felsen_mcp_server_postgr.Oauth.{Provider, Library, RegisteredClient}

unfoldable pub is_supported : Text → Bool
is_supported scope = one_of ("read" ∷ "write" ∷ "ddl" ∷ "admin" ∷ []) scope

-- The separators of `parseScopes`.
unfoldable pub is_separator : ℕ → Bool
is_separator c = c == b' ' || c == b',' || c == 10 || c == 13 || c == 9

unfoldable pub has_prefix : Text → Text → Bool
has_prefix prefix s = elim (cut_prefix prefix s) [ none ↦ false | some rest ↦ true ]

-- `contains`.
unfoldable pub contains : List Text → Text → Bool
contains [] wanted = false
contains (v ∷ values) wanted =
    let rest = contains values wanted in if text_eq v wanted then true else rest

module _ ⦃u : Unicode⦄ where
  -- The loop of `normalize`, with the values seen so far.
  unfoldable pub normalize_from : List Text → List Text → List Text
  normalize_from seen [] = []
  normalize_from seen (v ∷ values) =
      let value = to_lower (trim_space v) in
      let skipped = normalize_from seen values in
      let kept = normalize_from (value ∷ seen) values in
      if is_empty value || mem_text value seen then skipped else value ∷ kept

  unfoldable pub normalize : List Text → List Text
  normalize values = normalize_from [] values

  unfoldable pub parse_scopes : Text → List Text
  parse_scopes value = normalize (fields is_separator value)

  unfoldable pub default_scopes : OauthConfig → List Text
  default_scopes cfg = normalize (cfg.base_scopes ++ cfg.default_scopes)

  -- The keys of `supportedScopes` that the principal has, sorted: the list here is in order.
  unfoldable pub keep_scopes : Principal → List Text → List Text
  keep_scopes principal [] = []
  keep_scopes principal (scope ∷ scopes) =
      let rest = keep_scopes principal scopes in
      if has_scope principal scope then scope ∷ rest else rest

  unfoldable pub scopes_supported : Principal → List Text
  scopes_supported principal =
      keep_scopes principal (runes "admin" ∷ runes "ddl" ∷ runes "read" ∷ runes "write" ∷ [])

  -- `validateScopes`: the error, or none. First its loop.
  unfoldable pub refused_scope : Library → List Text → Principal → Option Text
  refused_scope lib [] principal = none
  refused_scope lib (scope ∷ scopes) principal =
      let rest = refused_scope lib scopes principal in
      if not (is_supported scope)
      then some (runes "unsupported OAuth scope " ++ lib.quote scope)
      else if not (has_scope principal scope)
      then some (runes "OAuth principal is not allowed the " ++ lib.quote scope ++ runes " scope")
      else rest

  unfoldable pub validate_scopes : Library → List Text → Principal → Option Text
  validate_scopes lib [] principal = some (runes "at least one OAuth scope is required")
  validate_scopes lib (scope ∷ scopes) principal = refused_scope lib (scope ∷ scopes) principal

  unfoldable pub is_localhost : Text → Bool
  is_localhost name =
      let host = to_lower (trim_space name) in
      one_of ("localhost" ∷ "127.0.0.1" ∷ "::1" ∷ []) host || has_prefix (runes "127.") host

  unfoldable pub is_redirect_url : ParsedUrl → Bool
  is_redirect_url url =
      not (is_empty url.scheme)
      && not (is_empty url.host)
      && not url.has_user
      && is_empty url.raw_query
      && is_empty url.fragment
      && (text_eq url.scheme (runes "https")
          || text_eq url.scheme (runes "http") && is_localhost url.hostname)

  -- `validateRedirectURI`: whether it returns no error.
  unfoldable pub valid_redirect_uri : Library → Text → Bool
  valid_redirect_uri lib value = elim (lib.parse_url (trim_space value)) [
    | none ↦ false
    | some url ↦ is_redirect_url url
  ]

  -- `isApproved`.
  unfoldable pub is_approved : Text → Bool
  is_approved value =
      one_of ("allow" ∷ "approve" ∷ "approved" ∷ "yes" ∷ "true" ∷ "1" ∷ [])
        (to_lower (trim_space value))

-- The error of `validateRedirectURI`.
abbrev pub redirect_uri_error : Text
redirect_uri_error =
    runes
      "redirect URI must be an absolute HTTPS URL (HTTP is allowed only for localhost) without credentials, query, or fragment"

unfoldable pub principal_connection_names : Principal → List Text
principal_connection_names principal = sorted_keys principal.connections

-- `redirectAllowedForClient`, `client` and `redirectAllowed`.
unfoldable pub redirect_allowed_for_client : RegisteredClient → Text → Bool
redirect_allowed_for_client client uri = contains client.redirect_uris uri

unfoldable pub client_of : Provider → Text → Option RegisteredClient
client_of p id = find p.clients id

unfoldable pub redirect_allowed : Provider → Text → Text → Bool
redirect_allowed p id uri = elim (client_of p id) [
  | none ↦ false
  | some client ↦ redirect_allowed_for_client client uri
]
