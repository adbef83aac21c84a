-- ===== src/Oauth/Authorize.antt =====
-- internal/oauth/oauth.go: the authorization endpoint.
use felsen_mcp_server_postgr.Base.{
  ℕ, ◌+◌, ltb, Bool, true, false, not, ◌&&◌, ◌||◌, List, [], ◌∷◌, ◌++◌, Option, none, some, Text,
  text_eq, runes, if◌then◌else◌, Entries, put,
}
use felsen_mcp_server_postgr.Strings.{Unicode, trim_space}
use felsen_mcp_server_postgr.Authn.{principal_named}
use felsen_mcp_server_postgr.Guard.Statement.{is_nil}
use felsen_mcp_server_postgr.Guard.Tables.{is_empty}
use felsen_mcp_server_postgr.Oauth.{
  Provider, Library, RegisteredClient, AuthorizationCode, AuthorizationRequest, Request, World,
  Response, server_failure, panicked, oauth_error, redirect, login_page, method_not_allowed,
  random_token,
}
use felsen_mcp_server_postgr.Oauth.Scopes.{
  contains, parse_scopes, default_scopes, validate_scopes, valid_redirect_uri, redirect_uri_error,
  is_approved, client_of, redirect_allowed, redirect_allowed_for_client,
}

-- `cleanupCodesLocked`.
unfoldable pub cleanup_codes : ℕ → Entries AuthorizationCode → Entries AuthorizationCode
cleanup_codes now [] = []
cleanup_codes now ((value, code) ∷ codes) =
    let rest = cleanup_codes now codes in
    if ltb code.expires_at now then rest else (value, code) ∷ rest

-- The loop over the scopes of the request, for a client that has scopes.
unfoldable pub first_unregistered : List Text → List Text → Option Text
first_unregistered registered [] = none
first_unregistered registered (scope ∷ scopes) =
    let rest = first_unregistered registered scopes in
    if contains registered scope then rest else some scope

unfoldable pub unregistered_scope : RegisteredClient → List Text → Option Text
unregistered_scope client scopes =
    if is_nil client.scopes then none else first_unregistered client.scopes scopes

abbrev with_state : Text → List (Text × Text)
with_state state = if is_empty state then [] else (runes "state", state) ∷ []

module _ (lib : Library) where
  -- `redirectOAuthError`.
  unfoldable pub redirect_oauth_error : Text → Text → Text → Text → Response
  redirect_oauth_error uri state code description = elim (lib.parse_url uri) [
    | none ↦ oauth_error 400 code description
    | some url ↦
        redirect url
          ((runes "error", code) ∷ (runes "error_description", description) ∷ with_state state)
  ]

  -- The redirect with the code: the source ignores an error of `url.Parse`.
  unfoldable pub redirect_with_code : AuthorizationRequest → Text → Response
  redirect_with_code request code = elim (lib.parse_url request.redirect_uri) [
    | none ↦ panicked
    | some url ↦ redirect url ((runes "code", code) ∷ with_state request.state)
  ]

module _ ⦃u : Unicode⦄ where
  -- The request before its checks.
  unfoldable pub asked_request : (Text → Text) → AuthorizationRequest
  asked_request values = record {
    client_id = trim_space (values (runes "client_id"));
    redirect_uri = trim_space (values (runes "redirect_uri"));
    state = values (runes "state");
    scopes = [];
    code_challenge = trim_space (values (runes "code_challenge"));
  }

  abbrev pub requested_scopes : Provider → (Text → Text) → List Text
  requested_scopes p values =
      let scopes = parse_scopes (values (runes "scope")) in
      if is_nil scopes then default_scopes p.cfg else scopes

module _ ⦃u : Unicode⦄ (lib : Library) (p : Provider) (values : Text → Text) where
  -- The checks on the scopes.
  unfoldable pub scope_error : RegisteredClient → List Text → Option Text
  scope_error client scopes = elim (principal_named p.principals p.cfg.principal) [
    | none ↦ some (runes "OAuth principal is no longer configured")
    | some principal ↦ elim (unregistered_scope client scopes) [
      | some scope ↦
          some (runes "scope " ++ lib.quote scope ++ runes " was not registered for this client")
      | none ↦ validate_scopes lib scopes principal
    ]
  ]

  -- The checks from the redirect URI to the resource.
  unfoldable pub request_error : AuthorizationRequest → RegisteredClient → Option Text
  request_error request client =
      let resource = trim_space (values (runes "resource")) in
      if is_empty request.redirect_uri
      then some (runes "redirect_uri is required")
      else if not (valid_redirect_uri lib request.redirect_uri)
      then some redirect_uri_error
      else if not (redirect_allowed_for_client client request.redirect_uri)
      then some (runes "redirect_uri is not registered for this client")
      else if not (text_eq (values (runes "response_type")) (runes "code"))
      then some (runes "response_type=code is required")
      else if is_empty request.code_challenge
          || not (text_eq (values (runes "code_challenge_method")) (runes "S256"))
      then some (runes "PKCE S256 code_challenge is required")
      else if not (is_empty resource) && not (text_eq resource p.cfg.resource)
      then some (runes "resource is not this MCP server")
      else none

  -- `validateAuthorizationRequest`: the request as far as it is filled in, and the error.
  unfoldable pub validate_authorization_request : AuthorizationRequest × Option Text
  validate_authorization_request =
      let request = asked_request values in
      let scopes = requested_scopes p values in
      if is_empty request.client_id
      then (request, some (runes "client_id is required"))
      else elim (client_of p request.client_id) [
        | none ↦ (request, some (runes "unknown client_id"))
        | some client ↦ elim (request_error request client) [
          | some error ↦ (request, some error)
          | none ↦ (record request { scopes = scopes }, scope_error client scopes)
        ]
      ]

module _ ⦃u : Unicode⦄ (lib : Library) (world : World) (p : Provider) where
  -- An invalid request: the browser is sent back only to a URI that the client registered.
  unfoldable pub refuse_request : AuthorizationRequest → Text → Response
  refuse_request request error =
      if is_empty request.client_id
        || is_empty request.redirect_uri
        || not (redirect_allowed p request.client_id request.redirect_uri)
      then oauth_error 400 (runes "invalid_request") error
      else redirect_oauth_error lib request.redirect_uri request.state (runes "invalid_request")
          error

  unfoldable pub new_code : AuthorizationRequest → AuthorizationCode
  new_code request = record {
    client_id = request.client_id;
    redirect_uri = request.redirect_uri;
    code_challenge = request.code_challenge;
    scopes = request.scopes;
    principal = p.cfg.principal;
    expires_at = world.now + p.code_ttl;
  }

  -- A valid request of the form that the login page posts.
  unfoldable pub approve_request : (Text → Text) → AuthorizationRequest → Response × Provider
  approve_request values request =
      if not (text_eq (values (runes "username")) p.cfg.username)
        || not (text_eq (values (runes "password")) p.cfg.password)
      then (login_page request (runes "Invalid username or password."), p)
      else if not (is_approved (values (runes "consent")))
      then (
        redirect_oauth_error lib request.redirect_uri request.state (runes "access_denied")
            (runes "user denied the authorization request"),
        p,
      )
      else elim (random_token lib world.random) [
        | none ↦ (server_failure, p)
        | some code ↦ (
          redirect_with_code lib request code,
          record p { codes = put (cleanup_codes world.now p.codes) code (new_code request) },
        )
      ]

  unfoldable pub authorize_values : Bool → (Text → Text) → Response × Provider
  authorize_values posted values =
      let (request, error) = validate_authorization_request lib p values in
      elim error [
        | some description ↦ (refuse_request request description, p)
        | none ↦ if posted then approve_request values request else (login_page request [], p)
      ]

  unfoldable pub authorize : Request → Response × Provider
  authorize r =
      if text_eq r.method (runes "GET")
      then authorize_values false r.query
      else if not (text_eq r.method (runes "POST"))
      then (method_not_allowed (runes "GET, POST"), p)
      else elim r.form [
        | none ↦
            (oauth_error 400 (runes "invalid_request") (runes "authorization form is invalid"), p)
        | some form ↦ authorize_values true form
      ]
