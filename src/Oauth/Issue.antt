-- ===== src/Oauth/Issue.antt =====
-- internal/oauth/oauth.go: signed tokens, the token endpoint and `AuthenticateHeader`.
use felsen_mcp_server_postgr.Base.{
  ℕ, ◌+◌, ◌/◌, ltb, leb, Bool, false, not, ◌&&◌, ◌||◌, List, [], ◌∷◌, ◌++◌, Option, none, some,
  Text, text_eq, mem_text, runes, length, take, drop, if◌then◌else◌, find, delete,
}
use felsen_mcp_server_postgr.Strings.{Unicode, trim_space, equal_fold, split, join}
use felsen_mcp_server_postgr.Authn.{Principal, Authenticator, principal_named, can_use_connection}
use felsen_mcp_server_postgr.Guard.Statement.{is_nil}
use felsen_mcp_server_postgr.Guard.Tables.{is_empty}
use felsen_mcp_server_postgr.Oauth.{
  Provider, Library, RegisteredClient, AuthorizationCode, TokenClaims, TokenResponse, Request,
  World, Response, oauth_error, tokens, method_not_allowed, access_token_type, refresh_token_type,
  must_random_token,
}
use felsen_mcp_server_postgr.Oauth.Scopes.{
  parse_scopes, validate_scopes, principal_connection_names, client_of,
}

-- `time.Unix` of a time in nanoseconds.
abbrev pub unix : ℕ → ℕ
unix t = t / 1000000000

module _ (lib : Library) where
  unfoldable pub sign_token : Text → TokenClaims → Text
  sign_token key claims =
      let message = lib.encode64 lib.header_json ++ b'.' ∷ lib.encode64 (lib.claims_json claims) in
      message ++ b'.' ∷ lib.encode64 (lib.hmac key message)

  -- The claims behind a signature that is right, still to be compared with the expected ones.
  unfoldable pub signed_claims : Text → List Text → Option TokenClaims
  signed_claims key (header ∷ payload ∷ signature ∷ []) = elim (lib.decode64 signature) [
    | none ↦ none
    | some mac ↦
        if not (text_eq mac (lib.hmac key (header ++ b'.' ∷ payload)))
        then none
        else elim (lib.decode64 payload) [ none ↦ none | some json ↦ lib.read_claims json ]
  ]
  signed_claims key _ = none

  unfoldable pub verify_token : Provider → ℕ → Text → Text → Option TokenClaims
  verify_token p now value expected_type =
      elim (signed_claims p.cfg.signing_key (split b'.' value)) [
        | none ↦ none
        | some claims ↦
            if not (text_eq claims.typ expected_type)
              || not (text_eq claims.issuer p.cfg.issuer)
              || leb claims.expires_at (unix now)
            then none
            else some claims
      ]

  unfoldable pub verify_pkce : Text → Text → Bool
  verify_pkce verifier challenge =
      if is_empty verifier || is_empty challenge
      then false
      else text_eq (lib.encode64 (lib.sha256 verifier)) challenge

abbrev invalid_grant : Text → Response
invalid_grant description = oauth_error 400 (runes "invalid_grant") description

module _ ⦃u : Unicode⦄ (lib : Library) where
  -- The claims of the two tokens of a response.
  unfoldable pub new_claims :
      Provider → ℕ → Text → Principal → Text → List Text → ℕ → Text → Text → TokenClaims
  new_claims p now client_id principal name scopes ttl typ id = record {
    issuer = p.cfg.issuer;
    subject = name;
    client_id = client_id;
    audience = p.cfg.resource;
    scope = join (runes " ") scopes;
    connections = principal_connection_names principal;
    issued_at = unix now;
    expires_at = unix (now + ttl);
    typ = typ;
    id = id;
  }

  unfoldable pub new_tokens : World → Provider → Text → Principal → Text → List Text → TokenResponse
  new_tokens world p client_id principal name scopes = record {
    access_token = sign_token lib p.cfg.signing_key (
        new_claims p world.now client_id principal name scopes p.access_ttl access_token_type
          (must_random_token lib world.access_random));
    expires_in = unix p.access_ttl;
    refresh_token = sign_token lib p.cfg.signing_key (
        new_claims p world.now client_id principal name scopes p.refresh_ttl refresh_token_type
          (must_random_token lib world.refresh_random));
    scope = join (runes " ") scopes;
  }

  unfoldable pub issue_token_response : World → Provider → Text → Text → List Text → Response
  issue_token_response world p client_id name scopes = elim (principal_named p.principals name) [
    | none ↦ invalid_grant (runes "OAuth principal is no longer configured")
    | some principal ↦ elim (validate_scopes lib scopes principal) [
      | some error ↦ invalid_grant error
      | none ↦ tokens (new_tokens world p client_id principal name scopes)
    ]
  ]

  -- The checks on a code that was found, in the order of the source.
  unfoldable pub redeem_code :
      World → Provider → (Text → Text) → RegisteredClient → AuthorizationCode → Response
  redeem_code world p form client code =
      let uri = trim_space (form (runes "redirect_uri")) in
      if ltb code.expires_at world.now || not (text_eq code.client_id client.client_id)
      then invalid_grant (runes "authorization code is invalid or expired")
      else if not (is_empty uri) && not (text_eq uri code.redirect_uri)
      then invalid_grant (runes "redirect_uri does not match the authorization request")
      else if not (verify_pkce lib (trim_space (form (runes "code_verifier"))) code.code_challenge)
      then invalid_grant (runes "code_verifier does not satisfy PKCE")
      else issue_token_response world p client.client_id code.principal code.scopes

  -- The code is deleted as soon as it is found.
  unfoldable pub exchange_authorization_code :
      World → Provider → (Text → Text) → RegisteredClient → Response × Provider
  exchange_authorization_code world p form client =
      let value = trim_space (form (runes "code")) in
      if is_empty value
      then (oauth_error 400 (runes "invalid_request") (runes "code is required"), p)
      else elim (find p.codes value) [
        | none ↦ (invalid_grant (runes "authorization code is invalid or expired"), p)
        | some code ↦ (
          redeem_code world (record p { codes = delete p.codes value }) form client code,
          record p { codes = delete p.codes value },
        )
      ]

  unfoldable pub exchange_refresh_token :
      World → Provider → (Text → Text) → RegisteredClient → Response
  exchange_refresh_token world p form client =
      elim (verify_token lib p world.now (trim_space (form (runes "refresh_token")))
        refresh_token_type) [
          | none ↦ invalid_grant (runes "refresh token is invalid or expired")
          | some claims ↦
              if is_empty claims.subject || not (text_eq claims.audience p.cfg.resource)
              then invalid_grant (runes "refresh token is invalid or expired")
              else if not (text_eq claims.subject p.cfg.principal)
              then invalid_grant (runes "refresh token principal is invalid")
              else if not (text_eq claims.client_id client.client_id)
              then invalid_grant (runes "refresh token was issued to a different client")
              else issue_token_response world p client.client_id claims.subject
                  (parse_scopes claims.scope)
        ]

  -- The part of `token` behind the check of the client.
  unfoldable pub grant_tokens :
      World → Provider → (Text → Text) → RegisteredClient → Response × Provider
  grant_tokens world p form client =
      let resource = trim_space (form (runes "resource")) in
      let grant_type = form (runes "grant_type") in
      if not (is_empty resource) && not (text_eq resource p.cfg.resource)
      then (oauth_error 400 (runes "invalid_target") (runes "resource is not this MCP server"), p)
      else if text_eq grant_type (runes "authorization_code")
      then exchange_authorization_code world p form client
      else if text_eq grant_type (runes "refresh_token")
      then (exchange_refresh_token world p form client, p)
      else (
        oauth_error 400 (runes "unsupported_grant_type")
            (runes "only authorization_code and refresh_token are supported"),
        p,
      )

  unfoldable pub token_form : World → Provider → Text → (Text → Text) → Response × Provider
  token_form world p authorization form =
      if not (is_empty authorization)
      then (
        oauth_error 401 (runes "invalid_client")
            (runes "this server requires token_endpoint_auth_method=none"),
        p,
      )
      else elim (client_of p (trim_space (form (runes "client_id")))) [
        | none ↦
            (oauth_error 401 (runes "invalid_client") (runes "unknown or unsupported client"), p)
        | some client ↦
            if not (text_eq client.token_endpoint_auth_method (runes "none"))
            then (
              oauth_error 401 (runes "invalid_client") (runes "unknown or unsupported client"),
              p,
            )
            else grant_tokens world p form client
      ]

  unfoldable pub token : World → Provider → Request → Response × Provider
  token world p r =
      if not (text_eq r.method (runes "POST"))
      then (method_not_allowed (runes "POST"), p)
      else elim r.form [
        | none ↦ (oauth_error 400 (runes "invalid_request") (runes "token form is invalid"), p)
        | some form ↦ token_form world p r.authorization form
      ]

  -- The loop over the connections of the claims.
  unfoldable pub usable_connections : Principal → List Text → List Text
  usable_connections base [] = []
  usable_connections base (connection ∷ connections) =
      let rest = usable_connections base connections in
      if text_eq connection (runes "*") || can_use_connection base connection
      then connection ∷ rest
      else rest

  -- Without one, all connections for a principal that has them all.
  unfoldable pub claimed_connections : Principal → List Text → List Text
  claimed_connections base claimed =
      let connections = usable_connections base claimed in
      if is_nil connections && mem_text (runes "*") base.connections
      then runes "*" ∷ []
      else connections

  -- The principal of verified claims.
  unfoldable pub claimed_principal : Provider → TokenClaims → Option Principal
  claimed_principal p claims =
      let scopes = parse_scopes claims.scope in
      if not (text_eq claims.audience p.cfg.resource)
      then none
      else elim (principal_named p.principals claims.subject) [
        | none ↦ none
        | some base ↦ elim (validate_scopes lib scopes base) [
          | some error ↦ none
          | none ↦ some (record {
            name = base.name;
            scopes = scopes;
            connections = claimed_connections base claims.connections;
          })
        ]
      ]

  -- `AuthenticateHeader`: the header is cut as in the API keys' authenticator.
  unfoldable pub authenticate_token : Provider → ℕ → Authenticator
  authenticate_token p now header =
      let value = trim_space header in
      if ltb (length value) 7 || not (equal_fold (take 7 value) (runes "Bearer "))
      then none
      else elim (verify_token lib p now (trim_space (drop 7 value)) access_token_type) [
        | none ↦ none
        | some claims ↦ claimed_principal p claims
      ]
