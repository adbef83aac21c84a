-- ===== src/Oauth/Server.antt =====
-- internal/oauth/oauth.go: `New`, the metadata and the routes of `ServeHTTP`.
use felsen_mcp_server_postgr.Base.{
  ℕ, ◌==◌, ltb, not, ◌||◌, List, [], ◌∷◌, ◌++◌, Option, none, some, Text, text_eq, one_of, runes,
  if◌then◌else◌, put,
}
use felsen_mcp_server_postgr.Strings.{Unicode, trim_space, trim_right, utf8_length}
use felsen_mcp_server_postgr.Authn.{ApiKey, principal_named}
use felsen_mcp_server_postgr.Config.Model.{OauthConfig}
use felsen_mcp_server_postgr.Guard.Statement.{is_nil}
use felsen_mcp_server_postgr.Guard.Tables.{is_empty}
use felsen_mcp_server_postgr.Oauth.{
  Provider, Library, RegisteredClient, Request, World, Response, not_found, method_not_allowed,
  resource_metadata, server_metadata, configured_principal,
}
use felsen_mcp_server_postgr.Oauth.Scopes.{scopes_supported}
use felsen_mcp_server_postgr.Oauth.Register.{ServerState, load_clients, register}
use felsen_mcp_server_postgr.Oauth.Authorize.{authorize}
use felsen_mcp_server_postgr.Oauth.Issue.{token}

-- What `os.ReadFile` and the decoder find at the path of the client store.
pub data StoreFile : Type 0 where
  missing unreadable undecodable : StoreFile
  holds : List RegisteredClient → StoreFile

-- The errors of `New`.
pub data NewError : Type 0 where
  no_manager signing_key_short issuer_or_resource bad_access_ttl bad_refresh_ttl bad_code_ttl
        no_principal no_credentials no_client_id no_redirect_uris bad_store :
      NewError

pub data NewResult : Type 0 where
  disabled : NewResult
  refused : NewError → NewResult
  made : Provider → NewResult

-- The client of the configuration.
unfoldable pub configured_client : OauthConfig → RegisteredClient
configured_client cfg = record {
  client_id = cfg.client_id;
  client_name = runes "Configured ChatGPT client";
  redirect_uris = cfg.redirect_uris;
  token_endpoint_auth_method = runes "none";
  grant_types = runes "authorization_code" ∷ runes "refresh_token" ∷ [];
  response_types = runes "code" ∷ [];
  scopes = [];
  issued_at = 0;
}

-- `time.ParseDuration` belongs to Go's library: `positive_duration` is its result in nanoseconds
-- where there is no error and it is positive, which `New` refuses alike.
module _ ⦃u : Unicode⦄ (positive_duration : Text → Option ℕ) where
  unfoldable pub clients_in : StoreFile → Option (List (Text × RegisteredClient))
  clients_in missing = some []
  clients_in (holds clients) = load_clients [] clients
  clients_in _ = none

  -- `loadClients`, and the clients where it returns no error.
  unfoldable pub stored_clients : OauthConfig → StoreFile → Option (List (Text × RegisteredClient))
  stored_clients cfg file =
      if is_empty (trim_space cfg.client_store_path) then some [] else clients_in file

  -- The part of `New` behind the three durations.
  unfoldable pub new_with : OauthConfig → List ApiKey → StoreFile → ℕ → ℕ → ℕ → NewResult
  new_with cfg principals file access refresh code =
      elim (principal_named principals (trim_space cfg.principal)) [
        | none ↦ refused no_principal
        | some principal ↦
            if is_empty (trim_space cfg.username) || is_empty cfg.password
            then refused no_credentials
            else if is_empty (trim_space cfg.client_id)
            then refused no_client_id
            else if is_nil cfg.redirect_uris
            then refused no_redirect_uris
            else elim (stored_clients cfg file) [
              | none ↦ refused bad_store
              | some clients ↦ made (record {
                cfg = cfg;
                principals = principals;
                clients = put clients cfg.client_id (configured_client cfg);
                codes = [];
                access_ttl = access;
                refresh_ttl = refresh;
                code_ttl = code;
              })
            ]
      ]

  -- `New`; a manager that is nil is none.
  unfoldable pub new_provider : OauthConfig → Option (List ApiKey) → StoreFile → NewResult
  new_provider cfg manager file = if not cfg.enabled then disabled else elim manager [
    | none ↦ refused no_manager
    | some principals ↦
        if is_empty (trim_space cfg.signing_key) || ltb (utf8_length cfg.signing_key) 32
        then refused signing_key_short
        else if is_empty (trim_space cfg.issuer) || is_empty (trim_space cfg.resource)
        then refused issuer_or_resource
        else elim (positive_duration cfg.access_token_ttl) [
          | none ↦ refused bad_access_ttl
          | some access ↦ elim (positive_duration cfg.refresh_token_ttl) [
            | none ↦ refused bad_refresh_ttl
            | some refresh ↦ elim (positive_duration cfg.authorization_code_ttl) [
              | none ↦ refused bad_code_ttl
              | some code ↦ new_with cfg principals file access refresh code
            ]
          ]
        ]
  ]

-- `strings.TrimRight(s, "/")`.
unfoldable pub trim_slashes : Text → Text
trim_slashes s = trim_right (λ c. c == b'/') s

-- `Paths`.
unfoldable pub paths : List Text
paths =
    runes "/.well-known/oauth-protected-resource"
    ∷ runes "/.well-known/oauth-protected-resource/"
    ∷ runes "/.well-known/oauth-protected-resource/mcp"
    ∷ runes "/mcp/.well-known/oauth-protected-resource"
    ∷ runes "/mcp/.well-known/oauth-protected-resource/"
    ∷ runes "/.well-known/oauth-authorization-server"
    ∷ runes "/.well-known/oauth-authorization-server/"
    ∷ runes "/oauth/register"
    ∷ runes "/oauth/authorize"
    ∷ runes "/oauth/token"
    ∷ []

unfoldable pub challenge : Provider → Text
challenge p =
    runes "Bearer resource_metadata=\""
    ++ trim_slashes p.cfg.issuer
    ++ runes "/.well-known/oauth-protected-resource\""

module _ ⦃u : Unicode⦄ where
  unfoldable pub protected_resource_metadata : Provider → Request → Response
  protected_resource_metadata p r =
      if not (text_eq r.method (runes "GET"))
      then method_not_allowed (runes "GET")
      else resource_metadata p.cfg.resource p.cfg.issuer (scopes_supported (configured_principal p))

  -- The endpoints are the issuer, without slashes at its end, and their paths.
  unfoldable pub authorization_server_metadata : Provider → Request → Response
  authorization_server_metadata p r =
      if not (text_eq r.method (runes "GET"))
      then method_not_allowed (runes "GET")
      else server_metadata p.cfg.issuer (trim_slashes p.cfg.issuer)
          (scopes_supported (configured_principal p))

  abbrev pub with_store : ServerState → Response × Provider → Response × ServerState
  with_store s (answer, p) = (answer, record s { provider = p })

  unfoldable pub serve_http : Library → World → ServerState → Request → Response × ServerState
  serve_http lib world s r =
      let path = trim_slashes r.path in
      if one_of
        ("/.well-known/oauth-protected-resource" ∷ "/.well-known/oauth-protected-resource/mcp"
          ∷ "/mcp/.well-known/oauth-protected-resource" ∷ [])
        path
      then (protected_resource_metadata s.provider r, s)
      else if text_eq path (runes "/.well-known/oauth-authorization-server")
      then (authorization_server_metadata s.provider r, s)
      else if text_eq path (runes "/oauth/register")
      then register lib world s r
      else if text_eq path (runes "/oauth/authorize")
      then with_store s (authorize lib world s.provider r)
      else if text_eq path (runes "/oauth/token")
      then with_store s (token lib world s.provider r)
      else (not_found, s)
