-- ===== src/Oauth.antt =====
-- internal/oauth/oauth.go: the types of the OAuth server, its provider and what it answers.
-- Times are nanoseconds and are read once in a request. JSON, base64, HMAC, SHA-256 and the
-- parser of URLs belong to Go's library: they are the record `Library`.
pub mod Scopes
pub mod Register
pub mod Authorize
pub mod Issue
pub mod Server
pub mod Redirects
pub mod Cases
pub mod Steps
pub mod Codes
pub mod Calls
pub mod Once
pub mod Grants
pub mod Admitted
pub mod Sound
pub mod Tokens
pub mod Bearers
pub mod New
pub mod Reachable
pub mod Tests
use felsen_mcp_server_postgr.Base.{
  ℕ, ◌+◌, Bool, true, false, List, [], ◌∷◌, ◌++◌, Option, none, some, Text, runes, Entries,
}
use felsen_mcp_server_postgr.Strings.{Unicode, trim_space}
use felsen_mcp_server_postgr.Authn.{ApiKey, Principal, principal_named}
use felsen_mcp_server_postgr.Config.Model.{OauthConfig, ParsedUrl}
use felsen_mcp_server_postgr.Guard.Tables.{is_empty}

pub record RegisteredClient : Type 0 where
  pub client_id : Text
  pub client_name : Text
  pub redirect_uris : List Text
  pub token_endpoint_auth_method : Text
  pub grant_types : List Text
  pub response_types : List Text
  pub scopes : List Text
  pub issued_at : ℕ

pub record AuthorizationCode : Type 0 where
  pub client_id : Text
  pub redirect_uri : Text
  pub code_challenge : Text
  pub scopes : List Text
  pub principal : Text
  pub expires_at : ℕ

-- The two times are seconds.
pub record TokenClaims : Type 0 where
  pub issuer : Text
  pub subject : Text
  pub client_id : Text
  pub audience : Text
  pub scope : Text
  pub connections : List Text
  pub issued_at : ℕ
  pub expires_at : ℕ
  pub typ : Text
  pub id : Text

-- `Provider`: the principals of its manager are those of these keys. A map is its entries.
pub record Provider : Type 0 where
  pub cfg : OauthConfig
  pub principals : List ApiKey
  pub clients : Entries RegisteredClient
  pub codes : Entries AuthorizationCode
  pub access_ttl : ℕ
  pub refresh_ttl : ℕ
  pub code_ttl : ℕ

-- `url.Parse`, `base64.RawURLEncoding`, `sha256.Sum256`, HMAC-SHA-256 with its key first, the
-- JSON of the token's header and of the claims, and the verb `%q`.
pub record Library : Type 0 where
  pub parse_url : Text → Option ParsedUrl
  pub encode64 : Text → Text
  pub decode64 : Text → Option Text
  pub sha256 : Text → Text
  pub hmac : Text → Text → Text
  pub header_json : Text
  pub claims_json : TokenClaims → Text
  pub read_claims : Text → Option TokenClaims
  pub quote : Text → Text

-- The body of a registration, decoded from JSON.
pub record Registration : Type 0 where
  pub redirect_uris : List Text
  pub client_name : Text
  pub token_endpoint_auth_method : Text
  pub grant_types : List Text
  pub response_types : List Text
  pub scope : Text

-- A request: `query` is `URL.Query().Get`, `form` is `FormValue` after `ParseForm` has returned no
-- error, `registration` is the decoded body, `authorization` is that header.
pub record Request : Type 0 where
  pub method : Text
  pub path : Text
  pub query : Text → Text
  pub form : Option (Text → Text)
  pub registration : Option Registration
  pub authorization : Text

-- What a request finds around it: the time, the bytes that `rand.Read` returns for a code or a
-- client identifier and for the identifiers of two tokens, and whether a write of the client
-- store succeeds.
pub record World : Type 0 where
  pub now : ℕ
  pub random : Option Text
  pub access_random : Option Text
  pub refresh_random : Option Text
  pub can_save : Bool

pub record AuthorizationRequest : Type 0 where
  pub client_id : Text
  pub redirect_uri : Text
  pub state : Text
  pub scopes : List Text
  pub code_challenge : Text

pub record TokenResponse : Type 0 where
  pub access_token : Text
  pub expires_in : ℕ
  pub refresh_token : Text
  pub scope : Text

-- The answers. `redirect` sends the browser to the URL with these parameters set, in this order;
-- `panicked` stands for the use of a URL that was not parsed.
pub data Response : Type 0 where
  not_found server_failure panicked : Response
  method_not_allowed : Text → Response
  oauth_error : ℕ → Text → Text → Response
  redirect : ParsedUrl → List (Text × Text) → Response
  login_page : AuthorizationRequest → Text → Response
  resource_metadata : Text → Text → List Text → Response
  server_metadata : Text → Text → List Text → Response
  created : RegisteredClient → Response
  tokens : TokenResponse → Response

abbrev pub access_token_type : Text
access_token_type = runes "access_token"

abbrev pub refresh_token_type : Text
refresh_token_type = runes "refresh_token"

-- `randomToken` of bytes that were read, and `mustRandomToken`.
unfoldable pub random_token : Library → Option Text → Option Text
random_token lib none = none
random_token lib (some bytes) = some (lib.encode64 bytes)

unfoldable pub must_random_token : Library → Option Text → Text
must_random_token lib none = runes "unavailable"
must_random_token lib (some bytes) = lib.encode64 bytes

-- `p.principals.Principal(p.cfg.Principal)`, whose second result the source ignores: the zero
-- value then.
unfoldable pub configured_principal : Provider → Principal
configured_principal p = elim (principal_named p.principals p.cfg.principal) [
  | some principal ↦ principal
  | none ↦ record { name = []; scopes = []; connections = [] }
]
