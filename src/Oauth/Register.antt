-- ===== src/Oauth/Register.antt =====
-- internal/oauth/oauth.go: the registration of a client, and the store of the registered ones.
-- The file of the store is an atomic value: the source writes a second file and renames it.
use felsen_mcp_server_postgr.Base.{
  ◌/◌, Bool, true, false, not, ◌||◌, List, [], ◌∷◌, ◌++◌, Option, none, some, Text, text_eq, one_of,
  runes, if◌then◌else◌, Entries, put, text_leb, ◌⊎◌, inl, inr,
}
use felsen_mcp_server_postgr.Strings.{Unicode, trim_space}
use felsen_mcp_server_postgr.Guard.Tables.{is_empty}
use felsen_mcp_server_postgr.Guard.Statement.{is_nil}
use felsen_mcp_server_postgr.Oauth.{
  Provider, Library, RegisteredClient, Registration, Request, World, Response, oauth_error,
  method_not_allowed, created, random_token, configured_principal,
}
use felsen_mcp_server_postgr.Oauth.Scopes.{
  contains, normalize, parse_scopes, default_scopes, validate_scopes, valid_redirect_uri,
  redirect_uri_error,
}

abbrev or_default : List Text → List Text → List Text
or_default default [] = default
or_default default (v ∷ values) = v ∷ values

-- The loops over the redirect URIs and over the grant types, and the test of the response types.
unfoldable pub all_valid_uris : ⦃u : Unicode⦄ → Library → List Text → Bool
all_valid_uris lib [] = true
all_valid_uris lib (uri ∷ uris) =
    let rest = all_valid_uris lib uris in if valid_redirect_uri lib uri then rest else false

unfoldable pub all_grants : List Text → Bool
all_grants [] = true
all_grants (grant ∷ grants) =
    let rest = all_grants grants in
    if one_of ("authorization_code" ∷ "refresh_token" ∷ []) grant then rest else false

unfoldable pub is_code_only : List Text → Bool
is_code_only (a ∷ []) = text_eq a (runes "code")
is_code_only _ = false

abbrev invalid_metadata : Text → Response
invalid_metadata description = oauth_error 400 (runes "invalid_client_metadata") description

-- The clients of `saveClientsLocked`: all but the configured one, by their identifiers.
unfoldable pub insert_client : RegisteredClient → List RegisteredClient → List RegisteredClient
insert_client a [] = a ∷ []
insert_client a (b ∷ bs) =
    let rest = insert_client a bs in
    if text_leb a.client_id b.client_id then a ∷ b ∷ bs else b ∷ rest

unfoldable pub saved_clients : Text → Entries RegisteredClient → List RegisteredClient
saved_clients configured [] = []
saved_clients configured ((id, client) ∷ clients) =
    let rest = saved_clients configured clients in
    if text_eq client.client_id configured then rest else insert_client client rest

-- The provider and the file of its clients, where there is one.
pub record ServerState : Type 0 where
  pub provider : Provider
  pub store : Option (List RegisteredClient)

unfoldable pub save_clients : ⦃u : Unicode⦄ → World → ServerState → Bool × ServerState
save_clients world s =
    if is_empty (trim_space s.provider.cfg.client_store_path)
    then (true, s)
    else if world.can_save
    then (
      true,
      record s { store = some (saved_clients s.provider.cfg.client_id s.provider.clients) },
    )
    else (false, s)

-- `loadClients` after the file is read and decoded: none is its error.
unfoldable pub load_clients :
    Entries RegisteredClient → List RegisteredClient → Option (Entries RegisteredClient)
load_clients clients [] = some clients
load_clients clients (client ∷ stored) =
    let rest = load_clients (put clients client.client_id client) stored in
    if is_empty client.client_id || not (text_eq client.token_endpoint_auth_method (runes "none"))
    then none
    else rest

module _ ⦃u : Unicode⦄ (lib : Library) where
  -- The client that a registration asks for, or the answer that refuses it.
  unfoldable pub checked_registration :
      Provider → World → Registration → Response ⊎ RegisteredClient
  checked_registration p world input =
      let asked = trim_space input.token_endpoint_auth_method in
      let auth_method = if is_empty asked then runes "none" else asked in
      let grant_types =
        or_default (runes "authorization_code" ∷ runes "refresh_token" ∷ [])
          (normalize input.grant_types) in
      let response_types = or_default (runes "code" ∷ []) (normalize input.response_types) in
      let scopes = or_default (default_scopes p.cfg) (parse_scopes input.scope) in
      if is_nil input.redirect_uris
      then inl (invalid_metadata (runes "redirect_uris is required"))
      else if not (all_valid_uris lib input.redirect_uris)
      then inl (invalid_metadata redirect_uri_error)
      else if not (text_eq auth_method (runes "none"))
      then inl (invalid_metadata (runes "only token_endpoint_auth_method=none is supported"))
      else if not (all_grants grant_types)
      then inl (
          invalid_metadata (runes "only authorization_code and refresh_token grants are supported"))
      else if not (contains grant_types (runes "authorization_code"))
      then inl (invalid_metadata (runes "authorization_code grant is required"))
      else if not (is_code_only response_types)
      then inl (invalid_metadata (runes "only response_type=code is supported"))
      else elim (validate_scopes lib scopes (configured_principal p)) [
        | some error ↦ inl (invalid_metadata error)
        | none ↦ elim (random_token lib world.random) [
          | none ↦ inl (oauth_error 500 (runes "server_error") (runes "could not create client ID"))
          | some id ↦ inr (record {
            client_id = runes "mcp_" ++ id;
            client_name = trim_space input.client_name;
            redirect_uris = input.redirect_uris;
            token_endpoint_auth_method = auth_method;
            grant_types = grant_types;
            response_types = response_types;
            scopes = scopes;
            issued_at = world.now / 1000000000;
          })
        ]
      ]

  -- The client stays registered when it cannot be saved.
  unfoldable pub add_client : World → ServerState → RegisteredClient → Response × ServerState
  add_client world s client =
      let clients = put s.provider.clients client.client_id client in
      let (saved, s') =
        save_clients world (record s { provider = record s.provider { clients = clients } }) in
      if saved then (created client, s') else (
        oauth_error 500 (runes "server_error") (runes "could not persist client registration"),
        s',
      )

  unfoldable pub register : World → ServerState → Request → Response × ServerState
  register world s r =
      if not (text_eq r.method (runes "POST"))
      then (method_not_allowed (runes "POST"), s)
      else elim r.registration [
        | none ↦ (
          oauth_error 400 (runes "invalid_request") (runes "registration body must be valid JSON"),
          s,
        )
        | some input ↦ elim (checked_registration s.provider world input) [
          | inl refusal ↦ (refusal, s)
          | inr client ↦ add_client world s client
        ]
      ]
