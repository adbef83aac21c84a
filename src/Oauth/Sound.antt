-- ===== src/Oauth/Sound.antt =====
-- internal/oauth/oauth.go: what holds of a provider between two requests.
use felsen_mcp_server_postgr.Base.{
  ℕ, true, false, none, some, ◌≡◌, inl, inr, refl, sym, ◌∙◌, subst, arith, Text, List, [], ◌∷◌,
  text_eq, text_eq_iff, runes, Bool-cases, Option-cases, Entries, find, put, find-put_self,
  find-put_other, KeysDistinct,
}
use felsen_mcp_server_postgr.Strings.{Unicode}
use felsen_mcp_server_postgr.Guard.Tables.{is_empty}
use felsen_mcp_server_postgr.Authn.{Principal, principal_named}
use felsen_mcp_server_postgr.Oauth.{Provider, Library, AuthorizationCode, RegisteredClient}
use felsen_mcp_server_postgr.Oauth.Scopes.{validate_scopes, valid_redirect_uri}
use felsen_mcp_server_postgr.Oauth.Register.{load_clients}
use felsen_mcp_server_postgr.Oauth.Authorize.{cleanup_codes}
use felsen_mcp_server_postgr.Oauth.Codes.{unexpired, find-cleanup_codes}

-- A client under its own identifier, which authenticates by no secret.
abbrev pub IsPublic : Text → RegisteredClient → Type 0
IsPublic id client = (client.client_id ≡ id) × (client.token_endpoint_auth_method ≡ runes "none")

abbrev pub ArePublic : Entries RegisteredClient → Type 0
ArePublic clients =
    (id : Text) (client : RegisteredClient) → find clients id ≡ some client → IsPublic id client

module _ ⦃u : Unicode⦄ (lib : Library) where
  -- A code that its client can redeem: the client is registered, the redirect URI is a valid one,
  -- there is a challenge, and the principal is configured and allowed the scopes.
  pub record IsHeld (p : Provider) (code : AuthorizationCode) : Type 0 where
    pub client : RegisteredClient
    pub principal : Principal
    pub known : find p.clients code.client_id ≡ some client
    pub uri_valid : valid_redirect_uri lib code.redirect_uri ≡ true
    pub challenged : is_empty code.code_challenge ≡ false
    pub owner : code.principal ≡ p.cfg.principal
    pub configured : principal_named p.principals code.principal ≡ some principal
    pub granted : validate_scopes lib code.scopes principal ≡ none

  pub record IsSound (p : Provider) : Type 0 where
    pub public : ArePublic p.clients
    pub keys : KeysDistinct p.codes
    pub held :
        (value : Text) (code : AuthorizationCode) → find p.codes value ≡ some code → IsHeld p code

pub put-ArePublic :
    (clients : Entries RegisteredClient) (key : Text) (client : RegisteredClient)
    → ArePublic clients
    → IsPublic key client
    → ArePublic (put clients key client)
put-ArePublic clients key client all one id found h = elim (Bool-cases (text_eq key id)) [
  | inl e ↦
      let same : some client ≡ some found =
        sym (find-put_self clients key client) ∙ rw (← (text_eq_iff key id).0 e) at h in
      let same_client : client ≡ found = ground (arith, same) in
      subst (IsPublic id) same_client (rw (← (text_eq_iff key id).0 e) one)
  | inr e ↦ all id found (
      sym (find-put_other clients id key client (λ x. ground (arith, e, (text_eq_iff key id).1 x)))
      ∙ h)
]

pub load_clients-ArePublic :
    (stored : List RegisteredClient) (clients loaded : Entries RegisteredClient)
    → ArePublic clients
    → load_clients clients stored ≡ some loaded
    → ArePublic loaded
unfolding load_clients
load_clients-ArePublic [] clients loaded all h =
    let same : clients ≡ loaded = ground arith in subst ArePublic same all
load_clients-ArePublic (client ∷ stored) clients loaded all h =
    let public : client.token_endpoint_auth_method ≡ runes "none" =
      ground (arith, text_eq_iff client.token_endpoint_auth_method (runes "none")) in
    load_clients-ArePublic stored (put clients client.client_id client) loaded
      (put-ArePublic clients client.client_id client all (refl, public)) (ground arith)

pub find-cleanup_codes-some :
    (now : ℕ) (codes : Entries AuthorizationCode) (value : Text) (code : AuthorizationCode)
    → KeysDistinct codes
    → find (cleanup_codes now codes) value ≡ some code
    → find codes value ≡ some code
find-cleanup_codes-some now codes value code d h =
    let left : unexpired now (find codes value) ≡ some code =
      sym (find-cleanup_codes now codes value d) ∙ h in
    elim (Option-cases (find codes value)) [
      | inl e ↦ ground (arith, e, left)
      | inr (c, e) ↦ ground (arith, e, left)
    ]

module _ ⦃u : Unicode⦄ (lib : Library) where
  put-known :
      (clients : Entries RegisteredClient) (key id : Text) (new client : RegisteredClient)
      → find clients id ≡ some client
      → (found : RegisteredClient) × (find (put clients key new) id ≡ some found)
  put-known clients key id new client h = elim (Bool-cases (text_eq key id)) [
    | inl e ↦ (
      new,
      subst (λ k. find (put clients key new) k ≡ some new) ((text_eq_iff key id).0 e)
          (find-put_self clients key new),
    )
    | inr e ↦ (
      client,
      find-put_other clients id key new (λ x. ground (arith, e, (text_eq_iff key id).1 x)) ∙ h,
    )
  ]

  pub registered-IsSound :
      (p : Provider) (key : Text) (client : RegisteredClient)
      → IsPublic key client
      → IsSound lib p
      → IsSound lib (record p { clients = put p.clients key client })
  registered-IsSound p key client public s = record {
    public = put-ArePublic p.clients key client s.public public;
    keys = s.keys;
    held = λ value code h.
        let old = s.held value code h in
        let (found, known) = put-known p.clients key code.client_id client old.client old.known in
        record {
          client = found;
          principal = old.principal;
          known = known;
          uri_valid = old.uri_valid;
          challenged = old.challenged;
          owner = old.owner;
          configured = old.configured;
          granted = old.granted;
        };
  }

  pub fewer-IsSound :
      (p : Provider) (codes : Entries AuthorizationCode)
      → KeysDistinct codes
      → ((value : Text) (code : AuthorizationCode)
          → find codes value ≡ some code
          → IsHeld lib p code)
      → IsSound lib p
      → IsSound lib (record p { codes = codes })
  fewer-IsSound p codes keys held s = record {
    public = s.public;
    keys = keys;
    held = λ value code h.
        let old = held value code h in
        record {
          client = old.client;
          principal = old.principal;
          known = old.known;
          uri_valid = old.uri_valid;
          challenged = old.challenged;
          owner = old.owner;
          configured = old.configured;
          granted = old.granted;
        };
  }
