-- ===== src/Oauth/New.antt =====
-- internal/oauth/oauth.go: what a provider that `New` makes starts with.
use felsen_mcp_server_postgr.Base.{
  ℕ, ltb, true, false, Option, some, ◌≡◌, inl, inr, refl, subst, arith, Text, List, [], Bool-cases,
  Option-cases, Entries, find, put,
}
use felsen_mcp_server_postgr.Strings.{Unicode, trim_space, utf8_length}
use felsen_mcp_server_postgr.Guard.Tables.{is_empty}
use felsen_mcp_server_postgr.Authn.{Principal, ApiKey, principal_named}
use felsen_mcp_server_postgr.Config.Model.{OauthConfig}
use felsen_mcp_server_postgr.Oauth.{Provider, RegisteredClient}
use felsen_mcp_server_postgr.Oauth.Server.{
  StoreFile, missing, unreadable, undecodable, holds, clients_in, made, configured_client,
  stored_clients, new_with, new_provider,
}
use felsen_mcp_server_postgr.Oauth.Sound.{IsPublic, ArePublic, load_clients-ArePublic}

pub configured_client-IsPublic :
    (cfg : OauthConfig) → IsPublic cfg.client_id (configured_client cfg)
unfolding configured_client
configured_client-IsPublic cfg = (refl, refl)

module _ ⦃u : Unicode⦄ (positive_duration : Text → Option ℕ) where
  clients_in-ArePublic :
      (file : StoreFile) (clients : Entries RegisteredClient)
      → clients_in positive_duration file ≡ some clients
      → ArePublic clients
  unfolding clients_in find
  clients_in-ArePublic missing clients h =
      let same : [] ≡ clients = ground arith in subst ArePublic same (λ id client found. cc)
  clients_in-ArePublic (holds stored) clients h =
      load_clients-ArePublic stored [] clients (λ id client found. cc) h
  clients_in-ArePublic unreadable clients h = cc
  clients_in-ArePublic undecodable clients h = cc

  pub stored_clients-ArePublic :
      (cfg : OauthConfig) (file : StoreFile) (clients : Entries RegisteredClient)
      → stored_clients positive_duration cfg file ≡ some clients
      → ArePublic clients
  unfolding stored_clients find
  stored_clients-ArePublic cfg file clients h =
      elim (Bool-cases (is_empty (trim_space cfg.client_store_path))) [
        | inl e ↦
            let same : [] ≡ clients = ground (arith, e) in
            subst ArePublic same (λ id client found. cc)
        | inr e ↦ clients_in-ArePublic file clients (rw e at h)
      ]

  -- What `New` has checked, and what it starts with.
  pub record IsNew (cfg : OauthConfig) (file : StoreFile) (p : Provider) : Type 0 where
    pub clients : Entries RegisteredClient
    pub principal : Principal
    pub enabled : cfg.enabled ≡ true
    pub key_long : ltb (utf8_length cfg.signing_key) 32 ≡ false
    pub config : p.cfg ≡ cfg
    pub configured : principal_named p.principals (trim_space cfg.principal) ≡ some principal
    pub credentials : is_empty cfg.password ≡ false
    pub stored : stored_clients positive_duration cfg file ≡ some clients
    pub with_own : p.clients ≡ put clients cfg.client_id (configured_client cfg)
    pub no_codes : p.codes ≡ []
    pub access : positive_duration cfg.access_token_ttl ≡ some p.access_ttl
    pub refresh : positive_duration cfg.refresh_token_ttl ≡ some p.refresh_ttl
    pub code : positive_duration cfg.authorization_code_ttl ≡ some p.code_ttl

  new_with-parts :
      (cfg : OauthConfig) (keys : List ApiKey) (file : StoreFile) (access refresh code : ℕ)
      (p : Provider)
      → new_with positive_duration cfg keys file access refresh code ≡ made p
      → (principal : Principal) × (clients : Entries RegisteredClient) × (principal_named keys
            (trim_space cfg.principal)
          ≡ some principal)
        × (is_empty cfg.password ≡ false)
        × (stored_clients positive_duration cfg file ≡ some clients)
        × (p ≡ record {
          cfg = cfg;
          principals = keys;
          clients = put clients cfg.client_id (configured_client cfg);
          codes = [];
          access_ttl = access;
          refresh_ttl = refresh;
          code_ttl = code;
        })
  unfolding new_with
  new_with-parts cfg keys file access refresh code p h =
      elim (Option-cases (principal_named keys (trim_space cfg.principal))) [
        | inl e ↦ ground (arith, e)
        | inr (principal, e) ↦ elim (Option-cases (stored_clients positive_duration cfg file)) [
          | inl f ↦ ground (arith, e, f)
          | inr (clients, f) ↦
              (principal, clients, e, ground (arith, e, f), f, ground (arith, e, f))
        ]
      ]

  pub new_provider-IsNew :
      (cfg : OauthConfig) (manager : Option (List ApiKey)) (file : StoreFile) (p : Provider)
      → new_provider positive_duration cfg manager file ≡ made p
      → IsNew cfg file p
  unfolding new_provider
  new_provider-IsNew cfg manager file p h = elim (Option-cases manager) [
    | inl e ↦ ground (arith, e)
    | inr (keys, m) ↦ elim (Option-cases (positive_duration cfg.access_token_ttl)) [
      | inl e ↦ ground (arith, m, e)
      | inr (access, a) ↦ elim (Option-cases (positive_duration cfg.refresh_token_ttl)) [
        | inl e ↦ ground (arith, m, a, e)
        | inr (refresh, b) ↦ elim (Option-cases (positive_duration cfg.authorization_code_ttl)) [
          | inl e ↦ ground (arith, m, a, b, e)
          | inr (code, c) ↦
              let (principal, clients, configured, password, stored, same) =
                new_with-parts cfg keys file access refresh code p (ground (arith, m, a, b, c)) in
              rw same (record {
                clients = clients;
                principal = principal;
                enabled = ground (arith, m, a, b, c);
                key_long = ground (arith, m, a, b, c);
                config = refl;
                configured = configured;
                credentials = password;
                stored = stored;
                with_own = refl;
                no_codes = refl;
                access = a;
                refresh = b;
                code = c;
              })
        ]
      ]
    ]
  ]
