-- ===== src/Config/Start.antt =====
-- internal/config/config.go with internal/authn/authn.go and internal/oauth/oauth.go: a loaded
-- configuration starts the OAuth server.
use felsen_mcp_server_postgr.Base.{
  ℕ, ltb, Bool, true, false, not, ◌&&◌, ◌||◌, List, [], ◌∷◌, none, some, ◌≡◌, refl, ap, inl, inr,
  arith, Text, text_eq, Bool-cases, Option-cases, Entries, put,
}
use felsen_mcp_server_postgr.Strings.{Unicode, trim_space, utf8_length}
use felsen_mcp_server_postgr.Guard.Statement.{is_nil}
use felsen_mcp_server_postgr.Guard.Tables.{is_empty}
use felsen_mcp_server_postgr.Guard.Tables.Unique.{is_empty_iff}
use felsen_mcp_server_postgr.Authn.{
  ApiKeyConfig, ApiKey, Manager, Principal, accepted, new_manager, principal_named, clone_principal,
}
use felsen_mcp_server_postgr.Authn.Keys.{AreKeysOf, new_manager-AreKeysOf}
use felsen_mcp_server_postgr.Config.Model.{OauthConfig, Config, ParsedUrl, System}
use felsen_mcp_server_postgr.Config.Check.{
  has_duration, is_origin, check_origin, validate_oauth_origin, key_named, check_principal,
  check_oauth, origin_invalid, origin_wildcard,
}
use felsen_mcp_server_postgr.Config.Validate.{check_oauth_if_enabled, loaded, load}
use felsen_mcp_server_postgr.Config.Switches.{load-parts}
use felsen_mcp_server_postgr.Config.Limits.{
  first_error-none, refuse_if-none, validate_config-HasPassed,
}
use felsen_mcp_server_postgr.Config.Keys.{full_trimmed}
use felsen_mcp_server_postgr.Oauth.{Provider, RegisteredClient}
use felsen_mcp_server_postgr.Oauth.Server.{
  StoreFile, made, stored_clients, configured_client, new_with, new_provider,
}

module _ ⦃u : Unicode⦄ (sys : System) where
  -- What `New` asks of the configuration.
  pub record IsReady (keys : List ApiKeyConfig) (o : OauthConfig) : Type 0 where
    pub owner : ApiKeyConfig
    pub access : ℕ
    pub refresh : ℕ
    pub code : ℕ
    pub issuer : is_empty (trim_space o.issuer) ≡ false
    pub resource : is_empty (trim_space o.resource) ≡ false
    pub key_full : is_empty (trim_space o.signing_key) ≡ false
    pub key_long : ltb (utf8_length o.signing_key) 32 ≡ false
    pub username : is_empty (trim_space o.username) ≡ false
    pub password : is_empty o.password ≡ false
    pub client_id : is_empty (trim_space o.client_id) ≡ false
    pub principal : key_named keys o.principal ≡ some owner
    pub redirects : is_nil o.redirect_uris ≡ false
    pub access_ttl : sys.positive_duration o.access_token_ttl ≡ some access
    pub refresh_ttl : sys.positive_duration o.refresh_token_ttl ≡ some refresh
    pub code_ttl : sys.positive_duration o.authorization_code_ttl ≡ some code

  has_duration-found :
      (value : Text)
      → has_duration sys value ≡ true
      → (d : ℕ) × (sys.positive_duration value ≡ some d)
  unfolding has_duration
  has_duration-found value h = elim (Option-cases (sys.positive_duration value)) [
    | inl e ↦ ground (arith, e)
    | inr found ↦ found
  ]

  -- `url.Parse` of the empty text has no scheme.
  abbrev pub HasNoScheme : Type 0
  HasNoScheme = (url : ParsedUrl) → sys.parse_url [] ≡ some url → url.scheme ≡ []

  no_url : ¬ (check_origin none origin_invalid origin_wildcard ≡ none)
  unfolding check_origin
  no_url h = cc

  check_origin-scheme :
      (url : ParsedUrl)
      → check_origin (some url) origin_invalid origin_wildcard ≡ none
      → is_empty url.scheme ≡ false
  unfolding check_origin is_origin
  check_origin-scheme url h = ground arith

  origin-full :
      (value : Text)
      → HasNoScheme
      → validate_oauth_origin sys value ≡ none
      → is_empty (trim_space value) ≡ false
  unfolding validate_oauth_origin
  origin-full value empty h = elim (Bool-cases (is_empty (trim_space value))) [
    | inr e ↦ e
    | inl e ↦
        let blank : trim_space value ≡ [] = (is_empty_iff (trim_space value)).0 e in
        elim (Option-cases (sys.parse_url (trim_space value))) [
          | inl f ↦ absurd (no_url (rw f at h))
          | inr (url, f) ↦
              let scheme = check_origin-scheme url (rw f at h) in
              cc (ap is_empty (empty url (rw blank at f)), scheme)
        ]
  ]

  three_hold : (a b c : Bool) → not (a && b && c) ≡ false → (a ≡ true) × (b ≡ true) × (c ≡ true)
  three_hold a b c h = ground arith

  either_fails : (a b : Bool) → (a || b) ≡ false → (a ≡ false) × (b ≡ false)
  either_fails a b h = ground arith

  check_principal-parts :
      (keys : List ApiKeyConfig) (o : OauthConfig)
      → check_principal sys keys o ≡ none
      → (owner : ApiKeyConfig) × (key_named keys o.principal ≡ some owner)
        × (is_nil o.redirect_uris ≡ false)
        × (has_duration sys o.access_token_ttl ≡ true)
        × (has_duration sys o.refresh_token_ttl ≡ true)
        × (has_duration sys o.authorization_code_ttl ≡ true)
  unfolding check_principal
  check_principal-parts keys o h = elim (Option-cases (key_named keys o.principal)) [
    | inl e ↦ ground (arith, e)
    | inr (owner, e) ↦
        let (redirects, (_, (_, (_, (durations, _))))) =
          first_error-none _ (rw (check_principal, e) at h) in
        let (access, refresh, code) = three_hold _ _ _ (refuse_if-none _ _ durations) in
        (owner, e, refuse_if-none _ _ redirects, access, refresh, code)
  ]

  check_oauth-IsReady :
      (url : Text) (keys : List ApiKeyConfig) (o : OauthConfig)
      → HasNoScheme
      → check_oauth sys url keys o ≡ none
      → IsReady keys o
  unfolding check_oauth
  check_oauth-IsReady url keys o empty h =
      let (
        issuer,
        (
          resource,
          (_, (key_full, (_, (key_long, (username, (password, (_, (client, (principal, _))))))))),
        ),
      ) =
        first_error-none _ h in
      let (owner, named, redirects, a, r, c) = check_principal-parts keys o principal in
      let (access, a_is) = has_duration-found o.access_token_ttl a in
      let (refresh, r_is) = has_duration-found o.refresh_token_ttl r in
      let (code, c_is) = has_duration-found o.authorization_code_ttl c in
      record {
        owner = owner;
        access = access;
        refresh = refresh;
        code = code;
        issuer = origin-full o.issuer empty issuer;
        resource = origin-full o.resource empty resource;
        key_full = refuse_if-none _ _ key_full;
        key_long = refuse_if-none _ _ key_long;
        username = refuse_if-none _ _ username;
        password = full_trimmed o.password (refuse_if-none _ _ password);
        client_id = (either_fails _ _ (refuse_if-none _ _ client)).0;
        principal = named;
        redirects = redirects;
        access_ttl = a_is;
        refresh_ttl = r_is;
        code_ttl = c_is;
      }

  AreKeysOf-named :
      (sha256_hex : Text → Text) (cfgs : List ApiKeyConfig) (keys : List ApiKey) (name : Text)
      (owner : ApiKeyConfig)
      → AreKeysOf sha256_hex cfgs keys
      → key_named cfgs name ≡ some owner
      → (p : Principal) × (principal_named keys name ≡ some p)
  unfolding key_named principal_named
  AreKeysOf-named sha256_hex [] keys name owner a h = cc
  AreKeysOf-named sha256_hex (cfg ∷ cfgs) [] name owner a h = absurd a
  AreKeysOf-named sha256_hex (cfg ∷ cfgs) (key ∷ keys) name owner a h =
      elim (Bool-cases (text_eq cfg.name name)) [
        | inl e ↦ (clone_principal key.principal, rw (a.0.name, e) refl)
        | inr e ↦ elim (Option-cases (key_named cfgs name)) [
          | inl f ↦ ground (arith, e, f)
          | inr (found, f) ↦
              let (p, g) = AreKeysOf-named sha256_hex cfgs keys name found a.1 f in
              (p, rw (a.0.name, e) g)
        ]
      ]

  IsReady-new_with :
      (keys : List ApiKeyConfig) (made_keys : List ApiKey) (o : OauthConfig) (file : StoreFile)
      (clients : Entries RegisteredClient) (principal : Principal) (access refresh code : ℕ)
      → IsReady keys o
      → principal_named made_keys (trim_space o.principal) ≡ some principal
      → stored_clients sys.positive_duration o file ≡ some clients
      → (p : Provider) × (new_with sys.positive_duration o made_keys file access refresh code
          ≡ made p)
  unfolding new_with
  IsReady-new_with keys made_keys o file clients principal access refresh code r named stored = (
    record {
      cfg = o;
      principals = made_keys;
      clients = put clients o.client_id (configured_client o);
      codes = [];
      access_ttl = access;
      refresh_ttl = refresh;
      code_ttl = code;
    },
    rw (new_with, named, r.username, r.password, r.client_id, r.redirects, stored) refl,
  )

  IsReady-new_provider :
      (keys : List ApiKeyConfig) (made_keys : List ApiKey) (o : OauthConfig) (file : StoreFile)
      (clients : Entries RegisteredClient) (principal : Principal)
      → o.enabled ≡ true
      → IsReady keys o
      → principal_named made_keys (trim_space o.principal) ≡ some principal
      → stored_clients sys.positive_duration o file ≡ some clients
      → (p : Provider) × (new_provider sys.positive_duration o (some made_keys) file ≡ made p)
  unfolding new_provider
  IsReady-new_provider keys made_keys o file clients principal on r named stored =
      let (p, e) =
        IsReady-new_with keys made_keys o file clients principal r.access r.refresh r.code r named
          stored in
      (
        p,
        rw
            (
              on, r.key_full, r.key_long, r.issuer, r.resource, r.access_ttl, r.refresh_ttl,
              r.code_ttl,
            )
            e,
      )

  check_oauth_enabled :
      (cfg : Config)
      → cfg.oauth.enabled ≡ true
      → check_oauth_if_enabled sys cfg ≡ none
      → check_oauth sys cfg.server.public_base_url cfg.api_keys cfg.oauth ≡ none
  unfolding check_oauth_if_enabled
  check_oauth_enabled cfg on h = ground (arith, on)

  -- A configuration that `Load` returns starts the OAuth server, if OAuth is enabled in it, the
  -- manager is the one of its keys, the name of the principal has no white space around it, the
  -- stored clients can be loaded, and the empty text parses to no URL with a scheme.
  pub load-new_provider :
      (sha256_hex : Text → Text) (decoded cfg : Config) (m : Manager) (file : StoreFile)
      (clients : Entries RegisteredClient)
      → load sys decoded ≡ loaded cfg
      → new_manager sha256_hex cfg.api_keys ≡ accepted m
      → cfg.oauth.enabled ≡ true
      → trim_space cfg.oauth.principal ≡ cfg.oauth.principal
      → stored_clients sys.positive_duration cfg.oauth file ≡ some clients
      → HasNoScheme
      → (p : Provider) × (new_provider sys.positive_duration cfg.oauth (some m.keys) file ≡ made p)
  load-new_provider sha256_hex decoded cfg m file clients h manager on trimmed stored empty =
      let passed = validate_config-HasPassed sys cfg ((load-parts sys decoded cfg h).1) in
      let ready =
        check_oauth-IsReady cfg.server.public_base_url cfg.api_keys cfg.oauth empty
          (check_oauth_enabled cfg on passed.oauth) in
      let (_, keys) = new_manager-AreKeysOf sha256_hex cfg.api_keys m manager in
      let (principal, named) =
        AreKeysOf-named sha256_hex cfg.api_keys m.keys cfg.oauth.principal ready.owner keys
          ready.principal in
      IsReady-new_provider cfg.api_keys m.keys cfg.oauth file clients principal on ready
        (rw trimmed named) stored
