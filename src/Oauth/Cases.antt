-- ===== src/Oauth/Cases.antt =====
-- internal/oauth/oauth.go: the ways through the authorization and the token endpoint that change
-- the provider; all others leave it as it was.
use felsen_mcp_server_postgr.Base.{
  true, false, List, Option, none, some, ◌≡◌, ◌⊎◌, inl, inr, refl, if_cases, not, ◌||◌, arith, Text,
  text_eq, text_eq_iff, runes, Bool-cases, Option-cases, find, delete, put,
}
use felsen_mcp_server_postgr.Strings.{Unicode, trim_space}
use felsen_mcp_server_postgr.Guard.Tables.{is_empty}
use felsen_mcp_server_postgr.Authn.{Principal, principal_named}
use felsen_mcp_server_postgr.Oauth.{
  Provider, Library, AuthorizationCode, AuthorizationRequest, RegisteredClient, Request, World,
  Response, redirect, random_token,
}
use felsen_mcp_server_postgr.Oauth.Scopes.{
  redirect_allowed, client_of, is_approved, valid_redirect_uri, redirect_allowed_for_client,
  validate_scopes,
}
use felsen_mcp_server_postgr.Oauth.Authorize.{
  redirect_oauth_error, refuse_request, cleanup_codes, new_code, redirect_with_code,
  approve_request, authorize_values, authorize, validate_authorization_request, asked_request,
  requested_scopes, request_error, scope_error, unregistered_scope,
}
use felsen_mcp_server_postgr.Oauth.Issue.{
  redeem_code, exchange_authorization_code, grant_tokens, token_form, token,
}

module _ ⦃u : Unicode⦄ (lib : Library) (p : Provider) where
  -- A request that `validateAuthorizationRequest` lets pass.
  pub record IsValidRequest (values : Text → Text) (request : AuthorizationRequest) : Type 0 where
    pub client : RegisteredClient
    pub principal : Principal
    pub asked : request ≡ record (asked_request values) { scopes = requested_scopes p values }
    pub known : client_of p request.client_id ≡ some client
    pub named : is_empty request.client_id ≡ false
    pub uri_full : is_empty request.redirect_uri ≡ false
    pub uri_valid : valid_redirect_uri lib request.redirect_uri ≡ true
    pub uri_allowed : redirect_allowed_for_client client request.redirect_uri ≡ true
    pub challenged : is_empty request.code_challenge ≡ false
    pub configured : principal_named p.principals p.cfg.principal ≡ some principal
    pub registered : unregistered_scope client request.scopes ≡ none
    pub granted : validate_scopes lib request.scopes principal ≡ none

  request_error-none :
      (values : Text → Text) (request : AuthorizationRequest) (client : RegisteredClient)
      → request_error lib p values request client ≡ none
      → (is_empty request.redirect_uri ≡ false)
        × (valid_redirect_uri lib request.redirect_uri ≡ true)
        × (redirect_allowed_for_client client request.redirect_uri ≡ true)
        × (is_empty request.code_challenge ≡ false)
  unfolding request_error
  request_error-none values request client h = ground arith

  scope_error-none :
      (values : Text → Text) (client : RegisteredClient) (scopes : List Text)
      → scope_error lib p values client scopes ≡ none
      → (principal : Principal) × (principal_named p.principals p.cfg.principal ≡ some principal)
        × (unregistered_scope client scopes ≡ none)
        × (validate_scopes lib scopes principal ≡ none)
  unfolding scope_error
  scope_error-none values client scopes h =
      elim (Option-cases (principal_named p.principals p.cfg.principal)) [
        | inl e ↦ ground (arith, e)
        | inr (principal, e) ↦ (principal, e, ground (arith, e), ground (arith, e))
      ]

  pub validate_authorization_request-IsValidRequest :
      (values : Text → Text)
      → (validate_authorization_request lib p values).1 ≡ none
      → IsValidRequest values (validate_authorization_request lib p values).0
  unfolding validate_authorization_request
  validate_authorization_request-IsValidRequest values h =
      elim (Bool-cases (is_empty (asked_request values).client_id)) [
        | inl e ↦ ground (arith, e)
        | inr named ↦ elim (Option-cases (client_of p (asked_request values).client_id)) [
          | inl e ↦ ground (arith, named, e)
          | inr (client, known) ↦
              elim (Option-cases (request_error lib p values (asked_request values) client)) [
                | inr (x, e) ↦ ground (arith, named, known, e)
                | inl e ↦
                    let (full, valid, allowed, challenged) =
                      request_error-none values (asked_request values) client e in
                    let (principal, configured, registered, granted) =
                      scope_error-none values client (requested_scopes p values)
                        (ground (arith, named, known, e)) in
                    rw (named, known, e)
                      (record {
                        client = client;
                        principal = principal;
                        asked = refl;
                        known = known;
                        named = named;
                        uri_full = full;
                        uri_valid = valid;
                        uri_allowed = allowed;
                        challenged = challenged;
                        configured = configured;
                        registered = registered;
                        granted = granted;
                      })
              ]
        ]
      ]

-- The code that an answer sends to the browser.
abbrev pub sent_code : Response → Option Text
sent_code (redirect url params) = find params (runes "code")
sent_code _ = none

redirect_oauth_error-unsent :
    (lib : Library) (uri state code description : Text)
    → sent_code (redirect_oauth_error lib uri state code description) ≡ none
unfolding redirect_oauth_error find text_eq runes
redirect_oauth_error-unsent lib uri state code description =
    elim (Option-cases (lib.parse_url uri)) [
      | inl e ↦ rw (sent_code, redirect_oauth_error, e) refl
      | inr (url, e) ↦ elim (Bool-cases (is_empty state)) [
        | inl blank ↦ rw (sent_code, redirect_oauth_error, e, blank) refl
        | inr full ↦ rw (sent_code, redirect_oauth_error, e, full) refl
      ]
    ]

module _ ⦃u : Unicode⦄ (lib : Library) (world : World) (p : Provider) where
  -- The provider is as it was, and no code is sent.
  abbrev pub IsUnsent : Response × Provider → Type 0
  IsUnsent o = (o.1 ≡ p) × (sent_code o.0 ≡ none)

  refuse_request-unsent :
      (request : AuthorizationRequest) (error : Text)
      → sent_code (refuse_request lib world p request error) ≡ none
  unfolding refuse_request
  refuse_request-unsent request error =
      if_cases (λ answer. sent_code answer ≡ none)
        (is_empty request.client_id
          || is_empty request.redirect_uri
          || not (redirect_allowed p request.client_id request.redirect_uri))
        (λ _. refl)
        λ _.
          redirect_oauth_error-unsent lib request.redirect_uri request.state
            (runes "invalid_request") error

  authorize_values-IsUnsent :
      (values : Text → Text) → IsUnsent (authorize_values lib world p false values)
  unfolding authorize_values
  authorize_values-IsUnsent values =
      elim (Option-cases (validate_authorization_request lib p values).1) [
        | inl ok ↦ rw (authorize_values, ok) (refl, refl)
        | inr (error, bad) ↦
            rw (authorize_values, bad)
              (refl, refuse_request-unsent (validate_authorization_request lib p values).0 error)
      ]

  -- The login form is right and the user consents: a code is made.
  pub record IsApproval (values : Text → Text) (request : AuthorizationRequest) : Type 0 where
    pub value : Text
    pub username : values (runes "username") ≡ p.cfg.username
    pub password : values (runes "password") ≡ p.cfg.password
    pub consent : is_approved (values (runes "consent")) ≡ true
    pub random : random_token lib world.random ≡ some value
    pub result : approve_request lib world p values request ≡ (
      redirect_with_code lib request value,
      record p {
        codes = put (cleanup_codes world.now p.codes) value (new_code lib world p request);
      },
    )

  approve_request-cases :
      (values : Text → Text) (request : AuthorizationRequest)
      → IsUnsent (approve_request lib world p values request) ⊎ IsApproval values request
  unfolding approve_request
  approve_request-cases values request =
      elim (Bool-cases (text_eq (values (runes "username")) p.cfg.username)) [
        | inr e ↦ inl (rw e (refl, refl))
        | inl user ↦ elim (Bool-cases (text_eq (values (runes "password")) p.cfg.password)) [
          | inr e ↦ inl (rw (user, e) (refl, refl))
          | inl pass ↦ elim (Bool-cases (is_approved (values (runes "consent")))) [
            | inr e ↦ inl (
                rw (user, pass, e)
                  (refl, redirect_oauth_error-unsent lib request.redirect_uri request.state _ _))
            | inl agreed ↦ elim (Option-cases (random_token lib world.random)) [
              | inl e ↦ inl (rw (user, pass, agreed, e) (refl, refl))
              | inr (value, e) ↦ inr (record {
                value = value;
                username = (text_eq_iff _ _).0 user;
                password = (text_eq_iff _ _).0 pass;
                consent = agreed;
                random = e;
                result = rw (user, pass, agreed, e) refl;
              })
            ]
          ]
        ]
      ]

  -- A request that makes a code.
  pub record IsAuthorized (r : Request) : Type 0 where
    pub form : Text → Text
    pub request : AuthorizationRequest
    pub posted : r.method ≡ runes "POST"
    pub has_form : r.form ≡ some form
    pub valid : IsValidRequest lib p form request
    pub approval : IsApproval form request
    pub result : authorize lib world p r ≡ (
      redirect_with_code lib request approval.value,
      record p {
        codes = put (cleanup_codes world.now p.codes) approval.value (new_code lib world p request);
      },
    )

  pub authorize-cases : (r : Request) → IsUnsent (authorize lib world p r) ⊎ IsAuthorized r
  unfolding authorize authorize_values
  authorize-cases r = elim (Bool-cases (text_eq r.method (runes "GET"))) [
    | inl get ↦ inl (rw get (authorize_values-IsUnsent r.query))
    | inr get ↦ elim (Bool-cases (text_eq r.method (runes "POST"))) [
      | inr post ↦ inl (ground (arith, get, post), ground (arith, get, post))
      | inl post ↦ elim (Option-cases r.form) [
        | inl e ↦ inl (ground (arith, get, post, e), ground (arith, get, post, e))
        | inr (form, e) ↦ elim (Option-cases (validate_authorization_request lib p form).1) [
          | inr (x, bad) ↦ inl (
              rw (get, post, e, authorize_values, bad)
                (refl, refuse_request-unsent (validate_authorization_request lib p form).0 x))
          | inl ok ↦
              elim (approve_request-cases form (validate_authorization_request lib p form).0) [
                | inl same ↦ inl (rw (get, post, e, authorize_values, ok) same)
                | inr approval ↦ inr (record {
                  form = form;
                  request = (validate_authorization_request lib p form).0;
                  posted = (text_eq_iff _ _).0 post;
                  has_form = e;
                  valid = validate_authorization_request-IsValidRequest lib p form ok;
                  approval = approval;
                  result = rw (get, post, e, authorize_values, ok) approval.result;
                })
              ]
        ]
      ]
    ]
  ]

  -- A request that spends a code.
  pub record IsExchange (r : Request) : Type 0 where
    pub form : Text → Text
    pub client : RegisteredClient
    pub code : AuthorizationCode
    pub has_form : r.form ≡ some form
    pub known : client_of p (trim_space (form (runes "client_id"))) ≡ some client
    pub found : find p.codes (trim_space (form (runes "code"))) ≡ some code
    pub result : token lib world p r ≡ (
      redeem_code lib world
          (record p { codes = delete p.codes (trim_space (form (runes "code"))) })
          form
          client
          code,
      record p { codes = delete p.codes (trim_space (form (runes "code"))) },
    )

  exchange-cases :
      (form : Text → Text) (client : RegisteredClient)
      → ((exchange_authorization_code lib world p form client).1 ≡ p)
        ⊎ ((code : AuthorizationCode) × (find p.codes (trim_space (form (runes "code")))
              ≡ some code)
            × (exchange_authorization_code lib world p form client ≡ (
              redeem_code lib world
                  (record p { codes = delete p.codes (trim_space (form (runes "code"))) })
                  form
                  client
                  code,
              record p { codes = delete p.codes (trim_space (form (runes "code"))) },
            )))
  unfolding exchange_authorization_code
  exchange-cases form client = elim (Bool-cases (is_empty (trim_space (form (runes "code"))))) [
    | inl e ↦ inl (rw e refl)
    | inr full ↦ elim (Option-cases (find p.codes (trim_space (form (runes "code"))))) [
      | inl e ↦ inl (rw (full, e) refl)
      | inr (code, e) ↦ inr (code, e, rw (full, e) refl)
    ]
  ]

  grant-cases :
      (form : Text → Text) (client : RegisteredClient)
      → ((grant_tokens lib world p form client).1 ≡ p)
        ⊎ (grant_tokens lib world p form client
            ≡ exchange_authorization_code lib world p form client)
  unfolding grant_tokens
  grant-cases form client =
      elim (Bool-cases (text_eq (form (runes "grant_type")) (runes "authorization_code"))) [
        | inr e ↦ inl (ground (arith, e))
        | inl e ↦ elim (Bool-cases (is_empty (trim_space (form (runes "resource"))))) [
          | inl blank ↦ inr (rw (e, blank) refl)
          | inr full ↦
              elim (Bool-cases (text_eq (trim_space (form (runes "resource"))) p.cfg.resource)) [
                | inl own ↦ inr (rw (e, full, own) refl)
                | inr other ↦ inl (rw (full, other) refl)
              ]
        ]
      ]

  form-cases :
      (authorization : Text) (form : Text → Text)
      → ((token_form lib world p authorization form).1 ≡ p)
        ⊎ ((client : RegisteredClient) × (client_of p (trim_space (form (runes "client_id")))
              ≡ some client)
            × (token_form lib world p authorization form ≡ grant_tokens lib world p form client))
  unfolding token_form
  form-cases authorization form = elim (Bool-cases (is_empty authorization)) [
    | inr e ↦ inl (rw e refl)
    | inl empty ↦ elim (Option-cases (client_of p (trim_space (form (runes "client_id"))))) [
      | inl e ↦ inl (rw (empty, e) refl)
      | inr (client, known) ↦
          elim (Bool-cases (text_eq client.token_endpoint_auth_method (runes "none"))) [
            | inl public ↦ inr (client, known, rw (empty, known, public) refl)
            | inr e ↦ inl (rw (empty, known, e) refl)
          ]
    ]
  ]

  pub token-cases : (r : Request) → ((token lib world p r).1 ≡ p) ⊎ IsExchange r
  unfolding token
  token-cases r = elim (Bool-cases (text_eq r.method (runes "POST"))) [
    | inr e ↦ inl (rw e refl)
    | inl post ↦ elim (Option-cases r.form) [
      | inl e ↦ inl (rw (post, e) refl)
      | inr (form, e) ↦ elim (form-cases r.authorization form) [
        | inl same ↦ inl (rw (post, e) same)
        | inr (client, known, granted) ↦ elim (grant-cases form client) [
          | inl same ↦ inl (rw (post, e, granted) same)
          | inr exchange ↦ elim (exchange-cases form client) [
            | inl same ↦ inl (rw (post, e, granted, exchange) same)
            | inr (code, found, result) ↦ inr (record {
              form = form;
              client = client;
              code = code;
              has_form = e;
              known = known;
              found = found;
              result = rw (post, e, granted, exchange) result;
            })
          ]
        ]
      ]
    ]
  ]
