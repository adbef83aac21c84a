-- ===== src/Oauth/Redirects.antt =====
-- internal/oauth/oauth.go: where the authorization endpoint sends the browser.
use felsen_mcp_server_postgr.Base.{
  Bool, true, false, List, [], ◌∷◌, some, ◌≡◌, ◌≢◌, ◌⊎◌, inl, inr, refl, arith, Text, text_eq,
  text_eq_iff, runes, Bool-cases, Option-cases,
}
use felsen_mcp_server_postgr.Strings.{Unicode, trim_space}
use felsen_mcp_server_postgr.Strings.Laws.{trim_space_idem}
use felsen_mcp_server_postgr.Guard.Tables.Unique.{In}
use felsen_mcp_server_postgr.Config.Model.{ParsedUrl}
use felsen_mcp_server_postgr.Oauth.{
  Provider, Library, RegisteredClient, AuthorizationRequest, Request, World, redirect, panicked,
  random_token,
}
use felsen_mcp_server_postgr.Oauth.Scopes.{
  contains, client_of, redirect_allowed, redirect_allowed_for_client, valid_redirect_uri,
}
use felsen_mcp_server_postgr.Oauth.Authorize.{
  asked_request, redirect_oauth_error, redirect_with_code, refuse_request, approve_request,
  authorize_values, authorize, validate_authorization_request,
}
use felsen_mcp_server_postgr.Oauth.Cases.{validate_authorization_request-IsValidRequest}

contains→In :
    (values : List Text) (wanted : Text) → contains values wanted ≡ true → In wanted values
unfolding contains
contains→In [] wanted h = cc
contains→In (v ∷ values) wanted h = ground (arith, text_eq_iff v wanted, contains→In values wanted)

module _ ⦃u : Unicode⦄ (lib : Library) (p : Provider) where
  -- A URL is one that the client of the request has registered.
  abbrev pub IsRegisteredUrl : (Text → Text) → ParsedUrl → Type 0
  IsRegisteredUrl values url =
      (client : RegisteredClient) × (client_of p (trim_space (values (runes "client_id")))
        ≡ some client)
      × In (trim_space (values (runes "redirect_uri"))) client.redirect_uris
      × (lib.parse_url (trim_space (values (runes "redirect_uri"))) ≡ some url)

  redirect_oauth_error-url :
      (uri state code description : Text) (url : ParsedUrl) (params : List (Text × Text))
      → redirect_oauth_error lib uri state code description ≡ redirect url params
      → lib.parse_url uri ≡ some url
  unfolding redirect_oauth_error
  redirect_oauth_error-url uri state code description url params h = ground arith

  redirect_with_code-url :
      (request : AuthorizationRequest) (code : Text) (url : ParsedUrl) (params : List (Text × Text))
      → redirect_with_code lib request code ≡ redirect url params
      → lib.parse_url request.redirect_uri ≡ some url
  unfolding redirect_with_code
  redirect_with_code-url request code url params h = ground arith

module _ ⦃u : Unicode⦄ (lib : Library) (world : World) (p : Provider) where
  refuse_request-url :
      (request : AuthorizationRequest) (error : Text) (url : ParsedUrl)
      (params : List (Text × Text))
      → refuse_request lib world p request error ≡ redirect url params
      → (redirect_allowed p request.client_id request.redirect_uri ≡ true)
        × (lib.parse_url request.redirect_uri ≡ some url)
  unfolding refuse_request
  refuse_request-url request error url params h = ground (
    arith,
    redirect_oauth_error-url lib p request.redirect_uri request.state (runes "invalid_request")
        error url params,
  )

  approve_request-url :
      (values : Text → Text) (request : AuthorizationRequest) (url : ParsedUrl)
      (params : List (Text × Text))
      → (approve_request lib world p values request).0 ≡ redirect url params
      → lib.parse_url request.redirect_uri ≡ some url
  unfolding approve_request redirect_oauth_error redirect_with_code
  approve_request-url values request url params h = ground arith

  redirect_allowed-In :
      (id uri : Text)
      → redirect_allowed p id uri ≡ true
      → (client : RegisteredClient) × (client_of p id ≡ some client) × In uri client.redirect_uris
  unfolding redirect_allowed redirect_allowed_for_client
  redirect_allowed-In id uri h = elim (Option-cases (client_of p id)) [
    | inl e ↦ ground (arith, e)
    | inr (client, e) ↦ (client, e, contains→In client.redirect_uris uri (ground (arith, e)))
  ]

  redirect_allowed_for_client-In :
      (client : RegisteredClient) (uri : Text)
      → redirect_allowed_for_client client uri ≡ true
      → In uri client.redirect_uris
  unfolding redirect_allowed_for_client
  redirect_allowed_for_client-In client uri h = contains→In client.redirect_uris uri h

  validate-asked :
      (values : Text → Text)
      → ((validate_authorization_request lib p values).0.client_id
          ≡ trim_space (values (runes "client_id")))
        × ((validate_authorization_request lib p values).0.redirect_uri
            ≡ trim_space (values (runes "redirect_uri")))
  unfolding validate_authorization_request asked_request
  validate-asked values = ground arith

  authorize_values-url :
      (posted : Bool) (values : Text → Text) (url : ParsedUrl) (params : List (Text × Text))
      → (authorize_values lib world p posted values).0 ≡ redirect url params
      → IsRegisteredUrl lib p values url
  unfolding authorize_values
  authorize_values-url posted values url params h =
      let request = (validate_authorization_request lib p values).0 in
      let (same_id, same_uri) = validate-asked values in
      elim (Option-cases (validate_authorization_request lib p values).1) [
        | inr (error, e) ↦
            let (allowed, parsed) =
              refuse_request-url request error url params (rw (authorize_values, e) at h) in
            let (client, known, registered) =
              redirect_allowed-In request.client_id request.redirect_uri allowed in
            (client, rw same_id at known, rw same_uri at registered, rw same_uri at parsed)
        | inl e ↦
            let valid = validate_authorization_request-IsValidRequest lib p values e in
            let parsed : lib.parse_url request.redirect_uri ≡ some url =
              ground (arith, e, approve_request-url values request url params) in
            (
              valid.client,
              rw same_id at valid.known,
              rw same_uri at (
                  redirect_allowed_for_client-In valid.client request.redirect_uri
                    valid.uri_allowed),
              rw same_uri at parsed,
            )
      ]

  -- The values that the authorization endpoint reads: the query of a GET and the form of a POST.
  abbrev pub Reads : Request → (Text → Text) → Type 0
  Reads r values =
      ((r.method ≡ runes "GET") × (values ≡ r.query))
      ⊎ ((r.method ≡ runes "POST") × (r.form ≡ some values))

  -- The authorization endpoint sends the browser to no URL but that of a redirect URI that the
  -- request names and that its client, which is known, has registered: also with an error.
  pub authorize-IsRegisteredUrl :
      (r : Request) (url : ParsedUrl) (params : List (Text × Text))
      → (authorize lib world p r).0 ≡ redirect url params
      → (values : Text → Text) × Reads r values × IsRegisteredUrl lib p values url
  unfolding authorize
  authorize-IsRegisteredUrl r url params h = elim (Bool-cases (text_eq r.method (runes "GET"))) [
    | inl get ↦ (
      r.query,
      inl ((text_eq_iff r.method (runes "GET")).0 get, refl),
      authorize_values-url false r.query url params (rw get at h),
    )
    | inr get ↦ elim (Bool-cases (text_eq r.method (runes "POST"))) [
      | inr post ↦ ground (arith, get, post)
      | inl post ↦ elim (Option-cases r.form) [
        | inl e ↦ ground (arith, get, post, e)
        | inr (form, e) ↦ (
          form,
          inr ((text_eq_iff r.method (runes "POST")).0 post, e),
          authorize_values-url true form url params (rw (get, post, e) at h),
        )
      ]
    ]
  ]

  valid_redirect_uri-parses :
      (uri : Text)
      → valid_redirect_uri lib uri ≡ true
      → (url : ParsedUrl) × (lib.parse_url (trim_space uri) ≡ some url)
  unfolding valid_redirect_uri
  valid_redirect_uri-parses uri h = elim (Option-cases (lib.parse_url (trim_space uri))) [
    | inl e ↦ ground (arith, e)
    | inr found ↦ found
  ]

  redirect_with_code-parsed :
      (request : AuthorizationRequest) (code : Text) (url : ParsedUrl)
      → lib.parse_url request.redirect_uri ≡ some url
      → redirect_with_code lib request code ≢ panicked
  unfolding redirect_with_code
  redirect_with_code-parsed request code url e h = ground arith

  approve_request-parsed :
      (values : Text → Text) (request : AuthorizationRequest) (url : ParsedUrl)
      → lib.parse_url request.redirect_uri ≡ some url
      → (approve_request lib world p values request).0 ≢ panicked
  unfolding approve_request redirect_oauth_error
  approve_request-parsed values request url e h =
      elim (Option-cases (random_token lib world.random)) [
        | inl none_drawn ↦ ground (arith, none_drawn)
        | inr (code, drawn) ↦ ground (arith, drawn, redirect_with_code-parsed request code url e)
      ]

  refuse_request-answers :
      (request : AuthorizationRequest) (error : Text)
      → refuse_request lib world p request error ≢ panicked
  unfolding refuse_request redirect_oauth_error
  refuse_request-answers request error h = ground arith

  authorize_values-answers :
      (posted : Bool) (values : Text → Text)
      → (authorize_values lib world p posted values).0 ≢ panicked
  unfolding authorize_values
  authorize_values-answers posted values h =
      let request = (validate_authorization_request lib p values).0 in
      elim (Option-cases (validate_authorization_request lib p values).1) [
        | inr (error, e) ↦ ground (arith, e, refuse_request-answers request error)
        | inl e ↦
            let valid = validate_authorization_request-IsValidRequest lib p values e in
            let (url, parsed) = valid_redirect_uri-parses request.redirect_uri valid.uri_valid in
            let uri_trimmed : trim_space request.redirect_uri ≡ request.redirect_uri =
              rw ((validate-asked values).1) (trim_space_idem (values (runes "redirect_uri"))) in
            let same : lib.parse_url request.redirect_uri ≡ some url = rw uri_trimmed at parsed in
            ground (arith, e, approve_request-parsed values request url same)
      ]

  -- The authorization endpoint never uses a URL that was not parsed, although it ignores the
  -- error of the parser: the checks before have parsed the same text.
  pub authorize-answers : (r : Request) → (authorize lib world p r).0 ≢ panicked
  unfolding authorize
  authorize-answers r h = elim (Option-cases r.form) [
    | inl e ↦ ground (arith, e, authorize_values-answers false r.query)
    | inr (form, e) ↦
        ground
          (arith, e, authorize_values-answers false r.query, authorize_values-answers true form)
  ]
