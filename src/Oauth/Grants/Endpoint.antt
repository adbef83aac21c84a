-- ===== src/Oauth/Grants/Endpoint.antt =====
-- internal/oauth/oauth.go: when the token endpoint issues tokens: the whole endpoint.
use felsen_mcp_server_postgr.Base.{
  true, false, some, ◌≡◌, ◌↔◌, ◌⊎◌, inl, inr, refl, arith, Text, text_eq, text_eq_iff, runes,
  Bool-cases, Option-cases,
}
use felsen_mcp_server_postgr.Strings.{Unicode, trim_space}
use felsen_mcp_server_postgr.Guard.Tables.{is_empty}
use felsen_mcp_server_postgr.Oauth.{
  Provider, Library, RegisteredClient, Request, World, TokenResponse, tokens,
}
use felsen_mcp_server_postgr.Oauth.Scopes.{client_of}
use felsen_mcp_server_postgr.Oauth.Issue.{
  exchange_authorization_code, exchange_refresh_token, grant_tokens, token_form, token,
}
use felsen_mcp_server_postgr.Oauth.Grants.{
  IsClientOf, IsRedeemed, IsRefreshed, exchange_authorization_code_iff, exchange_refresh_token_iff,
}

module _ ⦃u : Unicode⦄ (lib : Library) (world : World) (p : Provider) where
  grant_tokens-resource :
      (form : Text → Text) (client : RegisteredClient) (t : TokenResponse)
      → (grant_tokens lib world p form client).0 ≡ tokens t
      → (is_empty (trim_space (form (runes "resource"))) ≡ true)
        ⊎ (trim_space (form (runes "resource")) ≡ p.cfg.resource)
  unfolding grant_tokens
  grant_tokens-resource form client t h =
      ground (arith, text_eq_iff (trim_space (form (runes "resource"))) p.cfg.resource)

  token-IsClientOf :
      (r : Request) (form : Text → Text) (t : TokenResponse)
      → r.form ≡ some form
      → (token lib world p r).0 ≡ tokens t
      → (client : RegisteredClient) × IsClientOf lib world p r form client
        × ((grant_tokens lib world p form client).0 ≡ tokens t)
  unfolding token token_form
  token-IsClientOf r form t e h = elim (Bool-cases (text_eq r.method (runes "POST"))) [
    | inr get ↦ ground (arith, get)
    | inl post ↦ elim (Option-cases (client_of p (trim_space (form (runes "client_id"))))) [
      | inl unknown ↦ ground (arith, post, e, unknown)
      | inr (client, known) ↦
          let granted : (grant_tokens lib world p form client).0 ≡ tokens t =
            ground (arith, post, e, known) in
          (
            client,
            record {
              posted = (text_eq_iff _ _).0 post;
              unauthenticated = ground (arith, post, e);
              known = known;
              public = ground (
                arith,
                post,
                e,
                known,
                text_eq_iff client.token_endpoint_auth_method (runes "none"),
              );
              resource = grant_tokens-resource form client t granted;
            },
            granted,
          )
    ]
  ]

  pub token-granted :
      (r : Request) (form : Text → Text) (client : RegisteredClient)
      → r.form ≡ some form
      → IsClientOf lib world p r form client
      → token lib world p r ≡ grant_tokens lib world p form client
  unfolding token token_form
  token-granted r form client e c = ground (
    arith,
    c.posted,
    c.unauthenticated,
    c.known,
    text_eq_iff r.method (runes "POST"),
    text_eq_iff client.token_endpoint_auth_method (runes "none"),
  )

  pub grant_tokens-code :
      (r : Request) (form : Text → Text) (client : RegisteredClient) (t : TokenResponse)
      → form (runes "grant_type") ≡ runes "authorization_code"
      → IsClientOf lib world p r form client
      → grant_tokens lib world p form client ≡ exchange_authorization_code lib world p form client
  unfolding grant_tokens
  grant_tokens-code r form client t g c = ground (
    arith,
    c.resource,
    text_eq_iff (form (runes "grant_type")) (runes "authorization_code"),
    text_eq_iff (trim_space (form (runes "resource"))) p.cfg.resource,
  )

  not_code : text_eq (runes "refresh_token") (runes "authorization_code") ≡ false
  unfolding runes text_eq
  not_code = refl

  grant_tokens-refresh :
      (r : Request) (form : Text → Text) (client : RegisteredClient) (t : TokenResponse)
      → form (runes "grant_type") ≡ runes "refresh_token"
      → IsClientOf lib world p r form client
      → grant_tokens lib world p form client ≡ (exchange_refresh_token lib world p form client, p)
  unfolding grant_tokens
  grant_tokens-refresh r form client t g c = ground (
    arith,
    c.resource,
    not_code,
    text_eq_iff (form (runes "grant_type")) (runes "refresh_token"),
    text_eq_iff (form (runes "grant_type")) (runes "authorization_code"),
    text_eq_iff (trim_space (form (runes "resource"))) p.cfg.resource,
  )

module _ ⦃u : Unicode⦄ (lib : Library) (world : World) (p : Provider) where
  -- For the grant `authorization_code`, the token endpoint issues tokens exactly if the request is
  -- a POST without an `Authorization` header, of a known public client and for no other resource,
  -- and its code is held, is the client's, has not expired, and comes with no other redirect URI
  -- and with the verifier of its challenge, while the server still allows its principal its
  -- scopes.
  pub token-code_iff :
      (r : Request) (form : Text → Text) (t : TokenResponse)
      → r.form ≡ some form
      → form (runes "grant_type") ≡ runes "authorization_code"
      → ((token lib world p r).0 ≡ tokens t) ↔ (
          (client : RegisteredClient) × IsClientOf lib world p r form client
          × IsRedeemed lib world p form client t)
  token-code_iff r form t e g = (
    λ h.
        let (client, c, granted) = token-IsClientOf lib world p r form t e h in
        (
          client,
          c,
          (exchange_authorization_code_iff lib world p form client t).0
              (rw (grant_tokens-code lib world p r form client t g c) at granted),
        ),
    λ (client, c, i).
        rw
          (
            token-granted lib world p r form client e c,
            grant_tokens-code lib world p r form client t g c,
          )
          ((exchange_authorization_code_iff lib world p form client t).1 i),
  )

  -- For the grant `refresh_token`, the token endpoint issues tokens exactly if the request is a
  -- POST without an `Authorization` header, of a known public client and for no other resource,
  -- and the refresh token is one that verifies, names the configured principal, this resource and
  -- this client; the new tokens have its scopes, which the principal must still be allowed.
  pub token-refresh_iff :
      (r : Request) (form : Text → Text) (t : TokenResponse)
      → r.form ≡ some form
      → form (runes "grant_type") ≡ runes "refresh_token"
      → ((token lib world p r).0 ≡ tokens t) ↔ (
          (client : RegisteredClient) × IsClientOf lib world p r form client
          × IsRefreshed lib world p form client t)
  token-refresh_iff r form t e g = (
    λ h.
        let (client, c, granted) = token-IsClientOf lib world p r form t e h in
        (
          client,
          c,
          (exchange_refresh_token_iff lib world p form client t).0
              (rw (grant_tokens-refresh lib world p r form client t g c) at granted),
        ),
    λ (client, c, i).
        rw
          (
            token-granted lib world p r form client e c,
            grant_tokens-refresh lib world p r form client t g c,
          )
          ((exchange_refresh_token_iff lib world p form client t).1 i),
  )
