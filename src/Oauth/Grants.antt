-- ===== src/Oauth/Grants.antt =====
-- internal/oauth/oauth.go: when the token endpoint issues tokens: the two exchanges.
pub mod Endpoint
use felsen_mcp_server_postgr.Base.{
  ltb, Bool, true, false, not, ◌&&◌, ◌||◌, List, [], ◌∷◌, Option, none, some, ◌≡◌, ◌≢◌, ◌↔◌, ◌⊎◌,
  inl, inr, refl, arith, Text, text_eq, text_eq_iff, text_eq_refl, runes, Bool-cases, Option-cases,
  Entries, find, delete,
}
use felsen_mcp_server_postgr.Strings.{Unicode, trim_space}
use felsen_mcp_server_postgr.Guard.Tables.{is_empty}
use felsen_mcp_server_postgr.Authn.{Principal, principal_named}
use felsen_mcp_server_postgr.Oauth.{
  Provider, Library, AuthorizationCode, RegisteredClient, Request, World, TokenResponse,
  TokenClaims, tokens, refresh_token_type,
}
use felsen_mcp_server_postgr.Oauth.Scopes.{client_of, validate_scopes, parse_scopes}
use felsen_mcp_server_postgr.Oauth.Issue.{
  new_claims, new_tokens, issue_token_response, verify_pkce, verify_token, redeem_code,
  exchange_authorization_code, exchange_refresh_token, grant_tokens, token_form, token,
}

module _ ⦃u : Unicode⦄ (lib : Library) (world : World) (p : Provider) where
  -- Tokens for the scopes of a principal that the server still has and still allows them.
  pub record IsIssued (client_id name : Text) (scopes : List Text) (t : TokenResponse)
      : Type 0 where
    pub principal : Principal
    pub configured : principal_named p.principals name ≡ some principal
    pub allowed : validate_scopes lib scopes principal ≡ none
    pub answer : new_tokens lib world p client_id principal name scopes ≡ t

  issue_token_response_iff :
      (client_id name : Text) (scopes : List Text) (t : TokenResponse)
      → (issue_token_response lib world p client_id name scopes ≡ tokens t)
        ↔ IsIssued client_id name scopes t
  unfolding issue_token_response
  issue_token_response_iff client_id name scopes t = (
    λ h. elim (Option-cases (principal_named p.principals name)) [
      | inl e ↦ ground (arith, e)
      | inr (principal, e) ↦ record {
        principal = principal;
        configured = e;
        allowed = ground (arith, e);
        answer = ground (arith, e);
      }
    ],
    λ i. ground (arith, i.configured, i.allowed, i.answer),
  )

  -- The client of the form, which has to be known, public and without a header of its own.
  pub record IsClientOf (r : Request) (form : Text → Text) (client : RegisteredClient)
      : Type 0 where
    pub posted : r.method ≡ runes "POST"
    pub unauthenticated : is_empty r.authorization ≡ true
    pub known : client_of p (trim_space (form (runes "client_id"))) ≡ some client
    pub public : client.token_endpoint_auth_method ≡ runes "none"
    pub resource :
        (is_empty (trim_space (form (runes "resource"))) ≡ true)
        ⊎ (trim_space (form (runes "resource")) ≡ p.cfg.resource)

  -- A code that is there, belongs to the client, has not expired and comes with its verifier.
  pub record IsRedeemed (form : Text → Text) (client : RegisteredClient) (t : TokenResponse)
      : Type 0 where
    pub code : AuthorizationCode
    pub full : is_empty (trim_space (form (runes "code"))) ≡ false
    pub found : find p.codes (trim_space (form (runes "code"))) ≡ some code
    pub unexpired : ltb code.expires_at world.now ≡ false
    pub own : code.client_id ≡ client.client_id
    pub redirect :
        (is_empty (trim_space (form (runes "redirect_uri"))) ≡ true)
        ⊎ (trim_space (form (runes "redirect_uri")) ≡ code.redirect_uri)
    pub verified :
        verify_pkce lib (trim_space (form (runes "code_verifier"))) code.code_challenge ≡ true
    pub issued : IsIssued client.client_id code.principal code.scopes t

  issued_elsewhere :
      (codes : Entries AuthorizationCode) (client_id name : Text) (scopes : List Text)
      (t : TokenResponse)
      → (issue_token_response lib world (record p { codes = codes }) client_id name scopes
          ≡ tokens t)
        ↔ (issue_token_response lib world p client_id name scopes ≡ tokens t)
  unfolding issue_token_response new_tokens new_claims
  issued_elsewhere codes client_id name scopes t = (λ h. h, λ h. h)

module _ ⦃u : Unicode⦄ (lib : Library) (world : World) (p : Provider) where
  redeem_code_iff :
      (codes : Entries AuthorizationCode) (form : Text → Text) (client : RegisteredClient)
      (code : AuthorizationCode) (t : TokenResponse)
      → (redeem_code lib world (record p { codes = codes }) form client code ≡ tokens t) ↔ (
          (ltb code.expires_at world.now ≡ false)
          × (code.client_id ≡ client.client_id)
          × ((is_empty (trim_space (form (runes "redirect_uri"))) ≡ true)
              ⊎ (trim_space (form (runes "redirect_uri")) ≡ code.redirect_uri))
          × (verify_pkce lib (trim_space (form (runes "code_verifier"))) code.code_challenge ≡ true)
          × (issue_token_response lib world p client.client_id code.principal code.scopes
              ≡ tokens t))
  unfolding redeem_code
  redeem_code_iff codes form client code t = ground (
    arith,
    issued_elsewhere lib world p codes client.client_id code.principal code.scopes t,
    text_eq_iff code.client_id client.client_id,
    text_eq_iff (trim_space (form (runes "redirect_uri"))) code.redirect_uri,
  )

  pub exchange_authorization_code_iff :
      (form : Text → Text) (client : RegisteredClient) (t : TokenResponse)
      → ((exchange_authorization_code lib world p form client).0 ≡ tokens t)
        ↔ IsRedeemed lib world p form client t
  unfolding exchange_authorization_code
  exchange_authorization_code_iff form client t = (
    λ h. elim (Bool-cases (is_empty (trim_space (form (runes "code"))))) [
      | inl e ↦ ground (arith, e)
      | inr full ↦ elim (Option-cases (find p.codes (trim_space (form (runes "code"))))) [
        | inl e ↦ ground (arith, full, e)
        | inr (code, found) ↦
            let (fresh, own, redirect, verified, issued) =
              (redeem_code_iff (delete p.codes (trim_space (form (runes "code")))) form client code
                  t).0
                (rw (full, found) at h) in
            record {
              code = code;
              full = full;
              found = found;
              unexpired = fresh;
              own = own;
              redirect = redirect;
              verified = verified;
              issued =
                  (issue_token_response_iff lib world p client.client_id code.principal code.scopes
                      t).0
                    issued;
            }
      ]
    ],
    λ i.
        rw (i.full, i.found)
          ((redeem_code_iff (delete p.codes (trim_space (form (runes "code")))) form client i.code
              t).1
            (
              i.unexpired,
              i.own,
              i.redirect,
              i.verified,
              (issue_token_response_iff lib world p client.client_id i.code.principal i.code.scopes
                    t).1
                  i.issued,
            )),
  )

  -- A refresh token that this server signed for the client, its principal and its resource.
  pub record IsRefreshed (form : Text → Text) (client : RegisteredClient) (t : TokenResponse)
      : Type 0 where
    pub claims : TokenClaims
    pub signed :
        verify_token lib p world.now (trim_space (form (runes "refresh_token"))) refresh_token_type
        ≡ some claims
    pub subject : claims.subject ≡ p.cfg.principal
    pub subject_full : is_empty claims.subject ≡ false
    pub audience : claims.audience ≡ p.cfg.resource
    pub own : claims.client_id ≡ client.client_id
    pub issued : IsIssued lib world p client.client_id claims.subject (parse_scopes claims.scope) t

  pub exchange_refresh_token_iff :
      (form : Text → Text) (client : RegisteredClient) (t : TokenResponse)
      → (exchange_refresh_token lib world p form client ≡ tokens t) ↔ IsRefreshed form client t
  unfolding exchange_refresh_token
  exchange_refresh_token_iff form client t = (
    λ h.
        elim (Option-cases (
          verify_token lib p world.now (trim_space (form (runes "refresh_token")))
            refresh_token_type)) [
              | inl e ↦ ground (arith, e)
              | inr (claims, e) ↦ record {
                claims = claims;
                signed = e;
                subject = ground (arith, e, text_eq_iff claims.subject p.cfg.principal);
                subject_full = ground (arith, e);
                audience = ground (arith, e, text_eq_iff claims.audience p.cfg.resource);
                own = ground (arith, e, text_eq_iff claims.client_id client.client_id);
                issued =
                    (issue_token_response_iff lib world p client.client_id claims.subject
                        (parse_scopes claims.scope) t).0
                      (ground (arith, e));
              }
            ],
    λ i. ground (
      arith,
      i.signed,
      i.subject_full,
      text_eq_iff i.claims.subject p.cfg.principal,
      text_eq_iff i.claims.audience p.cfg.resource,
      text_eq_iff i.claims.client_id client.client_id,
      (issue_token_response_iff lib world p client.client_id i.claims.subject
            (parse_scopes i.claims.scope) t).1
          i.issued,
    ),
  )
