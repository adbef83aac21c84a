-- ===== src/Oauth/Steps.antt =====
-- internal/oauth/oauth.go: what one request does to the provider, as a relation, and the states
-- that a run of requests reaches.
use felsen_mcp_server_postgr.Base.{
  ◌≡◌, ◌⊎◌, inl, inr, refl, sym, subst, arith, text_eq, one_of, runes, Bool-cases, Option-cases,
  delete, put, [], ◌∷◌,
}
use felsen_mcp_server_postgr.Strings.{Unicode, trim_space}
use felsen_mcp_server_postgr.Oauth.{
  Provider, Library, RegisteredClient, Registration, Request, World, Response,
}
use felsen_mcp_server_postgr.Oauth.Register.{
  ServerState, save_clients, checked_registration, add_client, register,
}
use felsen_mcp_server_postgr.Oauth.Authorize.{cleanup_codes, new_code, authorize}
use felsen_mcp_server_postgr.Oauth.Issue.{token}
use felsen_mcp_server_postgr.Oauth.Server.{serve_http, trim_slashes}
use felsen_mcp_server_postgr.Oauth.Cases.{IsAuthorized, IsExchange, authorize-cases, token-cases}

module _ ⦃u : Unicode⦄ (lib : Library) where
  pub data Change (world : World) (r : Request) (p : Provider) : Provider → Type 0 where
    kept : Change world r p p
    registered :
        (input : Registration) (client : RegisteredClient)
        → checked_registration lib p world input ≡ inr client
        → Change world r p (record p { clients = put p.clients client.client_id client })
    authorized :
        (a : IsAuthorized lib world p r)
        → Change world r p (record p {
          codes =
              put
                (cleanup_codes world.now p.codes)
                a.approval.value
                (new_code lib world p a.request);
        })
    exchanged :
        (e : IsExchange lib world p r)
        → Change world r p
            (record p { codes = delete p.codes (trim_space (e.form (runes "code"))) })

sum_cases {ℓ} : {A B : Type ℓ} (x : A ⊎ B) → ((a : A) × (x ≡ inl a)) ⊎ ((b : B) × (x ≡ inr b))
sum_cases (inl a) = inl (a, refl)
sum_cases (inr b) = inr (b, refl)

module _ ⦃u : Unicode⦄ (lib : Library) (world : World) where
  add_client-provider :
      (s : ServerState) (client : RegisteredClient)
      → (add_client lib world s client).1.provider
        ≡ record s.provider { clients = put s.provider.clients client.client_id client }
  unfolding add_client save_clients
  add_client-provider s client = ground arith

  checked-cases :
      (p : Provider) (input : Registration)
      → ((refusal : Response) × (checked_registration lib p world input ≡ inl refusal))
        ⊎ ((client : RegisteredClient) × (checked_registration lib p world input ≡ inr client))
  checked-cases p input = sum_cases (checked_registration lib p world input)

  register-Change :
      (s : ServerState) (r : Request)
      → Change lib world r s.provider (register lib world s r).1.provider
  unfolding register
  register-Change s r = elim (Bool-cases (text_eq r.method (runes "POST"))) [
    | inr e ↦ rw e kept
    | inl post ↦ elim (Option-cases r.registration) [
      | inl e ↦ rw (post, e) kept
      | inr (input, e) ↦ elim (checked-cases s.provider input) [
        | inl (refusal, c) ↦ rw (post, e, c) kept
        | inr (client, c) ↦
            let same : (register lib world s r).1.provider
                ≡ record s.provider { clients = put s.provider.clients client.client_id client } =
              rw (post, e, c, register) (add_client-provider s client) in
            subst (Change lib world r s.provider) (sym same) (registered input client c)
      ]
    ]
  ]

  authorize-Change : (p : Provider) (r : Request) → Change lib world r p (authorize lib world p r).1
  authorize-Change p r = elim (authorize-cases lib world p r) [
    | inl (same, unsent) ↦ subst (Change lib world r p) (sym same) kept
    | inr a ↦ rw a.result (authorized a)
  ]

  token-Change : (p : Provider) (r : Request) → Change lib world r p (token lib world p r).1
  token-Change p r = elim (token-cases lib world p r) [
    | inl same ↦ subst (Change lib world r p) (sym same) kept
    | inr e ↦ rw e.result (exchanged e)
  ]

  -- A request leaves the provider as it was, or adds the client of a registration that passed its
  -- checks, or adds the code of an approved authorization, or takes away the code of an exchange.
  pub serve_http-Change :
      (s : ServerState) (r : Request)
      → Change lib world r s.provider (serve_http lib world s r).1.provider
  unfolding serve_http
  serve_http-Change s r =
      elim (Bool-cases (
        one_of
          ("/.well-known/oauth-protected-resource" ∷ "/.well-known/oauth-protected-resource/mcp"
            ∷ "/mcp/.well-known/oauth-protected-resource" ∷ [])
          (trim_slashes r.path))) [
            | inl a ↦ rw a kept
            | inr a ↦
                elim (Bool-cases (
                  text_eq (trim_slashes r.path)
                    (runes "/.well-known/oauth-authorization-server"))) [
                      | inl b ↦ rw (a, b) kept
                      | inr b ↦
                          elim (Bool-cases
                            (text_eq (trim_slashes r.path) (runes "/oauth/register"))) [
                              | inl c ↦ rw (a, b, c) (register-Change s r)
                              | inr c ↦
                                  elim (Bool-cases
                                    (text_eq (trim_slashes r.path) (runes "/oauth/authorize"))) [
                                      | inl d ↦ rw (a, b, c, d) (authorize-Change s.provider r)
                                      | inr d ↦
                                          elim (Bool-cases (
                                            text_eq (trim_slashes r.path) (runes "/oauth/token"))) [
                                              | inl e ↦
                                                  rw (a, b, c, d, e) (token-Change s.provider r)
                                              | inr e ↦ rw (a, b, c, d, e) kept
                                            ]
                                    ]
                            ]
                    ]
          ]

module _ ⦃u : Unicode⦄ (lib : Library) where
  -- The states that requests lead to, each in a world of its own.
  pub data Reach (s : ServerState) : ServerState → Type 0 where
    here : Reach s s
    after :
        (t : ServerState) (world : World) (r : Request)
        → Reach s t
        → Reach s (serve_http lib world t r).1
