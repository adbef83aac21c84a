-- ===== src/Oauth/Calls.antt =====
-- internal/oauth/oauth.go: the authorization codes as an abstract store, which gives each code out
-- once. What a request does to it is read off the request and its answer.
use felsen_mcp_server_postgr.Base.{
  ℕ, Bool, true, false, not, ◌&&◌, ◌||◌, [], Option, none, some, ◌≡◌, ◌≢◌, inl, inr, refl, ◌∙◌,
  arith, Text, text_eq, text_eq_iff, runes, one_of, Bool-cases, Option-cases, find,
  find-delete_self, find-delete_other, find-put_self, find-put_other, KeysDistinct, if◌then◌else◌,
}
use felsen_mcp_server_postgr.Strings.{Unicode, trim_space}
use felsen_mcp_server_postgr.Guard.Tables.{is_empty}
use felsen_mcp_server_postgr.Oauth.{
  Provider, Library, AuthorizationCode, RegisteredClient, Request, World, Response, tokens,
}
use felsen_mcp_server_postgr.Oauth.Scopes.{client_of}
use felsen_mcp_server_postgr.Oauth.Register.{ServerState, add_client, save_clients, register}
use felsen_mcp_server_postgr.Oauth.Authorize.{
  cleanup_codes, new_code, redirect_with_code, authorize,
}
use felsen_mcp_server_postgr.Oauth.Issue.{
  exchange_authorization_code, grant_tokens, token_form, token,
}
use felsen_mcp_server_postgr.Oauth.Server.{serve_http, with_store, trim_slashes}
use felsen_mcp_server_postgr.Oauth.Cases.{IsAuthorized, sent_code, authorize-cases}
use felsen_mcp_server_postgr.Oauth.Steps.{Reach}
use felsen_mcp_server_postgr.Oauth.Codes.{unexpired, find-cleanup_codes, Reach-KeysDistinct}
use felsen_mcp_server_postgr.Oauth.Redirects.{authorize-answers}

-- The code that a request presents to the token endpoint: it is a POST without an `Authorization`
-- header, of a known public client and for no other resource, with the grant for codes.
abbrev may_exchange : ⦃u : Unicode⦄ → Provider → Request → (Text → Text) → RegisteredClient → Bool
may_exchange p r form client =
    text_eq r.method (runes "POST")
    && is_empty r.authorization
    && text_eq client.token_endpoint_auth_method (runes "none")
    && (is_empty (trim_space (form (runes "resource")))
        || text_eq (trim_space (form (runes "resource"))) p.cfg.resource)
    && text_eq (form (runes "grant_type")) (runes "authorization_code")
    && not (is_empty (trim_space (form (runes "code"))))

abbrev pub presented : ⦃u : Unicode⦄ → Provider → Request → Option Text
presented p r = elim r.form [
  | none ↦ none
  | some form ↦ elim (client_of p (trim_space (form (runes "client_id")))) [
    | none ↦ none
    | some client ↦
        if may_exchange p r form client then some (trim_space (form (runes "code"))) else none
  ]
]

-- Whether an answer has tokens.
abbrev pub has_tokens : Response → Bool
has_tokens (tokens t) = true
has_tokens _ = false

-- What a request and its answer say of the codes.
pub data CodeCall : Type 0 where
  neither : CodeCall
  gives : Text → CodeCall
  presents : Text → Bool → CodeCall

abbrev given : Option Text → CodeCall
given none = neither
given (some value) = gives value

abbrev used : Bool → Option Text → CodeCall
used paid none = neither
used paid (some value) = presents value paid

abbrev pub call_of : ⦃u : Unicode⦄ → Provider → Request → Response → CodeCall
call_of p r answer =
    if text_eq (trim_slashes r.path) (runes "/oauth/authorize")
    then given (sent_code answer)
    else if text_eq (trim_slashes r.path) (runes "/oauth/token")
    then used (has_tokens answer) (presented p r)
    else neither

-- A store of codes: what it holds for each value. Without a call it stays as it is; a code that is
-- given is in it, and what has expired is forgotten; a code that is presented is gone, if it was
-- there, whether it buys tokens or not; and one that was not there buys none.
pub data OneTime (now : ℕ)
    : CodeCall
      → (Text → Option AuthorizationCode)
      → (Text → Option AuthorizationCode)
      → Type 0 where
  stay :
      {f g : Text → Option AuthorizationCode} → ((k : Text) → g k ≡ f k) → OneTime now neither f g
  give :
      {f g : Text → Option AuthorizationCode} (value : Text) (code : AuthorizationCode)
      → g value ≡ some code
      → ((k : Text) → value ≢ k → g k ≡ unexpired now (f k))
      → OneTime now (gives value) f g
  take :
      {f g : Text → Option AuthorizationCode} (value : Text) (paid : Bool)
      (code : AuthorizationCode)
      → f value ≡ some code
      → g value ≡ none
      → ((k : Text) → value ≢ k → g k ≡ f k)
      → OneTime now (presents value paid) f g
  miss :
      {f g : Text → Option AuthorizationCode} (value : Text)
      → f value ≡ none
      → ((k : Text) → g k ≡ f k)
      → OneTime now (presents value false) f g

module _ ⦃u : Unicode⦄ (lib : Library) (world : World) (p : Provider) where
  exchange-OneTime :
      (form : Text → Text) (client : RegisteredClient)
      → is_empty (trim_space (form (runes "code"))) ≡ false
      → OneTime world.now
          (presents
            (trim_space (form (runes "code")))
            (has_tokens (exchange_authorization_code lib world p form client).0))
          (find p.codes)
          (find (exchange_authorization_code lib world p form client).1.codes)
  unfolding exchange_authorization_code
  exchange-OneTime form client full =
      let value = trim_space (form (runes "code")) in
      elim (Option-cases (find p.codes value)) [
        | inl absent ↦
            rw (exchange_authorization_code, full, absent) (miss value absent (λ k. refl))
        | inr (code, found) ↦
            rw (exchange_authorization_code, full, found)
              (take value _ code found (find-delete_self p.codes value)
                (λ k n. find-delete_other p.codes k value n))
      ]

  token-formless : (r : Request) → r.form ≡ none → (token lib world p r).1 ≡ p
  unfolding token
  token-formless r e = ground (arith, e)

  token-unknown :
      (r : Request) (form : Text → Text)
      → r.form ≡ some form
      → client_of p (trim_space (form (runes "client_id"))) ≡ none
      → (token lib world p r).1 ≡ p
  unfolding token token_form
  token-unknown r form e unknown = ground (arith, e, unknown)

  token-refused :
      (r : Request) (form : Text → Text) (client : RegisteredClient)
      → r.form ≡ some form
      → client_of p (trim_space (form (runes "client_id"))) ≡ some client
      → may_exchange p r form client ≡ false
      → (token lib world p r).1 ≡ p
  unfolding token token_form grant_tokens exchange_authorization_code
  token-refused r form client e known refuses = ground (arith, e, known, refuses)

  token-exchanges :
      (r : Request) (form : Text → Text) (client : RegisteredClient)
      → r.form ≡ some form
      → client_of p (trim_space (form (runes "client_id"))) ≡ some client
      → may_exchange p r form client ≡ true
      → token lib world p r ≡ exchange_authorization_code lib world p form client
  unfolding token token_form grant_tokens
  token-exchanges r form client e known allows = ground (arith, e, known, allows)

  token-OneTime :
      (r : Request)
      → OneTime world.now
          (used (has_tokens (token lib world p r).0) (presented p r))
          (find p.codes)
          (find (token lib world p r).1.codes)
  token-OneTime r = elim (Option-cases r.form) [
    | inl e ↦ rw (token-formless r e, presented, e) (stay (λ k. refl))
    | inr (form, e) ↦ elim (Option-cases (client_of p (trim_space (form (runes "client_id"))))) [
      | inl unknown ↦ rw (token-unknown r form e unknown, presented, e, unknown) (stay (λ k. refl))
      | inr (client, known) ↦ elim (Bool-cases (may_exchange p r form client)) [
        | inr refuses ↦
            rw (token-refused r form client e known refuses, presented, e, known, refuses)
              (stay (λ k. refl))
        | inl allows ↦
            rw (token-exchanges r form client e known allows, presented, e, known, allows)
              (exchange-OneTime form client (ground (arith, allows)))
      ]
    ]
  ]

  authorized-sent :
      (r : Request) (a : IsAuthorized lib world p r)
      → sent_code (authorize lib world p r).0 ≡ some a.approval.value
  unfolding redirect_with_code find text_eq runes
  authorized-sent r a = elim (Option-cases (lib.parse_url a.request.redirect_uri)) [
    | inl e ↦ absurd (authorize-answers lib world p r (rw (a.result, redirect_with_code, e) refl))
    | inr (url, e) ↦ rw (a.result, sent_code, redirect_with_code, e) refl
  ]

  authorize-OneTime :
      (r : Request)
      → KeysDistinct p.codes
      → OneTime world.now
          (given (sent_code (authorize lib world p r).0))
          (find p.codes)
          (find (authorize lib world p r).1.codes)
  authorize-OneTime r d = elim (authorize-cases lib world p r) [
    | inl (same, unsent) ↦ rw (same, unsent) (stay (λ k. refl))
    | inr a ↦
        rw (authorized-sent r a, a.result)
          (give a.approval.value (new_code lib world p a.request)
            (find-put_self (cleanup_codes world.now p.codes) _ _)
            (λ k n.
              find-put_other (cleanup_codes world.now p.codes) k _ _ n
              ∙ find-cleanup_codes world.now p.codes k d))
  ]

module _ ⦃u : Unicode⦄ (lib : Library) (world : World) where
  register-codes :
      (s : ServerState) (r : Request) → (register lib world s r).1.provider.codes ≡ s.provider.codes
  unfolding register add_client save_clients
  register-codes s r = ground arith

  serve_http-authorize :
      (s : ServerState) (r : Request)
      → trim_slashes r.path ≡ runes "/oauth/authorize"
      → serve_http lib world s r ≡ with_store s (authorize lib world s.provider r)
  unfolding serve_http one_of text_eq runes
  serve_http-authorize s r e = rw (serve_http, e) refl

  serve_http-token :
      (s : ServerState) (r : Request)
      → trim_slashes r.path ≡ runes "/oauth/token"
      → serve_http lib world s r ≡ with_store s (token lib world s.provider r)
  unfolding serve_http one_of text_eq runes
  serve_http-token s r e = rw (serve_http, e) refl

  serve_http-other :
      (s : ServerState) (r : Request)
      → text_eq (trim_slashes r.path) (runes "/oauth/authorize") ≡ false
      → text_eq (trim_slashes r.path) (runes "/oauth/token") ≡ false
      → (serve_http lib world s r).1.provider.codes ≡ s.provider.codes
  unfolding serve_http
  serve_http-other s r not_authorize not_token =
      ground (arith, not_authorize, not_token, register-codes s r)

  -- Every request, in every state that requests lead to from a provider without codes, is a step of
  -- a store that gives each code out once, as the request and its answer say: an answer of
  -- `/oauth/authorize` that sends a code adds it and forgets those that have expired; a request
  -- that presents a code to `/oauth/token` takes it away if it is held, even if it is refused, and
  -- gets no tokens if it is not; everything else leaves the codes as they are.
  pub serve_http-OneTime :
      (s t : ServerState) (r : Request)
      → s.provider.codes ≡ []
      → Reach lib s t
      → OneTime world.now
          (call_of t.provider r (serve_http lib world t r).0)
          (find t.provider.codes)
          (find (serve_http lib world t r).1.provider.codes)
  serve_http-OneTime s t r empty reached =
      elim (Bool-cases (text_eq (trim_slashes r.path) (runes "/oauth/authorize"))) [
        | inl a ↦
            rw (call_of, a, serve_http-authorize t r ((text_eq_iff _ _).0 a))
              (authorize-OneTime lib world t.provider r
                (Reach-KeysDistinct lib s t (rw empty tt) reached))
        | inr a ↦ elim (Bool-cases (text_eq (trim_slashes r.path) (runes "/oauth/token"))) [
          | inl b ↦
              rw (call_of, a, b, serve_http-token t r ((text_eq_iff _ _).0 b))
                (token-OneTime lib world t.provider r)
          | inr b ↦ rw (call_of, a, b, serve_http-other t r a b) (stay (λ k. refl))
        ]
      ]
