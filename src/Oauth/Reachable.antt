-- ===== src/Oauth/Reachable.antt =====
-- internal/oauth/oauth.go: the invariant of the provider, from `New` through every request.
use felsen_mcp_server_postgr.Base.{
  ℕ, ltb, true, false, Option, none, some, ◌≡◌, ◌⊎◌, inl, inr, refl, sym, ◌∙◌, subst, arith, Text,
  List, text_eq, text_eq_iff, runes, Bool-cases, find, delete, put, find-delete_self,
  find-delete_other, find-put_self, find-put_other,
}
use felsen_mcp_server_postgr.Strings.{Unicode, trim_space}
use felsen_mcp_server_postgr.Guard.Tables.{is_empty}
use felsen_mcp_server_postgr.Authn.{ApiKey}
use felsen_mcp_server_postgr.Config.Model.{OauthConfig}
use felsen_mcp_server_postgr.Oauth.{
  Provider, Library, AuthorizationCode, Request, World, TokenResponse, tokens,
}
use felsen_mcp_server_postgr.Oauth.Register.{ServerState}
use felsen_mcp_server_postgr.Oauth.Authorize.{cleanup_codes, new_code}
use felsen_mcp_server_postgr.Oauth.Issue.{verify_pkce, new_tokens, token}
use felsen_mcp_server_postgr.Oauth.Scopes.{client_of}
use felsen_mcp_server_postgr.Oauth.Server.{
  StoreFile, made, configured_client, new_provider, serve_http,
}
use felsen_mcp_server_postgr.Oauth.Steps.{
  Change, kept, registered, authorized, exchanged, serve_http-Change, Reach, here, after,
}
use felsen_mcp_server_postgr.Oauth.Codes.{Change-KeysDistinct}
use felsen_mcp_server_postgr.Oauth.New.{
  new_provider-IsNew, stored_clients-ArePublic, configured_client-IsPublic,
}
use felsen_mcp_server_postgr.Oauth.Grants.Endpoint.{token-code_iff}
use felsen_mcp_server_postgr.Oauth.Admitted.{checked_registration-IsAdmitted}
use felsen_mcp_server_postgr.Oauth.Cases.{IsAuthorized}
use felsen_mcp_server_postgr.Oauth.Sound.{
  IsHeld, IsSound, put-ArePublic, find-cleanup_codes-some, registered-IsSound, fewer-IsSound,
}

module _ ⦃u : Unicode⦄ (lib : Library) where
  new_code-IsHeld :
      (world : World) (r : Request) (p : Provider) (a : IsAuthorized lib world p r)
      → IsHeld lib p (new_code lib world p a.request)
  unfolding new_code client_of
  new_code-IsHeld world r p a = record {
    client = a.valid.client;
    principal = a.valid.principal;
    known = a.valid.known;
    uri_valid = a.valid.uri_valid;
    challenged = a.valid.challenged;
    owner = refl;
    configured = a.valid.configured;
    granted = a.valid.granted;
  }

  Change-IsSound :
      (world : World) (r : Request) (p p' : Provider)
      → Change lib world r p p'
      → IsSound lib p
      → IsSound lib p'
  Change-IsSound world r p _ kept s = s
  Change-IsSound world r p _ (registered input client c) s =
      registered-IsSound lib p client.client_id client
        (refl, (checked_registration-IsAdmitted lib world p input client c).public) s
  Change-IsSound world r p _ (authorized a) s =
      let new = new_code lib world p a.request in
      let left = cleanup_codes world.now p.codes in
      fewer-IsSound lib p (put left a.approval.value new)
        (Change-KeysDistinct lib world r p _ (authorized a) s.keys)
        (λ value code h. elim (Bool-cases (text_eq a.approval.value value)) [
          | inl e ↦
              let same : some new ≡ some code =
                sym (find-put_self left a.approval.value new)
                ∙ rw (← (text_eq_iff a.approval.value value).0 e) at h in
              subst (IsHeld lib p) (ground (arith, same)) (new_code-IsHeld world r p a)
          | inr e ↦ s.held value code (
              find-cleanup_codes-some world.now p.codes value code s.keys (
                sym (
                  find-put_other left value a.approval.value new
                    (λ x. ground (arith, e, (text_eq_iff a.approval.value value).1 x)))
                ∙ h))
        ])
        s
  Change-IsSound world r p _ (exchanged e) s =
      let spent = trim_space (e.form (runes "code")) in
      fewer-IsSound lib p (delete p.codes spent)
        (Change-KeysDistinct lib world r p _ (exchanged e) s.keys)
        (λ value code h. elim (Bool-cases (text_eq spent value)) [
          | inl x ↦
              let gone : find (delete p.codes spent) value ≡ none =
                rw (← (text_eq_iff spent value).0 x) (find-delete_self p.codes spent) in
              cc
          | inr x ↦ s.held value code (
              sym (
                find-delete_other p.codes value spent
                  (λ y. ground (arith, x, (text_eq_iff spent value).1 y)))
              ∙ h)
        ])
        s

module _ ⦃u : Unicode⦄ (positive_duration : Text → Option ℕ) (lib : Library) where
  new_provider-IsSound :
      (cfg : OauthConfig) (manager : Option (List ApiKey)) (file : StoreFile) (p : Provider)
      → new_provider positive_duration cfg manager file ≡ made p
      → IsSound lib p
  unfolding find
  new_provider-IsSound cfg manager file p h =
      let new = new_provider-IsNew positive_duration cfg manager file p h in
      record {
        public = rw new.with_own (
            put-ArePublic new.clients cfg.client_id (configured_client cfg)
              (stored_clients-ArePublic positive_duration cfg file new.clients new.stored)
              (configured_client-IsPublic cfg));
        keys = rw new.no_codes tt;
        held =
            λ value code found. let none_held : none ≡ some code = rw new.no_codes at found in cc;
      }

  Reach-IsSound :
      (s t : ServerState) → IsSound lib s.provider → Reach lib s t → IsSound lib t.provider
  Reach-IsSound s _ sound here = sound
  Reach-IsSound s _ sound (after t world r reached) =
      Change-IsSound lib world r t.provider (serve_http lib world t r).1.provider
        (serve_http-Change lib world t r) (Reach-IsSound s t sound reached)

  -- In every state that requests lead to from a provider that `New` has made, each client is
  -- public and stands under its own identifier, no value stands for two codes, and each code
  -- belongs to a registered client, has a valid redirect URI and a challenge, and is for the
  -- configured principal and for scopes that this principal is allowed.
  pub serve_http-IsSound :
      (cfg : OauthConfig) (manager : Option (List ApiKey)) (file : StoreFile) (s t : ServerState)
      → new_provider positive_duration cfg manager file ≡ made s.provider
      → Reach lib s t
      → IsSound lib t.provider
  serve_http-IsSound cfg manager file s t h reached =
      Reach-IsSound s t (new_provider-IsSound cfg manager file s.provider h) reached

module _ ⦃u : Unicode⦄ (lib : Library) (world : World) (p : Provider) where
  -- A code that a sound provider holds and that has not expired buys tokens: a request for them
  -- by its client is answered with tokens, if it is a POST without an `Authorization` header, for
  -- no other resource and no other redirect URI, and carries the verifier of the challenge.
  pub token-redeems :
      (r : Request) (form : Text → Text) (code : AuthorizationCode)
      → IsSound lib p
      → find p.codes (trim_space (form (runes "code"))) ≡ some code
      → ltb code.expires_at world.now ≡ false
      → r.method ≡ runes "POST"
      → is_empty r.authorization ≡ true
      → r.form ≡ some form
      → form (runes "grant_type") ≡ runes "authorization_code"
      → trim_space (form (runes "client_id")) ≡ code.client_id
      → is_empty (trim_space (form (runes "code"))) ≡ false
      → (is_empty (trim_space (form (runes "redirect_uri"))) ≡ true)
        ⊎ (trim_space (form (runes "redirect_uri")) ≡ code.redirect_uri)
      → (is_empty (trim_space (form (runes "resource"))) ≡ true)
        ⊎ (trim_space (form (runes "resource")) ≡ p.cfg.resource)
      → verify_pkce lib (trim_space (form (runes "code_verifier"))) code.code_challenge ≡ true
      → (t : TokenResponse) × ((token lib world p r).0 ≡ tokens t)
  unfolding client_of
  token-redeems r form code sound found fresh post bare has_form grant id full uri resource pkce =
      let held = sound.held (trim_space (form (runes "code"))) code found in
      let (own, public) = sound.public code.client_id held.client held.known in
      let t =
        new_tokens lib world p held.client.client_id held.principal code.principal code.scopes in
      (
        t,
        (token-code_iff lib world p r form t has_form grant).1 (
          held.client,
          record {
            posted = post;
            unauthenticated = bare;
            known = rw id held.known;
            public = public;
            resource = resource;
          },
          record {
            code = code;
            full = full;
            found = found;
            unexpired = fresh;
            own = sym own;
            redirect = uri;
            verified = pkce;
            issued = record {
              principal = held.principal;
              configured = held.configured;
              allowed = held.granted;
              answer = refl;
            };
          },
        ),
      )
