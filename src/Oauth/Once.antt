-- ===== src/Oauth/Once.antt =====
-- internal/oauth/oauth.go: an authorization code buys tokens once.
use felsen_mcp_server_postgr.Base.{
  none, some, ◌≡◌, ◌≢◌, ◌∙◌, Text, runes, find, delete-none, find-delete_self, find-put_other,
}
use felsen_mcp_server_postgr.Strings.{Unicode, trim_space}
use felsen_mcp_server_postgr.Oauth.{
  Provider, Library, Request, World, TokenResponse, tokens, random_token,
}
use felsen_mcp_server_postgr.Oauth.Register.{ServerState}
use felsen_mcp_server_postgr.Oauth.Authorize.{cleanup_codes}
use felsen_mcp_server_postgr.Oauth.Issue.{exchange_authorization_code, token}
use felsen_mcp_server_postgr.Oauth.Server.{serve_http}
use felsen_mcp_server_postgr.Oauth.Steps.{
  Change, kept, registered, authorized, exchanged, serve_http-Change,
}
use felsen_mcp_server_postgr.Oauth.Codes.{cleanup_codes-none}
use felsen_mcp_server_postgr.Oauth.Grants.Endpoint.{
  token-code_iff, grant_tokens-code, token-granted,
}

module _ ⦃u : Unicode⦄ (lib : Library) where
  -- The states that requests lead to while none of them draws this value for a code.
  pub data ReachWithout (value : Text) (s : ServerState) : ServerState → Type 0 where
    start : ReachWithout value s s
    later :
        (t : ServerState) (world : World) (r : Request)
        → random_token lib world.random ≢ some value
        → ReachWithout value s t
        → ReachWithout value s (serve_http lib world t r).1

  Change-absent :
      (value : Text) (world : World) (r : Request) (p p' : Provider)
      → random_token lib world.random ≢ some value
      → Change lib world r p p'
      → find p.codes value ≡ none
      → find p'.codes value ≡ none
  Change-absent value world r p _ n kept h = h
  Change-absent value world r p _ n (registered input client c) h = h
  Change-absent value world r p _ n (authorized a) h =
      find-put_other (cleanup_codes world.now p.codes) value a.approval.value _
        (λ e. n (a.approval.random ∙ cc e))
      ∙ cleanup_codes-none world.now p.codes value h
  Change-absent value world r p _ n (exchanged e) h =
      delete-none p.codes value (trim_space (e.form (runes "code"))) h

  ReachWithout-absent :
      (value : Text) (s t : ServerState)
      → find s.provider.codes value ≡ none
      → ReachWithout value s t
      → find t.provider.codes value ≡ none
  ReachWithout-absent value s _ h start = h
  ReachWithout-absent value s _ h (later t world r n reached) =
      Change-absent value world r t.provider (serve_http lib world t r).1.provider n
        (serve_http-Change lib world t r) (ReachWithout-absent value s t h reached)

  -- The code of a request that was answered with tokens is gone.
  token-spends :
      (world : World) (p : Provider) (r : Request) (form : Text → Text) (t : TokenResponse)
      → r.form ≡ some form
      → form (runes "grant_type") ≡ runes "authorization_code"
      → (token lib world p r).0 ≡ tokens t
      → find (token lib world p r).1.codes (trim_space (form (runes "code"))) ≡ none
  unfolding exchange_authorization_code
  token-spends world p r form t e g h =
      let (client, c, i) = (token-code_iff lib world p r form t e g).0 h in
      rw
        (
          token-granted lib world p r form client e c,
          grant_tokens-code lib world p r form client t g c,
          exchange_authorization_code,
          i.full,
          i.found,
        )
        (find-delete_self p.codes (trim_space (form (runes "code"))))

  -- Once a request with a code has been answered with tokens, no later request with that code is,
  -- whatever requests come between, as long as none of them draws the same value for a new code.
  pub token_once :
      (s s' : ServerState) (world world' : World) (r r' : Request) (form form' : Text → Text)
      (t t' : TokenResponse)
      → r.form ≡ some form
      → r'.form ≡ some form'
      → form (runes "grant_type") ≡ runes "authorization_code"
      → form' (runes "grant_type") ≡ runes "authorization_code"
      → trim_space (form' (runes "code")) ≡ trim_space (form (runes "code"))
      → (token lib world s.provider r).0 ≡ tokens t
      → ReachWithout
          (trim_space (form (runes "code")))
          (record s { provider = (token lib world s.provider r).1 })
          s'
      → (token lib world' s'.provider r').0 ≢ tokens t'
  token_once s s' world world' r r' form form' t t' e e' g g' same first reached second =
      let (client, c, i) = (token-code_iff lib world' s'.provider r' form' t' e' g').0 second in
      let gone : find s'.provider.codes (trim_space (form (runes "code"))) ≡ none =
        ReachWithout-absent (trim_space (form (runes "code")))
          (record s { provider = (token lib world s.provider r).1 }) s'
          (token-spends world s.provider r form t e g first) reached in
      let held : find s'.provider.codes (trim_space (form (runes "code"))) ≡ some i.code =
        rw same at i.found in
      cc
