-- ===== src/Oauth/Codes.antt =====
-- internal/oauth/oauth.go: the keys of the authorization codes, and what is left of
-- the codes at a time.
use felsen_mcp_server_postgr.Base.{
  ℕ, ltb, [], ◌∷◌, Option, none, some, ◌≡◌, inl, inr, refl, subst, arith, Text, text_eq,
  text_eq_iff, runes, Bool-cases, Entries, find, KeysDistinct, put-KeysDistinct,
  delete-KeysDistinct, if◌then◌else◌,
}
use felsen_mcp_server_postgr.Strings.{Unicode, trim_space}
use felsen_mcp_server_postgr.Oauth.{Provider, Library, AuthorizationCode, Request, World}
use felsen_mcp_server_postgr.Oauth.Register.{ServerState}
use felsen_mcp_server_postgr.Oauth.Authorize.{cleanup_codes, new_code}
use felsen_mcp_server_postgr.Oauth.Server.{serve_http}
use felsen_mcp_server_postgr.Oauth.Steps.{
  Change, kept, registered, authorized, exchanged, serve_http-Change, Reach, here, after,
}

pub cleanup_codes-none :
    (now : ℕ) (codes : Entries AuthorizationCode) (value : Text)
    → find codes value ≡ none
    → find (cleanup_codes now codes) value ≡ none
unfolding find cleanup_codes
cleanup_codes-none now [] value h = refl
cleanup_codes-none now ((v, code) ∷ codes) value h =
    ground (arith, cleanup_codes-none now codes value)

cleanup_codes-KeysDistinct :
    (now : ℕ) (codes : Entries AuthorizationCode)
    → KeysDistinct codes
    → KeysDistinct (cleanup_codes now codes)
unfolding cleanup_codes
cleanup_codes-KeysDistinct now [] d = tt
cleanup_codes-KeysDistinct now ((v, code) ∷ codes) d = elim (Bool-cases (ltb code.expires_at now)) [
  | inl e ↦ rw e (cleanup_codes-KeysDistinct now codes d.1)
  | inr e ↦ rw e (cleanup_codes-none now codes v d.0, cleanup_codes-KeysDistinct now codes d.1)
]

-- What is left of a code at a time: nothing once it has expired.
abbrev pub unexpired : ℕ → Option AuthorizationCode → Option AuthorizationCode
unexpired now none = none
unexpired now (some code) = if ltb code.expires_at now then none else some code

pub find-cleanup_codes :
    (now : ℕ) (codes : Entries AuthorizationCode) (value : Text)
    → KeysDistinct codes
    → find (cleanup_codes now codes) value ≡ unexpired now (find codes value)
unfolding find cleanup_codes
find-cleanup_codes now [] value d = refl
find-cleanup_codes now ((v, code) ∷ codes) value d = elim (Bool-cases (ltb code.expires_at now)) [
  | inl e ↦ elim (Bool-cases (text_eq v value)) [
    | inl same ↦
        rw (e, same, unexpired, e)
          (cleanup_codes-none now codes value
            (subst (λ k. find codes k ≡ none) ((text_eq_iff v value).0 same) d.0))
    | inr other ↦ rw (e, other) (find-cleanup_codes now codes value d.1)
  ]
  | inr e ↦ elim (Bool-cases (text_eq v value)) [
    | inl same ↦ rw (e, same, unexpired, e) refl
    | inr other ↦ rw (e, find, other) (find-cleanup_codes now codes value d.1)
  ]
]

module _ ⦃u : Unicode⦄ (lib : Library) where
  pub Change-KeysDistinct :
      (world : World) (r : Request) (p p' : Provider)
      → Change lib world r p p'
      → KeysDistinct p.codes
      → KeysDistinct p'.codes
  Change-KeysDistinct world r p _ kept d = d
  Change-KeysDistinct world r p _ (registered input client c) d = d
  Change-KeysDistinct world r p _ (authorized a) d =
      put-KeysDistinct (cleanup_codes world.now p.codes) a.approval.value
        (new_code lib world p a.request) (cleanup_codes-KeysDistinct world.now p.codes d)
  Change-KeysDistinct world r p _ (exchanged e) d =
      delete-KeysDistinct p.codes (trim_space (e.form (runes "code"))) d

  pub Reach-KeysDistinct :
      (s t : ServerState)
      → KeysDistinct s.provider.codes
      → Reach lib s t
      → KeysDistinct t.provider.codes
  Reach-KeysDistinct s _ d here = d
  Reach-KeysDistinct s _ d (after t world r reached) =
      Change-KeysDistinct world r t.provider (serve_http lib world t r).1.provider
        (serve_http-Change lib world t r) (Reach-KeysDistinct s t d reached)
