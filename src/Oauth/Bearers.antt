-- ===== src/Oauth/Bearers.antt =====
-- internal/oauth/oauth.go: whom an access token authenticates.
use felsen_mcp_server_postgr.Base.{
  ℕ, true, ◌&&◌, List, [], ◌∷◌, none, some, ◌≡◌, ◌≢◌, ◌↔◌, ◌⊎◌, refl, sym, inl, inr, arith, Text,
  text_eq, text_eq_iff, mem_text, runes, take, drop, All, Bool-cases, Option-cases, if_cases,
}
use felsen_mcp_server_postgr.Strings.{Unicode, trim_space, equal_fold}
use felsen_mcp_server_postgr.Guard.Statement.{is_nil}
use felsen_mcp_server_postgr.Authn.{Principal, principal_named, has_scope, can_use_connection}
use felsen_mcp_server_postgr.Oauth.{Provider, Library, TokenClaims, access_token_type}
use felsen_mcp_server_postgr.Oauth.Scopes.{
  is_supported, refused_scope, validate_scopes, parse_scopes,
}
use felsen_mcp_server_postgr.Oauth.Issue.{
  verify_token, usable_connections, claimed_connections, claimed_principal, authenticate_token,
}
use felsen_mcp_server_postgr.Oauth.Tokens.{IsVerified, verify_token_iff}

module _ ⦃u : Unicode⦄ (lib : Library) where
  refused_scope-none :
      (scopes : List Text) (p : Principal)
      → refused_scope lib scopes p ≡ none
      → All (λ s. (is_supported s ≡ true) × (has_scope p s ≡ true)) scopes
  unfolding refused_scope
  refused_scope-none [] p h = tt
  refused_scope-none (s ∷ scopes) p h =
      ((ground arith, ground arith), refused_scope-none scopes p (ground arith))

  none-refused_scope :
      (scopes : List Text) (p : Principal)
      → All (λ s. (is_supported s ≡ true) × (has_scope p s ≡ true)) scopes
      → refused_scope lib scopes p ≡ none
  unfolding refused_scope
  none-refused_scope [] p h = refl
  none-refused_scope (s ∷ scopes) p ((supported, has), rest) =
      rw (supported, has) (none-refused_scope scopes p rest)

  -- `validateScopes` returns no error exactly for at least one scope, each of which the server
  -- supports and the principal has.
  pub validate_scopes_iff :
      (scopes : List Text) (p : Principal)
      → (validate_scopes lib scopes p ≡ none)
        ↔ ((scopes ≢ []) × All (λ s. (is_supported s ≡ true) × (has_scope p s ≡ true)) scopes)
  unfolding validate_scopes
  validate_scopes_iff [] p = (λ h. cc, λ (n, h). absurd (n refl))
  validate_scopes_iff (s ∷ scopes) p = (
    λ h. (λ e. cc, refused_scope-none (s ∷ scopes) p h),
    λ (n, h). none-refused_scope (s ∷ scopes) p h,
  )

  usable_connections-All :
      (base : Principal) (connections : List Text)
      → All
          (λ c. (c ≡ runes "*") ⊎ (can_use_connection base c ≡ true))
          (usable_connections lib base connections)
  unfolding usable_connections
  usable_connections-All base [] = tt
  usable_connections-All base (c ∷ connections) = elim (Bool-cases (text_eq c (runes "*"))) [
    | inl e ↦ rw e (inl ((text_eq_iff c (runes "*")).0 e), usable_connections-All base connections)
    | inr e ↦ elim (Bool-cases (can_use_connection base c)) [
      | inl can ↦ rw (e, can) (inr can, usable_connections-All base connections)
      | inr cannot ↦ rw (e, cannot) (usable_connections-All base connections)
    ]
  ]

  claimed_connections-All :
      (base : Principal) (connections : List Text)
      → All
          (λ c. (c ≡ runes "*") ⊎ (can_use_connection base c ≡ true))
          (claimed_connections lib base connections)
  unfolding claimed_connections
  claimed_connections-All base connections =
      if_cases (All (λ c. (c ≡ runes "*") ⊎ (can_use_connection base c ≡ true)))
        (is_nil (usable_connections lib base connections) && mem_text (runes "*") base.connections)
        (λ e. (inl refl, tt)) (λ e. usable_connections-All base connections)

  -- What a principal may do that stands for another one.
  pub record IsLimitedBy (base who : Principal) : Type 0 where
    pub name : who.name ≡ base.name
    pub some_scope : who.scopes ≢ []
    pub scopes : All (λ s. (is_supported s ≡ true) × (has_scope base s ≡ true)) who.scopes
    pub connections :
        All (λ c. (c ≡ runes "*") ⊎ (can_use_connection base c ≡ true)) who.connections

  claimed_principal-parts :
      (p : Provider) (claims : TokenClaims) (who : Principal)
      → claimed_principal lib p claims ≡ some who
      → (base : Principal) × (principal_named p.principals claims.subject ≡ some base)
        × (claims.audience ≡ p.cfg.resource)
        × (who.scopes ≡ parse_scopes claims.scope)
        × IsLimitedBy base who
  unfolding claimed_principal
  claimed_principal-parts p claims who h =
      elim (Option-cases (principal_named p.principals claims.subject)) [
        | inl e ↦ ground (arith, e)
        | inr (base, e) ↦
            let valid : validate_scopes lib (parse_scopes claims.scope) base ≡ none =
              ground (arith, e) in
            let (full, allowed) = (validate_scopes_iff (parse_scopes claims.scope) base).0 valid in
            let scopes : parse_scopes claims.scope ≡ who.scopes = ground (arith, e, valid) in
            let connections : claimed_connections lib base claims.connections ≡ who.connections =
              ground (arith, e, valid) in
            (
              base,
              e,
              ground (arith, e, text_eq_iff claims.audience p.cfg.resource),
              sym scopes,
              record {
                name = ground (arith, e, valid);
                some_scope = rw scopes at full;
                scopes = rw scopes at allowed;
                connections = rw connections at (claimed_connections-All base claims.connections);
              },
            )
      ]

module _ ⦃u : Unicode⦄ (lib : Library) where
  -- A header authenticates a principal only by a token behind `Bearer ` that verifies as an access
  -- token for this resource; the principal then has the name of the configured one that the token
  -- names, the token's scopes, each supported and held by that one, and connections that it may
  -- use or `*`.
  pub authenticate_token-IsLimitedBy :
      (p : Provider) (now : ℕ) (header : Text) (who : Principal)
      → authenticate_token lib p now header ≡ some who
      → (claims : TokenClaims) × (base : Principal) × (equal_fold
            (take 7 (trim_space header))
            (runes "Bearer ")
          ≡ true)
        × IsVerified lib p now (trim_space (drop 7 (trim_space header))) access_token_type claims
        × (principal_named p.principals claims.subject ≡ some base)
        × (claims.audience ≡ p.cfg.resource)
        × (who.scopes ≡ parse_scopes claims.scope)
        × IsLimitedBy lib base who
  unfolding authenticate_token
  authenticate_token-IsLimitedBy p now header who h =
      elim (Option-cases
        (verify_token lib p now (trim_space (drop 7 (trim_space header))) access_token_type)) [
          | inl e ↦ ground (arith, e)
          | inr (claims, e) ↦
              let (base, named, audience, scopes, limited) =
                claimed_principal-parts lib p claims who (ground (arith, e)) in
              (
                claims,
                base,
                ground (arith, e),
                (verify_token_iff lib p now (trim_space (drop 7 (trim_space header)))
                      access_token_type claims).0
                    e,
                named,
                audience,
                scopes,
                limited,
              )
        ]
