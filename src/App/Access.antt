-- ===== src/App/Access.antt =====
-- Whom a call authenticates, and which connection it may use.
use felsen_mcp_server_postgr.Base.{
  true, List, [], ◌∷◌, Option, none, some, ◌≡◌, ◌≢◌, ◌↔◌, ◌⊎◌, refl, inl, inr, arith, Text,
  Bool-cases, Option-cases,
}
use felsen_mcp_server_postgr.Strings.{Unicode}
use felsen_mcp_server_postgr.Authn.{Principal, Authenticator, has_scope, can_use_connection}
use felsen_mcp_server_postgr.Config.Policy.{ConnectionConfig}
use felsen_mcp_server_postgr.Store.{value, Answer-cases}
use felsen_mcp_server_postgr.App.{App, principal, resolve_connection, only_name, authorize}

-- The header of the request, read by the authenticator of the application, gives the principal.
abbrev pub IsCaller : App → Option Text → Principal → Type 0
IsCaller app header p =
    (token : Text) × ((header ≡ some token)
      × ((authenticate : Authenticator) × ((app.auth ≡ some authenticate)
            × (authenticate token ≡ some p))))

-- The connection is known to the store and is the one asked for; or none is asked for, and it is
-- the only one.
abbrev pub IsResolved : App → Text → Text → Type 0
IsResolved app requested connection =
    ((requested ≢ [])
      × ((requested ≡ connection)
          × ((cfg : ConnectionConfig) × (app.store.connection_config connection ≡ some cfg))))
    ⊎ ((requested ≡ []) × (app.store.connection_names ≡ connection ∷ []))

principal_iff :
    (app : App) (header : Option Text) (p : Principal)
    → (principal app header ≡ value p) ↔ IsCaller app header p
unfolding principal
principal_iff app none p = (λ h. cc, λ h. cc)
principal_iff app (some token) p = (
  λ h. elim (Option-cases app.auth) [
    | inl e ↦ absurd (ground arith)
    | inr (authenticate, e) ↦ elim (Option-cases (authenticate token)) [
      | inl e' ↦ absurd (ground arith)
      | inr (q, e') ↦ (token, (refl, (authenticate, (e, ground arith))))
    ]
  ],
  λ (token', (sent, (authenticate, (has_auth, accepts)))). ground arith,
)

only_name-singleton :
    {connection : Text} (names : List Text)
    → only_name names ≡ value connection
    → names ≡ connection ∷ []
only_name-singleton [] h = absurd (ground arith)
only_name-singleton (a ∷ []) h = ground arith
only_name-singleton (a ∷ b ∷ names) h = absurd (ground arith)

resolve_connection_iff :
    (app : App) (requested connection : Text)
    → (resolve_connection app requested ≡ value connection) ↔ IsResolved app requested connection
unfolding resolve_connection
resolve_connection_iff app [] connection = (
  λ h. inr (refl, only_name-singleton app.store.connection_names h),
  λ h. elim h [ inl asked ↦ absurd (asked.0 refl) | inr one ↦ rw one.1 refl ],
)
resolve_connection_iff app (c ∷ requested) connection = (
  λ h. elim (Option-cases (app.store.connection_config (c ∷ requested))) [
    | inl e ↦ absurd (ground arith)
    | inr (cfg, e) ↦ inl (λ empty. cc, (ground arith, (cfg, ground arith)))
  ],
  λ h. elim h [ inl asked ↦ ground arith | inr one ↦ absurd (ground arith) ],
)

module _ ⦃u : Unicode⦄ where
  -- `authorize` answers with a principal and a connection exactly when the authenticator gives that
  -- principal for the header, the principal has the scope and can use the connection, and the
  -- connection is the one the call names, which the store knows, or the store's only one where
  -- the call names none.
  pub authorize_iff :
      (app : App) (header : Option Text) (requested scope : Text) (p : Principal)
      (connection : Text)
      → (authorize app header requested scope ≡ value (p, connection)) ↔ (
          IsCaller app header p
          × ((has_scope p scope ≡ true)
              × (IsResolved app requested connection × (can_use_connection p connection ≡ true))))
  unfolding authorize
  authorize_iff app header requested scope p connection = (
    λ h. elim (Answer-cases (principal app header)) [
      | inl (e, refuses) ↦ absurd (ground arith)
      | inr (q, e) ↦ elim (Bool-cases (has_scope q scope)) [
        | inr refuses ↦ absurd (ground arith)
        | inl allows ↦ elim (Answer-cases (resolve_connection app requested)) [
          | inl (unknown, e') ↦ absurd (ground arith)
          | inr (name, e') ↦ elim (Bool-cases (can_use_connection q name)) [
            | inr cannot ↦ absurd (ground arith)
            | inl can ↦ (
              (principal_iff app header p).0 (ground arith),
              (
                ground arith,
                ((resolve_connection_iff app requested connection).0 (ground arith), ground arith),
              ),
            )
          ]
        ]
      ]
    ],
    λ h.
        let authenticated = (principal_iff app header p).1 h.0 in
        let resolved = (resolve_connection_iff app requested connection).1 h.1.1.0 in ground arith,
  )

  -- Whom `authorize` lets through.
  pub authorize-allows :
      (app : App) (header : Option Text) (requested scope : Text) {p : Principal}
      {connection : Text}
      → authorize app header requested scope ≡ value (p, connection)
      → (principal app header ≡ value p)
        × ((has_scope p scope ≡ true) × (can_use_connection p connection ≡ true))
  authorize-allows app header requested scope {p} {connection} h =
      let allowed = (authorize_iff app header requested scope p connection).0 h in
      ((principal_iff app header p).1 allowed.0, (allowed.1.0, allowed.1.1.1))
