-- ===== src/Authn/Keys.antt =====
-- internal/authn/authn.go: the keys of a manager that `NewManager` makes.
use felsen_mcp_server_postgr.Base.{
  true, false, List, [], ◌∷◌, map, ◌≡◌, ◌≢◌, ◌⊎◌, refl, sym, subst, inl, inr, arith, Text, all, All,
  all-eq-true, Bool-cases,
}
use felsen_mcp_server_postgr.Strings.{Unicode, trim_space, to_lower, utf8_length}
use felsen_mcp_server_postgr.Guard.Tables.{is_empty}
use felsen_mcp_server_postgr.Authn.{
  ApiKeyConfig, ApiKey, Manager, KeyError, KeyResult, accepted, rejected, is_hex_digit, key_hash,
  new_key, new_keys, some_keys, new_manager,
}

KeyResult-cases {ℓ} :
    {A : Type ℓ} (r : KeyResult A)
    → ((e : KeyError) × (r ≡ rejected e)) ⊎ ((a : A) × (r ≡ accepted a))
KeyResult-cases (rejected e) = inl (e, refl)
KeyResult-cases (accepted a) = inr (a, refl)

module _ ⦃u : Unicode⦄ (sha256_hex : Text → Text) where
  -- The hash of a key: of its token, where no hash is configured, or the configured one, which is
  -- of 64 hexadecimal digits.
  abbrev pub IsHashOf : ApiKeyConfig → Text → Type 0
  IsHashOf cfg hash =
      ((is_empty (to_lower (trim_space cfg.token_sha256)) ≡ true)
        × (is_empty cfg.token ≡ false)
        × (hash ≡ sha256_hex cfg.token))
      ⊎ ((hash ≡ to_lower (trim_space cfg.token_sha256))
          × (utf8_length hash ≡ 64)
          × All (λ c. is_hex_digit c ≡ true) hash)

  pub record IsKeyOf (cfg : ApiKeyConfig) (key : ApiKey) : Type 0 where
    pub named : is_empty cfg.name ≡ false
    pub name : key.principal.name ≡ cfg.name
    pub scopes : key.principal.scopes ≡ map to_lower cfg.scopes
    pub connections : key.principal.connections ≡ cfg.connections
    pub hash : IsHashOf cfg key.hash

  -- The keys belong to the configurations, one to one and in order.
  abbrev pub AreKeysOf : List ApiKeyConfig → List ApiKey → Type 0
  AreKeysOf [] [] = Unit
  AreKeysOf (cfg ∷ cfgs) (key ∷ keys) = IsKeyOf cfg key × AreKeysOf cfgs keys
  AreKeysOf _ _ = ⊥

  key_hash-IsHashOf :
      (cfg : ApiKeyConfig) (hash : Text)
      → key_hash sha256_hex cfg ≡ accepted hash
      → IsHashOf cfg hash
  unfolding key_hash
  key_hash-IsHashOf cfg hash h =
      elim (Bool-cases (is_empty (to_lower (trim_space cfg.token_sha256)))) [
        | inl e ↦ inl (e, ground (arith, e), ground (arith, e))
        | inr e ↦
            let same : to_lower (trim_space cfg.token_sha256) ≡ hash = ground (arith, e) in
            let long : utf8_length (to_lower (trim_space cfg.token_sha256)) ≡ 64 =
              ground (arith, e) in
            let digits : all is_hex_digit (to_lower (trim_space cfg.token_sha256)) ≡ true =
              ground (arith, e) in
            inr (
              sym same,
              rw same at long,
              rw same at (all-eq-true is_hex_digit (to_lower (trim_space cfg.token_sha256)) digits),
            )
      ]

  new_key-IsKeyOf :
      (cfg : ApiKeyConfig) (key : ApiKey) → new_key sha256_hex cfg ≡ accepted key → IsKeyOf cfg key
  unfolding new_key
  new_key-IsKeyOf cfg key h = elim (KeyResult-cases (key_hash sha256_hex cfg)) [
    | inl (x, e) ↦ ground (arith, e)
    | inr (hash, e) ↦ elim (Bool-cases (is_empty cfg.name)) [
      | inl n ↦ ground (arith, n)
      | inr n ↦
          let made : KeyResult ApiKey = accepted (record {
            hash = hash;
            principal = record {
              name = cfg.name;
              scopes = map to_lower cfg.scopes;
              connections = cfg.connections;
            };
          }) in
          let same : made ≡ accepted key = rw (n, e) at h in
          record {
            named = n;
            name = ground (arith, same);
            scopes = ground (arith, same);
            connections = ground (arith, same);
            hash =
                let hash≡ : hash ≡ key.hash = ground (arith, same) in
                subst (IsHashOf cfg) hash≡ (key_hash-IsHashOf cfg hash e);
          }
    ]
  ]

  new_keys-AreKeysOf :
      (cfgs : List ApiKeyConfig) (keys : List ApiKey)
      → new_keys sha256_hex cfgs ≡ accepted keys
      → AreKeysOf cfgs keys
  unfolding new_keys
  new_keys-AreKeysOf [] keys h = let same : [] ≡ keys = ground arith in subst (AreKeysOf []) same tt
  new_keys-AreKeysOf (cfg ∷ cfgs) keys h = elim (KeyResult-cases (new_key sha256_hex cfg)) [
    | inl (x, e) ↦ ground (arith, e)
    | inr (k, e) ↦ elim (KeyResult-cases (new_keys sha256_hex cfgs)) [
      | inl (x, e') ↦ ground (arith, e, e')
      | inr (ks, e') ↦
          let same : k ∷ ks ≡ keys = ground (arith, e, e') in
          subst (AreKeysOf (cfg ∷ cfgs)) same
            (new_key-IsKeyOf cfg k e, new_keys-AreKeysOf cfgs ks e')
    ]
  ]

  some_keys-same :
      (ks : List ApiKey) (m : Manager)
      → some_keys sha256_hex ks ≡ accepted m
      → (ks ≡ m.keys) × (m.keys ≢ [])
  some_keys-same [] m h = absurd (ground arith)
  some_keys-same (k ∷ ks) m h =
      let same : k ∷ ks ≡ m.keys = ground arith in (same, λ e. ground (arith, same, e))

  -- A manager that `NewManager` makes has at least one key, and its keys belong to the
  -- configured ones in order: each has the name, which is not empty, the lower-case scopes and
  -- the connections of its configuration, and the hash of its token or the configured hash of 64
  -- hexadecimal digits.
  pub new_manager-AreKeysOf :
      (cfgs : List ApiKeyConfig) (m : Manager)
      → new_manager sha256_hex cfgs ≡ accepted m
      → (m.keys ≢ []) × AreKeysOf cfgs m.keys
  unfolding new_manager
  new_manager-AreKeysOf cfgs m h = elim (KeyResult-cases (new_keys sha256_hex cfgs)) [
    | inl (x, e) ↦ ground (arith, e)
    | inr (ks, e) ↦
        let (same, full) = some_keys-same ks m (rw (e, new_manager) at h) in
        (full, subst (AreKeysOf cfgs) same (new_keys-AreKeysOf cfgs ks e))
  ]
