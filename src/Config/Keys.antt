-- ===== src/Config/Keys.antt =====
-- internal/config/config.go and internal/authn/authn.go: the keys of a loaded configuration make a
-- manager.
use felsen_mcp_server_postgr.Base.{
  ℕ, ◌==◌, ltb, Bool, true, false, not, ◌&&◌, ◌||◌, List, [], ◌∷◌, map, none, ◌≡◌, ◌⊎◌, refl, sym,
  ap, ◌∙◌, inl, inr, arith, Text, all, All, All-map, text_eq_iff, Bool-cases, Entries, mem_text,
}
use felsen_mcp_server_postgr.Strings.{
  Unicode, trim_space, trim_left, trim_right, to_lower, utf8_length,
}
use felsen_mcp_server_postgr.Guard.Statement.{is_nil}
use felsen_mcp_server_postgr.Guard.Tables.{is_empty}
use felsen_mcp_server_postgr.Guard.Tables.Unique.{In, IsDistinct, is_empty_iff}
use felsen_mcp_server_postgr.Authn.{
  ApiKeyConfig, ApiKey, Manager, accepted, is_hex_digit, key_hash, new_key, new_keys, new_manager,
}
use felsen_mcp_server_postgr.Config.Model.{ConnectionSettings, Config, System}
use felsen_mcp_server_postgr.Config.Validate.{
  check_hash, check_key, check_keys, with_hash, loaded, load,
}
use felsen_mcp_server_postgr.Config.Switches.{load-parts}
use felsen_mcp_server_postgr.Config.Limits.{
  first_error-none, refuse_if-none, validate_config-HasPassed,
}

trim_space_nil : ⦃u : Unicode⦄ → trim_space [] ≡ []
unfolding trim_space trim_left trim_right
trim_space_nil = refl

hex_ascii : (c : ℕ) → is_hex_digit c ≡ true → ltb c 128 ≡ true
unfolding is_hex_digit
hex_ascii c h = ground arith

-- What the source relies on of `strings.ToLower`: a hexadecimal digit stays one.
abbrev pub KeepsHex : Unicode → Type 0
KeepsHex u = (c : ℕ) → is_hex_digit c ≡ true → is_hex_digit (u.lower c) ≡ true

module _ ⦃u : Unicode⦄ (keeps : KeepsHex u) where
  lower_hex : (s : Text) → all is_hex_digit s ≡ true → all is_hex_digit (to_lower s) ≡ true
  unfolding to_lower
  lower_hex [] h = refl
  lower_hex (c ∷ s) h = ground (arith, keeps c, lower_hex s)

  lower_length : (s : Text) → all is_hex_digit s ≡ true → utf8_length (to_lower s) ≡ utf8_length s
  unfolding to_lower utf8_length
  lower_length [] h = refl
  lower_length (c ∷ s) h =
      ground (arith, hex_ascii c, hex_ascii (u.lower c), keeps c, lower_length s)

module _ ⦃u : Unicode⦄ where
  -- What `Validate` asks of a key that the manager needs.
  abbrev IsUsable : ApiKeyConfig → Type 0
  IsUsable key =
      (is_empty key.name ≡ false)
      × (((key.token_sha256 ≡ []) × (is_empty key.token ≡ false))
          ⊎ (((utf8_length (trim_space key.token_sha256) == 64) ≡ true)
              × (all is_hex_digit (trim_space key.token_sha256) ≡ true)))

  pub full_trimmed : (s : Text) → is_empty (trim_space s) ≡ false → is_empty s ≡ false
  full_trimmed [] h = cc (ap is_empty trim_space_nil)
  full_trimmed (c ∷ s) h = refl

  neither_fails : (a b : Bool) → (not a || not b) ≡ false → (a ≡ true) × (b ≡ true)
  neither_fails true b h = ground arith
  neither_fails false b h = cc

  check_hash-hex :
      (hashes : List Text) (key : ApiKeyConfig)
      → check_hash hashes key ≡ none
      → (key.token_sha256 ≡ [])
        ⊎ (((utf8_length (trim_space key.token_sha256) == 64) ≡ true)
            × (all is_hex_digit (trim_space key.token_sha256) ≡ true))
  unfolding check_hash
  check_hash-hex hashes key h = elim (Bool-cases (is_empty key.token_sha256)) [
    | inl e ↦ inl ((is_empty_iff key.token_sha256).0 e)
    | inr e ↦
        let (hash, _) = first_error-none _ (rw e at h) in
        inr (neither_fails _ _ (refuse_if-none _ _ hash))
  ]

  check_key-tests :
      (connections : Entries ConnectionSettings) (names hashes : List Text) (key : ApiKeyConfig)
      → check_key connections names hashes key ≡ none
      → (is_empty (trim_space key.name) ≡ false)
        × (mem_text key.name names ≡ false)
        × ((is_empty (trim_space key.token) && is_empty (trim_space key.token_sha256)) ≡ false)
        × (check_hash hashes key ≡ none)
  unfolding check_key
  check_key-tests connections names hashes key h =
      let (named, (fresh, (token, (_, (hash, _))))) = first_error-none _ h in
      (refuse_if-none _ _ named, refuse_if-none _ _ fresh, refuse_if-none _ _ token, hash)

  check_key-IsUsable :
      (connections : Entries ConnectionSettings) (names hashes : List Text) (key : ApiKeyConfig)
      → check_key connections names hashes key ≡ none
      → IsUsable key
  check_key-IsUsable connections names hashes key h =
      let (named, fresh, token, hash) = check_key-tests connections names hashes key h in
      (
        full_trimmed key.name named,
        elim (check_hash-hex hashes key hash) [
          | inr hex ↦ inr hex
          | inl e ↦
              let blank : is_empty (trim_space key.token_sha256) ≡ true =
                ap is_empty (ap trim_space e ∙ trim_space_nil) in
              inl (e, full_trimmed key.token (ground (arith, token, blank)))
        ],
      )

  is_empty-lower_nil : is_empty (to_lower []) ≡ true
  unfolding to_lower
  is_empty-lower_nil = refl

  long_full : (s : Text) → (utf8_length s == 64) ≡ true → is_empty s ≡ false
  unfolding utf8_length
  long_full [] h = ground arith
  long_full (c ∷ s) h = refl

  module _ (sha256_hex : Text → Text) where
    token_hash :
        (key : ApiKeyConfig)
        → is_empty (to_lower (trim_space key.token_sha256)) ≡ true
        → is_empty key.token ≡ false
        → key_hash sha256_hex key ≡ accepted (sha256_hex key.token)
    unfolding key_hash
    token_hash key blank token = rw (blank, token) refl

    configured_hash :
        (key : ApiKeyConfig)
        → is_empty (to_lower (trim_space key.token_sha256)) ≡ false
        → (utf8_length (to_lower (trim_space key.token_sha256)) == 64) ≡ true
        → all is_hex_digit (to_lower (trim_space key.token_sha256)) ≡ true
        → key_hash sha256_hex key ≡ accepted (to_lower (trim_space key.token_sha256))
    unfolding key_hash
    configured_hash key full long digits = rw (full, long, digits) refl

  module _ (keeps : KeepsHex u) (sha256_hex : Text → Text) where
    IsUsable-key_hash :
        (key : ApiKeyConfig)
        → IsUsable key
        → (hash : Text) × (key_hash sha256_hex key ≡ accepted hash)
    IsUsable-key_hash key (named, inl (e, token)) = (
      sha256_hex key.token,
      token_hash sha256_hex key
          (ap (λ s. is_empty (to_lower s)) (ap trim_space e ∙ trim_space_nil) ∙ is_empty-lower_nil)
          token,
    )
    IsUsable-key_hash key (named, inr (long, digits)) =
        let hash = trim_space key.token_sha256 in
        let same_length : (utf8_length (to_lower hash) == 64) ≡ true =
          ap (λ n. n == 64) (lower_length keeps hash digits) ∙ long in
        (
          to_lower hash,
          configured_hash sha256_hex key (long_full (to_lower hash) same_length) same_length
              (lower_hex keeps hash digits),
        )

    IsUsable-new_key :
        (key : ApiKeyConfig)
        → IsUsable key
        → (made : ApiKey) × (new_key sha256_hex key ≡ accepted made)
    unfolding new_key
    IsUsable-new_key key usable =
        let (hash, e) = IsUsable-key_hash key usable in
        (
          record {
            hash = hash;
            principal = record {
              name = key.name;
              scopes = map to_lower key.scopes;
              connections = key.connections;
            };
          },
          rw (usable.0, e) refl,
        )

    -- Keys that `Validate` lets pass make keys of the manager.
    check_keys-new_keys :
        (connections : Entries ConnectionSettings) (names hashes : List Text)
        (keys : List ApiKeyConfig)
        → check_keys connections names hashes keys ≡ none
        → (made : List ApiKey) × (new_keys sha256_hex keys ≡ accepted made)
          × (is_nil made ≡ is_nil keys)
    unfolding check_keys new_keys
    check_keys-new_keys connections names hashes [] h = ([], refl, refl)
    check_keys-new_keys connections names hashes (key ∷ keys) h =
        let (one, (others, _)) = first_error-none _ h in
        let (first, e) =
          IsUsable-new_key key (check_key-IsUsable connections names hashes key one) in
        let (rest, f, _) =
          check_keys-new_keys connections (key.name ∷ names) (with_hash key hashes) keys others in
        (first ∷ rest, rw (new_keys, e, f) refl, refl)

    some_manager :
        (keys : List ApiKeyConfig) (made : List ApiKey)
        → is_nil made ≡ false
        → new_keys sha256_hex keys ≡ accepted made
        → (m : Manager) × (new_manager sha256_hex keys ≡ accepted m)
    unfolding new_manager
    some_manager keys [] n e = cc
    some_manager keys (k ∷ ks) n e = (record { keys = k ∷ ks }, rw (new_manager, e) refl)

    -- The keys of a configuration that `Load` returns always make a manager: `NewManager` refuses
    -- none of them, if the lower case of a hexadecimal digit is one.
    pub load-new_manager :
        (sys : System) (decoded cfg : Config)
        → load sys decoded ≡ loaded cfg
        → (m : Manager) × (new_manager sha256_hex cfg.api_keys ≡ accepted m)
    load-new_manager sys decoded cfg h =
        let passed = validate_config-HasPassed sys cfg ((load-parts sys decoded cfg h).1) in
        let (made, e, size) = check_keys-new_keys cfg.connections [] [] cfg.api_keys passed.keys in
        some_manager cfg.api_keys made (size ∙ passed.some_key) e

  -- No name of the rest is among the names seen, nor twice in the rest.
  abbrev AreNew : List Text → List ApiKeyConfig → Type 0
  AreNew names keys = All (λ key. mem_text key.name names ≡ false) keys

  AreNew-not_In :
      (name : Text) (names : List Text) (keys : List ApiKeyConfig)
      → AreNew (name ∷ names) keys
      → ¬ In name (map (λ key. key.name) keys)
  unfolding mem_text
  AreNew-not_In name names [] new h = absurd h
  AreNew-not_In name names (key ∷ keys) new (inl e) =
      ground (arith, new.0, text_eq_iff key.name name, sym e)
  AreNew-not_In name names (key ∷ keys) new (inr h) = AreNew-not_In name names keys new.1 h

  check_keys-AreNew :
      (connections : Entries ConnectionSettings) (names hashes : List Text)
      (keys : List ApiKeyConfig)
      → check_keys connections names hashes keys ≡ none
      → AreNew names keys × IsDistinct (map (λ key. key.name) keys)
  unfolding check_keys mem_text
  check_keys-AreNew connections names hashes [] h = (tt, tt)
  check_keys-AreNew connections names hashes (key ∷ keys) h =
      let (one, (others, _)) = first_error-none _ h in
      let (_, fresh, _, _) = check_key-tests connections names hashes key one in
      let (new, distinct) =
        check_keys-AreNew connections (key.name ∷ names) (with_hash key hashes) keys others in
      (
        (
          fresh,
          All-map (λ k. mem_text k.name (key.name ∷ names) ≡ false)
              (λ k. mem_text k.name names ≡ false) (λ k n. ground arith) keys new,
        ),
        (AreNew-not_In key.name names keys new, distinct),
      )

  -- The names of the keys of a configuration that `Load` returns differ from each other.
  pub load-IsDistinct :
      (sys : System) (decoded cfg : Config)
      → load sys decoded ≡ loaded cfg
      → IsDistinct (map (λ key. key.name) cfg.api_keys)
  load-IsDistinct sys decoded cfg h =
      let passed = validate_config-HasPassed sys cfg ((load-parts sys decoded cfg h).1) in
      (check_keys-AreNew cfg.connections [] [] cfg.api_keys passed.keys).1
