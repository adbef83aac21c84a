-- ===== src/Config/Switches.antt =====
-- internal/config/config.go: what `MCP_DML_ENABLED` and `MCP_DDL_ENABLED` do to every connection.
use felsen_mcp_server_postgr.Base.{
  Bool, true, false, [], ◌∷◌, none, some, ◌≡◌, refl, inl, inr, arith, Text, text_eq, runes,
  Bool-cases, Option-cases, Entries, find,
}
use felsen_mcp_server_postgr.Strings.{Unicode}
use felsen_mcp_server_postgr.Config.Policy.{ddl_allowed, dml_allowed}
use felsen_mcp_server_postgr.Config.Model.{ConnectionSettings, Config, System}
use felsen_mcp_server_postgr.Config.Defaults.{
  EnvironmentBool, unset, malformed, set_to, set_ddl, set_dml, map_connections, default_connection,
  default_server, read_environment_bool, apply_mutation_environment, apply_defaults,
}
use felsen_mcp_server_postgr.Config.Validate.{validate_config, loaded, load, connection_config}

find-map_connections :
    (f : ConnectionSettings → ConnectionSettings) (m : Entries ConnectionSettings) (name : Text)
    (c : ConnectionSettings)
    → find (map_connections f m) name ≡ some c
    → (old : ConnectionSettings) × (find m name ≡ some old) × (f old ≡ c)
unfolding find map_connections
find-map_connections f [] name c h = cc
find-map_connections f ((n, a) ∷ m) name c h = elim (Bool-cases (text_eq n name)) [
  | inl e ↦ (a, rw e refl, ground (arith, e))
  | inr e ↦ rw e (find-map_connections f m name c (rw e at h))
]

module _ ⦃u : Unicode⦄ (sys : System) where
  -- What `Load` returns has passed both steps.
  pub load-parts :
      (decoded cfg : Config)
      → load sys decoded ≡ loaded cfg
      → (apply_defaults sys decoded ≡ some cfg) × (validate_config sys cfg ≡ none)
  unfolding load
  load-parts decoded cfg h = elim (Option-cases (apply_defaults sys decoded)) [
    | inl e ↦ ground (arith, e)
    | inr (made, e) ↦ elim (Option-cases (validate_config sys made)) [
      | inr (x, f) ↦ ground (arith, e, f)
      | inl f ↦ let same : made ≡ cfg = ground (arith, e, f) in (rw same at e, rw same at f)
    ]
  ]

  apply_mutation_environment-found :
      (before after : Entries ConnectionSettings) (name : Text) (c : ConnectionSettings)
      → apply_mutation_environment sys before ≡ some after
      → find after name ≡ some c
      → (old : ConnectionSettings) × (set_dml
            (read_environment_bool sys (runes "MCP_DML_ENABLED"))
            (set_ddl (read_environment_bool sys (runes "MCP_DDL_ENABLED")) old)
          ≡ c)
  unfolding apply_mutation_environment
  apply_mutation_environment-found before after name c h found =
      let ddl = read_environment_bool sys (runes "MCP_DDL_ENABLED") in
      let dml = read_environment_bool sys (runes "MCP_DML_ENABLED") in
      let same : map_connections (λ x. set_dml dml (set_ddl ddl x)) before ≡ after = ground arith in
      let (old, _, made) =
        find-map_connections (λ x. set_dml dml (set_ddl ddl x)) before name c
          (rw (← same) at found) in
      (old, made)

  apply_defaults-found :
      (decoded cfg : Config) (name : Text) (c : ConnectionSettings)
      → apply_defaults sys decoded ≡ some cfg
      → find cfg.connections name ≡ some c
      → (old : ConnectionSettings) × (set_dml
            (read_environment_bool sys (runes "MCP_DML_ENABLED"))
            (set_ddl (read_environment_bool sys (runes "MCP_DDL_ENABLED")) old)
          ≡ c)
  unfolding apply_defaults
  apply_defaults-found decoded cfg name c h found =
      let before =
        map_connections (default_connection sys (default_server sys decoded.server))
          decoded.connections in
      elim (Option-cases (apply_mutation_environment sys before)) [
        | inl e ↦ ground (arith, e)
        | inr (after, e) ↦
            let same : after ≡ cfg.connections = ground (arith, e) in
            apply_mutation_environment-found before after name c e (rw (← same) at found)
      ]

  no_policies :
      (old c : ConnectionSettings) (ddl : EnvironmentBool) (schema table operation : Text)
      → set_dml (set_to false) (set_ddl ddl old) ≡ c
      → dml_allowed (connection_config c) schema table operation ≡ false
  unfolding set_dml dml_allowed connection_config
  no_policies old c ddl schema table operation h = rw (← h) refl

  ddl_as_set :
      (old c : ConnectionSettings) (dml : EnvironmentBool) (enabled : Bool)
      → set_dml dml (set_ddl (set_to enabled) old) ≡ c
      → ddl_allowed (connection_config c) ≡ enabled
  unfolding set_dml set_ddl ddl_allowed connection_config
  ddl_as_set old c (set_to true) enabled h = rw (← h) refl
  ddl_as_set old c (set_to false) enabled h = rw (← h) refl
  ddl_as_set old c unset enabled h = rw (← h) refl
  ddl_as_set old c malformed enabled h = rw (← h) refl

  -- In a configuration that `Load` returns while `MCP_DML_ENABLED` is set to false, no connection
  -- allows any operation on any table, whatever policies the file has.
  pub load-dml_off :
      (decoded cfg : Config) (name schema table operation : Text) (c : ConnectionSettings)
      → load sys decoded ≡ loaded cfg
      → find cfg.connections name ≡ some c
      → read_environment_bool sys (runes "MCP_DML_ENABLED") ≡ set_to false
      → dml_allowed (connection_config c) schema table operation ≡ false
  load-dml_off decoded cfg name schema table operation c h found off =
      let (old, made) =
        apply_defaults-found decoded cfg name c ((load-parts decoded cfg h).0) found in
      no_policies old c (read_environment_bool sys (runes "MCP_DDL_ENABLED")) schema table operation
        (rw off at made)

  -- In a configuration that `Load` returns while `MCP_DDL_ENABLED` is set, its value decides for
  -- every connection whether DDL is allowed, whatever the file says.
  pub load-ddl_set :
      (decoded cfg : Config) (name : Text) (c : ConnectionSettings) (enabled : Bool)
      → load sys decoded ≡ loaded cfg
      → find cfg.connections name ≡ some c
      → read_environment_bool sys (runes "MCP_DDL_ENABLED") ≡ set_to enabled
      → ddl_allowed (connection_config c) ≡ enabled
  load-ddl_set decoded cfg name c enabled h found on =
      let (old, made) =
        apply_defaults-found decoded cfg name c ((load-parts decoded cfg h).0) found in
      ddl_as_set old c (read_environment_bool sys (runes "MCP_DML_ENABLED")) enabled (rw on at made)
