-- ===== src/Config/Limits.antt =====
-- internal/config/config.go: the ranges that a loaded configuration keeps.
use felsen_mcp_server_postgr.Base.{
  ◌≤◌, ◌<◌, ℤ, pos, negsuc, is_positive, is_negative, to_nat, is_positive-to_nat, int_leb, Bool,
  true, false, not, ◌&&◌, ◌||◌, List, [], ◌∷◌, All, Option, none, some, ◌≡◌, refl, inl, inr, arith,
  Text, text_eq, text_eq_iff, Bool-cases, Entries, find,
}
use felsen_mcp_server_postgr.Strings.{Unicode}
use felsen_mcp_server_postgr.Guard.Statement.{is_nil}
use felsen_mcp_server_postgr.Config.Model.{ServerConfig, ConnectionSettings, Config, System}
use felsen_mcp_server_postgr.Config.Check.{ConfigError, first_error, refuse_if, check_server}
use felsen_mcp_server_postgr.Config.Validate.{
  validate_config, check_connections, check_connection, limits_positive, connection_config,
  check_keys, check_oauth_if_enabled, loaded, load,
}
use felsen_mcp_server_postgr.Config.Switches.{load-parts}

pub first_error-none :
    (checks : List (Option ConfigError))
    → first_error checks ≡ none
    → All (λ check. check ≡ none) checks
unfolding first_error
first_error-none [] h = tt
first_error-none (none ∷ checks) h = (refl, first_error-none checks h)
first_error-none (some e ∷ checks) h = cc

pub refuse_if-none : (test : Bool) (e : ConfigError) → refuse_if test e ≡ none → test ≡ false
unfolding refuse_if
refuse_if-none true e h = cc
refuse_if-none false e h = refl

-- The ranges of the server: its port fits in 16 bits, and its limits are positive.
pub record HasServerLimits (s : ServerConfig) : Type 0 where
  pub port_low : 0 < to_nat s.port
  pub port_high : to_nat s.port ≤ 65535
  pub rows : 0 < to_nat s.max_rows
  pub search_results : 0 < to_nat s.max_search_results
  pub body_bytes : 0 < to_nat s.max_body_bytes
  pub concurrent : 0 < to_nat s.max_concurrent

-- The limits of a connection, as the store reads them, are positive, and its pool is not smaller
-- than the connections it keeps open.
pub record HasLimits (c : ConnectionSettings) : Type 0 where
  pub rows : 0 < (connection_config c).max_rows
  pub affected_rows : 0 < (connection_config c).max_affected_rows
  pub script_statements : 0 < (connection_config c).max_script_statements
  pub script_affected_rows : 0 < (connection_config c).max_script_affected_rows
  pub script_bytes : 0 < (connection_config c).max_script_bytes
  pub pool : to_nat c.min_conns ≤ to_nat c.max_conns
  pub pool_positive : 0 < to_nat c.max_conns
  pub schemas : is_nil c.schemas ≡ false

int_leb-to_nat : (a b : ℤ) → is_negative a ≡ false → int_leb a b ≡ true → to_nat a ≤ to_nat b
unfolding int_leb is_negative to_nat
int_leb-to_nat (pos a) (pos b) n h = ground arith
int_leb-to_nat (pos a) (negsuc b) n h = cc
int_leb-to_nat (negsuc a) b n h = cc

is_positive-is_negative : (a : ℤ) → is_positive a ≡ true → is_negative a ≡ false
unfolding is_positive is_negative
is_positive-is_negative (pos n) h = refl
is_positive-is_negative (negsuc n) h = cc

module _ ⦃u : Unicode⦄ (sys : System) where
  check_server-tests :
      (s : ServerConfig)
      → check_server sys s ≡ none
      → ((not (is_positive s.port) || not (int_leb s.port (pos 65535))) ≡ false)
        × (not (
              is_positive s.max_rows
              && is_positive s.max_search_results
              && is_positive s.max_body_bytes
              && is_positive s.max_concurrent)
            ≡ false)
  unfolding check_server
  check_server-tests s h =
      let (_, (port, (_, (_, (_, (_, (_, (_, (_, (limits, _)))))))))) = first_error-none _ h in
      (refuse_if-none _ _ port, refuse_if-none _ _ limits)

  HasServerLimits-tests :
      (s : ServerConfig)
      → (not (is_positive s.port) || not (int_leb s.port (pos 65535))) ≡ false
      → not (
          is_positive s.max_rows
          && is_positive s.max_search_results
          && is_positive s.max_body_bytes
          && is_positive s.max_concurrent)
        ≡ false
      → HasServerLimits s
  unfolding to_nat
  HasServerLimits-tests s port limits = record {
    port_low = is_positive-to_nat s.port (ground arith);
    port_high =
        int_leb-to_nat s.port (pos 65535) (is_positive-is_negative s.port (ground arith))
          (ground arith);
    rows = is_positive-to_nat s.max_rows (ground arith);
    search_results = is_positive-to_nat s.max_search_results (ground arith);
    body_bytes = is_positive-to_nat s.max_body_bytes (ground arith);
    concurrent = is_positive-to_nat s.max_concurrent (ground arith);
  }

  check_connection-tests :
      (name : Text) (c : ConnectionSettings)
      → check_connection sys name c ≡ none
      → (not (limits_positive c) ≡ false)
        × ((is_negative c.min_conns
              || not (is_positive c.max_conns)
              || not (int_leb c.min_conns c.max_conns))
            ≡ false)
        × (is_nil c.schemas ≡ false)
  unfolding check_connection
  check_connection-tests name c h =
      let (_, (_, (_, (limits, (pool, (schemas, _)))))) = first_error-none _ h in
      (refuse_if-none _ _ limits, refuse_if-none _ _ pool, refuse_if-none _ _ schemas)

  HasLimits-tests :
      (c : ConnectionSettings)
      → not (limits_positive c) ≡ false
      → (is_negative c.min_conns
          || not (is_positive c.max_conns)
          || not (int_leb c.min_conns c.max_conns))
        ≡ false
      → is_nil c.schemas ≡ false
      → HasLimits c
  unfolding limits_positive connection_config
  HasLimits-tests c limits pool schemas = record {
    rows = is_positive-to_nat c.max_rows (ground arith);
    affected_rows = is_positive-to_nat c.max_affected_rows (ground arith);
    script_statements = is_positive-to_nat c.max_script_statements (ground arith);
    script_affected_rows = is_positive-to_nat c.max_script_affected_rows (ground arith);
    script_bytes = is_positive-to_nat c.max_script_bytes (ground arith);
    pool = int_leb-to_nat c.min_conns c.max_conns (ground arith) (ground arith);
    pool_positive = is_positive-to_nat c.max_conns (ground arith);
    schemas = schemas;
  }

  check_connections-found :
      (connections : Entries ConnectionSettings) (name : Text) (c : ConnectionSettings)
      → check_connections sys connections ≡ none
      → find connections name ≡ some c
      → check_connection sys name c ≡ none
  unfolding check_connections find
  check_connections-found [] name c h found = cc
  check_connections-found ((n, a) ∷ connections) name c h found =
      let (one, (rest, _)) = first_error-none _ h in
      elim (Bool-cases (text_eq n name)) [
        | inl e ↦
            let same : a ≡ c = ground (arith, e, found) in
            rw (← same, ← (text_eq_iff n name).0 e) one
        | inr e ↦ check_connections-found connections name c rest (rw e at found)
      ]

  -- What `Validate` has checked, part by part.
  pub record HasPassed (cfg : Config) : Type 0 where
    pub server : check_server sys cfg.server ≡ none
    pub some_key : is_nil cfg.api_keys ≡ false
    pub oauth : check_oauth_if_enabled sys cfg ≡ none
    pub keys : check_keys cfg.connections [] [] cfg.api_keys ≡ none
    pub connections : check_connections sys cfg.connections ≡ none

  pub validate_config-HasPassed : (cfg : Config) → validate_config sys cfg ≡ none → HasPassed cfg
  unfolding validate_config
  validate_config-HasPassed cfg h =
      let (_, (server, (some_key, (oauth, (keys, (connections, _)))))) = first_error-none _ h in
      record {
        server = server;
        some_key = refuse_if-none _ _ some_key;
        oauth = oauth;
        keys = keys;
        connections = connections;
      }

  -- A configuration that `Load` returns has a port between 1 and 65535 and positive limits, for
  -- the server and for each of its connections, a pool that holds at least the connections that
  -- are kept open, and schemas for each connection.
  pub load-HasLimits :
      (decoded cfg : Config) (name : Text) (c : ConnectionSettings)
      → load sys decoded ≡ loaded cfg
      → find cfg.connections name ≡ some c
      → HasServerLimits cfg.server × HasLimits c
  load-HasLimits decoded cfg name c h found =
      let passed = validate_config-HasPassed cfg ((load-parts sys decoded cfg h).1) in
      let (port, limits) = check_server-tests cfg.server passed.server in
      let (positive, pool, schemas) =
        check_connection-tests name c
          (check_connections-found cfg.connections name c passed.connections found) in
      (HasServerLimits-tests cfg.server port limits, HasLimits-tests c positive pool schemas)
