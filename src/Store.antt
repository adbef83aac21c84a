-- ===== src/Store.antt =====
-- internal/postgres/store.go and types.go: the state of a connection, and what an operation asks
-- of PostgreSQL. The driver (jackc/pgx) is an argument that answers from the history of the calls
-- so far, whatever it is: `Driver`. The history is newest first. Timeouts are errors of the
-- driver; the lock on the cache is not modelled, each operation is one step.
pub mod Effects
pub mod Query
pub mod Change
pub mod Run
pub mod Describe
use felsen_mcp_server_postgr.Base.{
  ℕ, ◌+◌, Bool, true, false, List, [], ◌∷◌, ◌++◌, map, Option, none, some, Text, text_eq, any,
  runes, ◌≡◌, refl, ◌⊎◌, inl, inr, if◌then◌else◌,
}
use felsen_mcp_server_postgr.Config.Policy.{ConnectionConfig}
use felsen_mcp_server_postgr.Masking.{Masker, Value}
use felsen_mcp_server_postgr.Guard.Reason.{Reason}
use felsen_mcp_server_postgr.Guard.Statement.{is_nil}

-- An answer of the driver: a value, or the text of an error.
pub data Answer {ℓ} (A : Type ℓ) : Type ℓ where
  value : A → Answer A
  failure : Text → Answer A

pub Answer-cases {ℓ} :
    {A : Type ℓ} (r : Answer A) → ((e : Text) × (r ≡ failure e)) ⊎ ((a : A) × (r ≡ value a))
Answer-cases (value a) = inr (a, refl)
Answer-cases (failure e) = inl (e, refl)

-- The errors of the store's operations.
pub data StoreError : Type 0 where
  unknown_connection : Text → StoreError
  invalid_statement : Option Reason → StoreError
  schema_refused : Text → StoreError
  invalid_script : Reason → StoreError
  script_too_large : ℕ → ℕ → StoreError
  driver : Text → StoreError
  dml_exceeds : ℕ → ℕ → StoreError
  script_exceeds : ℕ → ℕ → StoreError
  statement_failed : ℕ → Text → Text → StoreError
  unsupported_execution : ℕ → StoreError

pub data Outcome {ℓ} (A : Type ℓ) : Type ℓ where
  done : A → Outcome A
  failed : StoreError → Outcome A

-- One call of the driver and what it came to; `begun true` is a read-only transaction.
pub data Event : Type 0 where
  begun : Bool → Event
  begin_failed : Event
  path_set : Text → Event
  path_failed : Event
  executed : Text → Event
  execute_failed : Text → Event
  queried : Text → Event
  query_failed : Text → Event
  committed commit_failed rolled_back : Event

-- The rows of a query: `Values` fails on a row that is an error; the last field is `rows.Err()`.
pub record Rows : Type 0 where
  pub fields : List Text
  pub values : List (Answer (List Value))
  pub error : Option Text

pub record Driver : Type 0 where
  pub begin : List Event → Bool → Option Text
  pub set_path : List Event → Text → Option Text
  pub exec : List Event → Text → Answer ℕ
  pub query : List Event → Text → List ℕ → Answer Rows
  pub commit : List Event → Option Text

pub record ColumnInfo : Type 0 where
  pub name : Text
  pub type : Text
  pub nullable : Bool
  pub default : Option Text
  pub comment : Option Text
  pub is_primary_key : Bool

pub record ForeignKeyInfo : Type 0 where
  pub name : Text
  pub column : Text
  pub foreign_schema : Text
  pub foreign_table : Text
  pub foreign_column : Text

pub record IndexInfo : Type 0 where
  pub name : Text
  pub columns : List Text
  pub unique : Bool
  pub definition : Text

pub record TableDescription : Type 0 where
  pub schema : Text
  pub table : Text
  pub columns : List ColumnInfo
  pub primary_key : List Text
  pub foreign_keys : List ForeignKeyInfo
  pub indexes : List IndexInfo

-- `database`, without the pool.
pub record Database : Type 0 where
  pub cfg : ConnectionConfig
  pub masker : Masker
  pub cache : List (Text × TableDescription)

-- `Store.db`: the database of a name.
unfoldable pub find_database : List (Text × Database) → Text → Outcome Database
find_database [] connection = failed (unknown_connection connection)
find_database ((name, db) ∷ conns) connection =
    let rest = find_database conns connection in if text_eq name connection then done db else rest

-- `strings.Join(parts, ",")`.
unfoldable pub join_commas : List Text → Text
join_commas [] = []
join_commas (p ∷ []) = p
join_commas (p ∷ q ∷ ps) = p ++ b',' ∷ join_commas (q ∷ ps)

-- The search path that `setScopedSearchPath` sets, if it sets one; `sanitize` is that of pgx.
unfoldable pub scoped_path : (List Text → Text) → ConnectionConfig → Option Text
scoped_path sanitize cfg =
    if is_nil cfg.schemas
    then none
    else if any (λ schema. text_eq schema (runes "*")) cfg.schemas
    then none
    else some (join_commas (map (λ schema. sanitize (schema ∷ [])) cfg.schemas))

module _ (d : Driver) (sanitize : List Text → Text) (cfg : ConnectionConfig) where
  -- `setScopedSearchPath` in a transaction that is rolled back if it fails.
  unfoldable pub set_scoped_search_path : List Event → Option Text × List Event
  set_scoped_search_path h = elim (scoped_path sanitize cfg) [
    | none ↦ (none, h)
    | some path ↦ elim (d.set_path h path) [
      | none ↦ (none, path_set path ∷ h)
      | some e ↦ (some e, rolled_back ∷ path_failed ∷ h)
    ]
  ]

  -- `BeginTx` and `setScopedSearchPath`, as each operation starts.
  unfoldable pub begin_scoped : Bool → List Event → Option Text × List Event
  begin_scoped read_only h = elim (d.begin h read_only) [
    | some e ↦ (some e, begin_failed ∷ h)
    | none ↦ set_scoped_search_path (begun read_only ∷ h)
  ]

-- The rest of an operation, behind the start of its transaction and behind a step.
abbrev pub after_begin {ℓ} :
    {A : Type ℓ}
    → (List Event → Outcome A × List Event)
    → Option Text × List Event
    → Outcome A × List Event
after_begin run (some e, h) = (failed (driver e), h)
after_begin run (none, h) = run h

abbrev pub on_done {ℓ κ} :
    {A : Type ℓ} {B : Type κ}
    → (A → List Event → Outcome B × List Event)
    → Outcome A × List Event
    → Outcome B × List Event
on_done run (failed e, h) = (failed e, h)
on_done run (done a, h) = run a h
