-- ===== src/Store/Effects.antt =====
-- What a history of calls means for the database, independently of the store: whatever runs in a
-- read-write transaction, a query too, takes effect together with the rest of it when it is
-- committed; what runs in a read-only transaction changes nothing, since PostgreSQL refuses to
-- write in one. A commit that fails makes nothing effective (PostgreSQL rolls back), which is what
-- the source relies on too.
use felsen_mcp_server_postgr.Base.{
  Bool, true, false, not, List, [], ◌∷◌, ◌++◌, Option, none, some, ◌≡◌, refl, arith, Text,
}
use felsen_mcp_server_postgr.Config.Policy.{ConnectionConfig}
use felsen_mcp_server_postgr.Store.{
  Event, begun, begin_failed, path_set, path_failed, executed, execute_failed, queried,
  query_failed, committed, commit_failed, rolled_back, Driver, set_scoped_search_path, begin_scoped,
  Outcome, done, failed, StoreError, driver, after_begin,
}

-- Whether the open transaction may write.
unfoldable pub may_write : List Event → Bool
may_write [] = false
may_write (begun read_only ∷ h) = not read_only
may_write (begin_failed ∷ h) = false
may_write (committed ∷ h) = false
may_write (commit_failed ∷ h) = false
may_write (rolled_back ∷ h) = false
may_write (_ ∷ h) = may_write h

abbrev pub add_if_writing : Bool → List Text → Text → List Text
add_if_writing true sqls sql = sqls ++ sql ∷ []
add_if_writing false sqls sql = sqls

-- What the open transaction has run and may write.
unfoldable pub pending : List Event → List Text
pending [] = []
pending (executed sql ∷ h) = add_if_writing (may_write h) (pending h) sql
pending (queried sql ∷ h) = add_if_writing (may_write h) (pending h) sql
pending (path_set p ∷ h) = pending h
pending (path_failed ∷ h) = pending h
pending (execute_failed sql ∷ h) = pending h
pending (query_failed sql ∷ h) = pending h
pending (_ ∷ h) = []

-- The statements in effect, in order.
unfoldable pub effects : List Event → List Text
effects [] = []
effects (committed ∷ h) = effects h ++ pending h
effects (_ ∷ h) = effects h

-- Whether a transaction is open.
unfoldable pub is_open : List Event → Bool
is_open [] = false
is_open (begun r ∷ h) = true
is_open (begin_failed ∷ h) = false
is_open (committed ∷ h) = false
is_open (commit_failed ∷ h) = false
is_open (rolled_back ∷ h) = false
is_open (_ ∷ h) = is_open h

module _ (d : Driver) (sanitize : List Text → Text) (cfg : ConnectionConfig) where
  -- Behind a successful start the transaction is empty, may write unless it is read-only, and
  -- nothing has changed.
  pub begin_scoped-fresh :
      (read_only : Bool) (h h' : List Event)
      → begin_scoped d sanitize cfg read_only h ≡ (none, h')
      → (pending h' ≡ []) × (effects h' ≡ effects h) × (may_write h' ≡ not read_only)
  unfolding begin_scoped set_scoped_search_path pending effects may_write
  begin_scoped-fresh read_only h h' e = ground arith

  -- A start that fails leaves no transaction open, and nothing has changed.
  pub begin_scoped-failed :
      (read_only : Bool) (h h' : List Event) (e : Text)
      → begin_scoped d sanitize cfg read_only h ≡ (some e, h')
      → (effects h' ≡ effects h) × (is_open h' ≡ false)
  unfolding begin_scoped set_scoped_search_path pending effects is_open
  begin_scoped-failed read_only h h' e eq = ground arith

-- An operation that takes effect whole, and only if it returns a result; it leaves no transaction
-- open.
abbrev pub Atomic {ℓ} : {A : Type ℓ} → List Event → List Text → Outcome A × List Event → Type 0
Atomic h sqls (done a, h') = (effects h' ≡ effects h ++ sqls) × (is_open h' ≡ false)
Atomic h sqls (failed e, h') = (effects h' ≡ effects h) × (is_open h ≡ false → is_open h' ≡ false)

-- An operation that changes nothing and leaves no transaction open.
abbrev pub Quiet : List Event → List Event → Type 0
Quiet h h' = (effects h' ≡ effects h) × (is_open h ≡ false → is_open h' ≡ false)

module _ (d : Driver) (sanitize : List Text → Text) (cfg : ConnectionConfig) (read_only : Bool)
    (h : List Event) where
  -- What holds of an operation that does not start, and of one that goes on in a new transaction.
  pub after_begin-cases {ℓ} :
      {A : Type ℓ} (P : Outcome A × List Event → Type 0) (run : List Event → Outcome A × List Event)
      → ((e : StoreError) (h' : List Event)
          → effects h' ≡ effects h
          → is_open h' ≡ false
          → P (failed e, h'))
      → ((h' : List Event)
          → pending h' ≡ []
          → effects h' ≡ effects h
          → may_write h' ≡ not read_only
          → P (run h'))
      → P (after_begin run (begin_scoped d sanitize cfg read_only h))
  after_begin-cases P run refused started = go (begin_scoped d sanitize cfg read_only h) refl
    where
      go :
          (p : Option Text × List Event)
          → begin_scoped d sanitize cfg read_only h ≡ p
          → P (after_begin run p)
      go (some e, h') eq =
          let (same, shut) = begin_scoped-failed d sanitize cfg read_only h h' e eq in
          refused (driver e) h' same shut
      go (none, h') eq =
          let (empty, same, opened) = begin_scoped-fresh d sanitize cfg read_only h h' eq in
          started h' empty same opened
