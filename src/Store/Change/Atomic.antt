-- ===== src/Store/Change/Atomic.antt =====
-- One DML or DDL statement takes effect exactly when its operation returns a result.
use felsen_mcp_server_postgr.Base.{
  ◌≤◌, true, false, not, List, [], ◌∷◌, ◌≡◌, refl, inl, inr, arith, Text, ltb, if_cases,
  Option-cases,
}
use felsen_mcp_server_postgr.Strings.{Unicode}
use felsen_mcp_server_postgr.Guard.Reason.{Result}
use felsen_mcp_server_postgr.Guard.Validate.{dml, ddl, ValidationResult, validate}
use felsen_mcp_server_postgr.Store.{
  Answer-cases, Outcome, done, failed, Event, executed, Driver, Database,
}
use felsen_mcp_server_postgr.Store.Change.{
  DmlResult, commit_with, exec_dml, exec_ddl, execute_dml, run_ddl, execute_ddl, cache_after,
  clear_cache,
}
use felsen_mcp_server_postgr.Store.Effects.{
  pending, effects, may_write, is_open, Atomic, after_begin-cases,
}

module _ (d : Driver) where
  -- A commit makes the statements of the transaction effective.
  pub commit_with-Atomic {ℓ} :
      {A : Type ℓ} (a : A) (h h1 : List Event) (sqls : List Text)
      → effects h1 ≡ effects h
      → pending h1 ≡ sqls
      → Atomic h sqls (commit_with d a h1)
  unfolding commit_with effects is_open
  commit_with-Atomic a h h1 sqls e p = elim (Option-cases (d.commit h1)) [
    | inl c ↦ rw (c, commit_with) (rw (e, p) refl, refl)
    | inr (x, c) ↦ rw (c, commit_with) (e, λ _. refl)
  ]

  module _ (sanitize : List Text → Text) (db : Database) (h : List Event) (sql : Text) where
    exec_dml-Atomic :
        (h1 : List Event)
        → pending h1 ≡ []
        → effects h1 ≡ effects h
        → may_write h1 ≡ true
        → Atomic h (sql ∷ []) (exec_dml d sanitize db sql h1)
    unfolding exec_dml effects is_open pending
    exec_dml-Atomic h1 p e w = elim (Answer-cases (d.exec h1 sql)) [
      | inl (x, r) ↦ rw (r, exec_dml) (e, λ _. refl)
      | inr (rows, r) ↦
          rw (r, exec_dml)
            (if_cases (Atomic h (sql ∷ [])) (ltb db.cfg.max_affected_rows rows)
              (λ _. (e, λ _. refl))
              λ _. commit_with-Atomic _ h (executed sql ∷ h1) (sql ∷ []) e (rw (w, p) refl))
    ]

    exec_ddl-Atomic :
        (v : ValidationResult) (h1 : List Event)
        → pending h1 ≡ []
        → effects h1 ≡ effects h
        → may_write h1 ≡ true
        → Atomic h (sql ∷ []) (exec_ddl d sanitize db v sql h1)
    unfolding exec_ddl effects is_open pending
    exec_ddl-Atomic v h1 p e w = elim (Answer-cases (d.exec h1 sql)) [
      | inl (x, r) ↦ rw (r, exec_ddl) (e, λ _. refl)
      | inr (rows, r) ↦
          rw (r, exec_ddl)
            (commit_with-Atomic _ h (executed sql ∷ h1) (sql ∷ []) e (rw (w, p) refl))
    ]

    module _ ⦃u : Unicode⦄ (split : Text → Result (List Text)) where
      -- `ExecuteDML` makes its statement effective if it returns a result, and leaves no
      -- transaction open; if it returns an error nothing has taken effect, and no transaction is
      -- open if none was before.
      pub execute_dml-Atomic : Atomic h (sql ∷ []) (execute_dml d sanitize db split sql h)
      unfolding execute_dml
      execute_dml-Atomic =
          if_cases (Atomic h (sql ∷ [])) (not (validate split sql db.cfg dml).valid)
            (λ _. (refl, λ shut. shut))
            λ _.
              after_begin-cases d sanitize db.cfg false h (Atomic h (sql ∷ []))
                (exec_dml d sanitize db sql) (λ x h' e shut. (e, λ _. shut))
                λ h' p e w. exec_dml-Atomic h' p e w

      run_ddl-Atomic : Atomic h (sql ∷ []) (run_ddl d sanitize db split sql h)
      unfolding run_ddl
      run_ddl-Atomic =
          if_cases (Atomic h (sql ∷ [])) (not (validate split sql db.cfg ddl).valid)
            (λ _. (refl, λ shut. shut))
            λ _.
              after_begin-cases d sanitize db.cfg false h (Atomic h (sql ∷ []))
                (exec_ddl d sanitize db (validate split sql db.cfg ddl) sql)
                (λ x h' e shut. (e, λ _. shut))
                λ h' p e w. exec_ddl-Atomic (validate split sql db.cfg ddl) h' p e w

      -- The result of `ExecuteDDL` and the cache behind it.
      abbrev pub DropsCache {ℓ} : {A : Type ℓ} → Outcome A × Database × List Event → Type 0
      DropsCache (done a, db', h') = db'.cache ≡ []
      DropsCache (failed e, db', h') = db' ≡ db

      cache_after-DropsCache {ℓ} :
          {A : Type ℓ} (o : Outcome A) (h' : List Event)
          → DropsCache (o, cache_after d sanitize db o, h')
      unfolding clear_cache
      cache_after-DropsCache (done a) h' = refl
      cache_after-DropsCache (failed e) h' = refl

      -- `ExecuteDDL` makes its statement effective if it returns a result, leaves no transaction
      -- open and empties the cache; if it returns an error nothing has taken effect, no
      -- transaction is open if none was before, and the database's cache is as it was.
      pub execute_ddl-Atomic :
          Atomic h
            (sql ∷ [])
            ((execute_ddl d sanitize db split sql h).0, (execute_ddl d sanitize db split sql h).2)
          × DropsCache (execute_ddl d sanitize db split sql h)
      unfolding execute_ddl
      execute_ddl-Atomic = (run_ddl-Atomic, cache_after-DropsCache _ _)

      -- A result is that of a valid statement which affected no more rows than allowed.
      abbrev pub IsWithin : Outcome DmlResult × List Event → Type 0
      IsWithin (failed e, h') = Unit
      IsWithin (done a, h') =
          ((validate split sql db.cfg dml).valid ≡ true)
          × (a.rows_affected ≤ db.cfg.max_affected_rows)

      exec_dml-IsWithin :
          (h1 : List Event)
          → (validate split sql db.cfg dml).valid ≡ true
          → IsWithin (exec_dml d sanitize db sql h1)
      unfolding exec_dml commit_with
      exec_dml-IsWithin h1 v = elim (Answer-cases (d.exec h1 sql)) [
        | inl (x, r) ↦ rw (r, exec_dml) tt
        | inr (rows, r) ↦
            rw (r, exec_dml)
              (if_cases IsWithin (ltb db.cfg.max_affected_rows rows) (λ _. tt)
                λ few. elim (Option-cases (d.commit (executed sql ∷ h1))) [
                  | inl c ↦ rw (c, commit_with) (v, ground arith)
                  | inr (x, c) ↦ rw (c, commit_with) tt
                ])
      ]

      -- `ExecuteDML` returns a result only for a statement that `Validate` accepts in the DML mode,
      -- and only if it affected at most `max_affected_rows` rows.
      pub execute_dml-IsWithin : IsWithin (execute_dml d sanitize db split sql h)
      unfolding execute_dml
      execute_dml-IsWithin =
          if_cases IsWithin (not (validate split sql db.cfg dml).valid) (λ _. tt)
            λ v.
              after_begin-cases d sanitize db.cfg false h IsWithin (exec_dml d sanitize db sql)
                (λ _ _ _ _. tt) λ h' _ _ _. exec_dml-IsWithin h' (ground (arith, v))
