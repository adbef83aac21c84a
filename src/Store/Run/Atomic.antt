-- ===== src/Store/Run/Atomic.antt =====
-- A script takes effect whole or not at all, within its limits.
use felsen_mcp_server_postgr.Base.{
  ℕ, ◌+◌, ◌≤◌, true, false, List, [], ◌∷◌, ◌++◌, map, ◌≡◌, refl, sym, ◌∙◌, inl, inr, arith, Text,
  ltb, if_cases, Bool-cases, Option-cases,
}
use felsen_mcp_server_postgr.Strings.{Unicode, utf8_length}
use felsen_mcp_server_postgr.Guard.Reason.{Result, ok, Result-cases}
use felsen_mcp_server_postgr.Guard.Script.{ScriptStatement, ScriptValidation, validate_script}
use felsen_mcp_server_postgr.Store.{
  Answer-cases, Outcome, done, failed, Event, Driver, Database, on_done,
}
use felsen_mcp_server_postgr.Store.Change.{commit_with}
use felsen_mcp_server_postgr.Store.Run.{
  ScriptResult, empty_result, count_statement, counted_rows, is_executable, exec_statement,
  run_statement, run_statements, run_script, validated_script, execute_script,
}
use felsen_mcp_server_postgr.Store.Effects.{pending, effects, may_write, is_open, after_begin-cases}

abbrev pub sqls_of : List ScriptStatement → List Text
sqls_of ss = map (λ s. s.sql) ss

module _ (d : Driver) (max_rows : ℕ) where
  -- The statements wait in the open transaction behind the loop, and are gone behind an error.
  abbrev Waits : List Event → List Text → Outcome ScriptResult × List Event → Type 0
  Waits h sqls (done r, h') =
      (effects h' ≡ effects h)
      × (pending h' ≡ pending h ++ sqls)
      × (may_write h' ≡ true)
      × (r.rows_affected ≤ max_rows)
  Waits h sqls (failed e, h') = (effects h' ≡ effects h) × (is_open h' ≡ false)

  run_statement-Waits :
      (i : ℕ) (s : ScriptStatement) (r : ScriptResult) (h : List Event)
      → may_write h ≡ true
      → Waits h (s.sql ∷ []) (run_statement d max_rows i s r h)
  unfolding run_statement exec_statement effects pending may_write is_open count_statement
  run_statement-Waits i s r h w = elim (Bool-cases (is_executable s.mode)) [
    | inr e ↦ rw (e, run_statement, exec_statement) (refl, refl)
    | inl e ↦ elim (Answer-cases (d.exec h s.sql)) [
      | inl (x, a) ↦ rw (e, a, run_statement, exec_statement) (refl, refl)
      | inr (rows, a) ↦
          rw (e, a, run_statement, exec_statement)
            (if_cases (Waits h (s.sql ∷ []))
              (ltb max_rows (r.rows_affected + counted_rows s.mode rows)) (λ _. (refl, refl))
              λ few. (refl, rw w refl, w, ground (arith, few)))
    ]
  ]

  append_assoc : (a b c : List Text) → (a ++ b) ++ c ≡ a ++ (b ++ c)
  append_assoc [] b c = refl
  append_assoc (x ∷ a) b c = rw (append_assoc a b c) refl

  append_nil : (a : List Text) → a ++ [] ≡ a
  append_nil [] = refl
  append_nil (x ∷ a) = rw (append_nil a) refl

  Waits-append :
      (s : ScriptStatement) (ss : List ScriptStatement) (h : List Event) (r' : ScriptResult)
      (h' : List Event)
      → Waits h (s.sql ∷ []) (done r', h')
      → (o : Outcome ScriptResult × List Event) → Waits h' (sqls_of ss) o
      → Waits h (sqls_of (s ∷ ss)) o
  Waits-append s ss h r' h' (e, p, w, n) (done r'', h'') (e', p', w', n') =
      (e' ∙ e, p' ∙ rw p (append_assoc (pending h) (s.sql ∷ []) (sqls_of ss)), w', n')
  Waits-append s ss h r' h' (e, p, w, n) (failed x, h'') (e', shut) = (e' ∙ e, shut)

  Waits-on_done :
      (s : ScriptStatement) (ss : List ScriptStatement) (h : List Event)
      (run : ScriptResult → List Event → Outcome ScriptResult × List Event)
      → ((r' : ScriptResult) (h' : List Event)
          → may_write h' ≡ true
          → r'.rows_affected ≤ max_rows
          → Waits h' (sqls_of ss) (run r' h'))
      → (o : Outcome ScriptResult × List Event) → Waits h (s.sql ∷ []) o
      → Waits h (sqls_of (s ∷ ss)) (on_done run o)
  Waits-on_done s ss h run f (failed x, h') w = w
  Waits-on_done s ss h run f (done r', h') w =
      Waits-append s ss h r' h' w (run r' h') (f r' h' w.2 w.3)

  run_statements-Waits :
      (i : ℕ) (ss : List ScriptStatement) (r : ScriptResult) (h : List Event)
      → may_write h ≡ true
      → r.rows_affected ≤ max_rows
      → Waits h (sqls_of ss) (run_statements d max_rows i ss r h)
  unfolding run_statements
  run_statements-Waits i [] r h w few = (refl, sym (append_nil (pending h)), w, few)
  run_statements-Waits i (s ∷ ss) r h w few =
      Waits-on_done s ss h (λ r' h'. run_statements d max_rows (i + 1) ss r' h')
        (λ r' h' w' few'. run_statements-Waits (i + 1) ss r' h' w' few')
        (run_statement d max_rows i s r h) (run_statement-Waits i s r h w)

  -- The statements are in effect and no transaction is open, or nothing has changed.
  abbrev pub Takes : List Event → List Text → Outcome ScriptResult × List Event → Type 0
  Takes h sqls (done r, h') =
      (effects h' ≡ effects h ++ sqls) × (is_open h' ≡ false) × (r.rows_affected ≤ max_rows)
  Takes h sqls (failed e, h') = (effects h' ≡ effects h) × (is_open h ≡ false → is_open h' ≡ false)

  commit_with-Takes :
      (r : ScriptResult) (h h1 : List Event) (sqls : List Text)
      → effects h1 ≡ effects h
      → pending h1 ≡ sqls
      → r.rows_affected ≤ max_rows
      → Takes h sqls (commit_with d r h1)
  unfolding commit_with effects is_open
  commit_with-Takes r h h1 sqls e p few = elim (Option-cases (d.commit h1)) [
    | inl c ↦ rw (c, commit_with) (rw (e, p) refl, refl, few)
    | inr (x, c) ↦ rw (c, commit_with) (e, λ _. refl)
  ]

  Takes-on_done :
      (sqls : List Text) (h h1 : List Event)
      → pending h1 ≡ []
      → effects h1 ≡ effects h
      → (o : Outcome ScriptResult × List Event) → Waits h1 sqls o
      → Takes h sqls (on_done (λ r h'. commit_with d r h') o)
  Takes-on_done sqls h h1 p e (failed x, h') (e', shut) = (e' ∙ e, λ _. shut)
  Takes-on_done sqls h h1 p e (done r, h') (e', p', w, few) =
      commit_with-Takes r h h' sqls (e' ∙ e) (p' ∙ rw p refl) few

  pub run_script-Takes :
      (v : ScriptValidation) (h h1 : List Event)
      → pending h1 ≡ []
      → effects h1 ≡ effects h
      → may_write h1 ≡ true
      → Takes h (sqls_of v.statements) (run_script d max_rows v h1)
  unfolding run_script
  run_script-Takes v h h1 p e w =
      Takes-on_done (sqls_of v.statements) h h1 p e
        (run_statements d max_rows 0 v.statements empty_result h1)
        (run_statements-Waits 0 v.statements empty_result h1 w (omega arith))

module _ ⦃u : Unicode⦄ (d : Driver) (sanitize : List Text → Text) (db : Database) where
  module _ (split : Text → Result (List Text)) (script : Text) (h : List Event) where
    -- A result is that of a valid script within the limits, all of whose statements took effect in
    -- order; behind an error nothing took effect. No transaction is left open.
    abbrev pub IsAllOrNothing : Outcome ScriptResult × List Event → Type 0
    IsAllOrNothing (done r, h') =
        (v : ScriptValidation) × (validate_script split db.cfg db.cfg.max_script_statements script
          ≡ ok v)
        × (effects h' ≡ effects h ++ sqls_of v.statements)
        × (is_open h' ≡ false)
        × (r.rows_affected ≤ db.cfg.max_script_affected_rows)
        × (utf8_length script ≤ db.cfg.max_script_bytes)
    IsAllOrNothing (failed e, h') =
        (effects h' ≡ effects h) × (is_open h ≡ false → is_open h' ≡ false)

    Takes-IsAllOrNothing :
        (v : ScriptValidation)
        → validate_script split db.cfg db.cfg.max_script_statements script ≡ ok v
        → utf8_length script ≤ db.cfg.max_script_bytes
        → (o : Outcome ScriptResult × List Event)
        → Takes d db.cfg.max_script_affected_rows h (sqls_of v.statements) o
        → IsAllOrNothing o
    Takes-IsAllOrNothing v valid short (failed e, h') t = t
    Takes-IsAllOrNothing v valid short (done r, h') (e, shut, few) = (v, valid, e, shut, few, short)

    validated_script-IsAllOrNothing : IsAllOrNothing (validated_script d sanitize db split script h)
    unfolding validated_script
    validated_script-IsAllOrNothing =
        if_cases IsAllOrNothing (ltb db.cfg.max_script_bytes (utf8_length script))
          (λ _. (refl, λ shut. shut))
          λ short.
            elim (Result-cases (validate_script split db.cfg db.cfg.max_script_statements script)) [
              | inl (x, e) ↦ rw e (refl, λ shut. shut)
              | inr (v, e) ↦ rw e (
                  after_begin-cases d sanitize db.cfg false h IsAllOrNothing
                    (run_script d db.cfg.max_script_affected_rows v)
                    (λ x h' same shut. (same, λ _. shut))
                    λ h' p same w.
                      Takes-IsAllOrNothing v e (ground (arith, short))
                        (run_script d db.cfg.max_script_affected_rows v h')
                        (run_script-Takes d db.cfg.max_script_affected_rows v h h' p same w))
            ]

    -- `ExecuteScript` is all or nothing, for every driver: with a result the script is valid and
    -- within the limits on bytes and affected rows, exactly its statements have taken effect, in
    -- order, and no transaction is open; with an error nothing has taken effect, and no
    -- transaction is open if none was before.
    pub execute_script-IsAllOrNothing : IsAllOrNothing (
      (execute_script d sanitize db split script h).0,
      (execute_script d sanitize db split script h).2,
    )
    unfolding execute_script
    execute_script-IsAllOrNothing = validated_script-IsAllOrNothing
