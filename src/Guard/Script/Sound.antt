-- ===== src/Guard/Script/Sound.antt =====
-- What an accepted script holds.
use felsen_mcp_server_postgr.Base.{
  ℕ, ◌+◌, ◌≤◌, true, false, List, [], ◌∷◌, ◌++◌, ◌≡◌, ◌≢◌, ◌⊎◌, refl, sym, subst, inl, inr, arith,
  Text, ltb, length, length-append, All, All-append, Bool-cases, one_of,
}
use felsen_mcp_server_postgr.Strings.{Unicode, trim_space}
use felsen_mcp_server_postgr.Config.Policy.{ConnectionConfig}
use felsen_mcp_server_postgr.Guard.Reason.{Result, ok, err, ◌>>=◌, bind-eq-ok, Result-cases}
use felsen_mcp_server_postgr.Guard.Statement.{is_nil}
use felsen_mcp_server_postgr.Guard.Tables.{is_empty, append_unique}
use felsen_mcp_server_postgr.Guard.Tables.Unique.{IsDistinct, append_unique-IsDistinct}
use felsen_mcp_server_postgr.Guard.Strip.{strip_sql_comments}
use felsen_mcp_server_postgr.Guard.Validate.{dml, ddl, validate}
use felsen_mcp_server_postgr.Guard.Script.{
  ScriptStatement, ScriptValidation, script_mode, is_no_mode, operation, add_script_statement,
  script_turn, script_loop, validate_statements, validate_script,
}

module _ ⦃u : Unicode⦄ (split : Text → Result (List Text)) (cfg : ConnectionConfig)
    (max_statements : ℕ) where
  -- The statement is valid by itself, in the mode of its own operation, DML or DDL.
  pub record IsValidStatement (s : ScriptStatement) : Type 0 where
    pub mode : s.mode ≡ script_mode (operation s.sql)
    pub executable : (s.mode ≡ dml) ⊎ (s.mode ≡ ddl)
    pub result : s.validation ≡ validate split s.sql cfg s.mode
    pub valid : s.validation.valid ≡ true

  -- The statements so far are valid, as many as counted, and their tables are distinct.
  record IsScript (number : ℕ) (v : ScriptValidation) : Type 0 where
    each : All IsValidStatement v.statements
    count : length v.statements ≡ number
    few : number ≤ max_statements
    distinct : IsDistinct v.tables_detected

  script_mode-executable :
      (op : Text)
      → is_no_mode (script_mode op) ≡ false
      → (script_mode op ≡ dml) ⊎ (script_mode op ≡ ddl)
  unfolding script_mode
  script_mode-executable op h =
      elim (Bool-cases (one_of ("insert" ∷ "update" ∷ "delete" ∷ []) op)) [
        | inl e ↦ inl (rw e refl)
        | inr e ↦ elim (Bool-cases (one_of ("create" ∷ "alter" ∷ "drop" ∷ "truncate" ∷ []) op)) [
          | inl e' ↦ inr (rw (e, e') refl)
          | inr e' ↦ ground (arith, e, e')
        ]
      ]

  -- The statement with its mode and its validation, and the result with it.
  abbrev checked : Text → ScriptStatement
  checked statement = record {
    sql = statement;
    mode = script_mode (operation statement);
    validation = validate split statement cfg (script_mode (operation statement));
  }

  abbrev extended : Text → ScriptValidation → ScriptValidation
  extended statement v = record {
    statements = v.statements ++ checked statement ∷ [];
    tables_detected =
        append_unique v.tables_detected (checked statement).validation.tables_detected;
  }

  add_script_statement-IsScript :
      (statement : Text) (number : ℕ) (v v' : ScriptValidation)
      → IsScript number v
      → add_script_statement split cfg max_statements statement (number + 1) v ≡ ok v'
      → IsScript (number + 1) v'
  unfolding add_script_statement
  add_script_statement-IsScript statement number v v' s h =
      elim (Bool-cases (ltb max_statements (number + 1))) [
        | inl many ↦ ground (arith, many)
        | inr few ↦ elim (Bool-cases (is_no_mode (script_mode (operation statement)))) [
          | inl e ↦ ground (arith, few, e)
          | inr mode ↦
              elim (Bool-cases
                (validate split statement cfg (script_mode (operation statement))).valid) [
                  | inr e ↦ ground (arith, few, mode, e)
                  | inl valid ↦
                      let same : extended statement v ≡ v' = ground (arith, few, mode, valid) in
                      rw (sym same) (record {
                        each = All-append IsValidStatement v.statements _ s.each (
                          record {
                            mode = refl;
                            executable = script_mode-executable (operation statement) mode;
                            result = refl;
                            valid = valid;
                          },
                          tt,
                        );
                        count =
                            omega
                              (arith, length-append v.statements (checked statement ∷ []), s.count);
                        few = ground (arith, few);
                        distinct = append_unique-IsDistinct _ _ s.distinct;
                      })
                ]
        ]
      ]

  script_turn-IsScript :
      (raw : Text) (number number' : ℕ) (v v' : ScriptValidation)
      → IsScript number v
      → script_turn split cfg max_statements raw number v ≡ ok (number', v')
      → IsScript number' v'
  unfolding script_turn
  script_turn-IsScript raw number number' v v' s h = elim (Result-cases (strip_sql_comments raw)) [
    | inl (e, c) ↦ ground (arith, c)
    | inr (text, c) ↦ elim (Bool-cases (is_empty (trim_space text))) [
      | inl blank ↦
          let same : ◌≡◌ {A = ℕ × ScriptValidation} (number, v) (number', v') =
            ground (arith, c, blank) in
          subst (λ p. IsScript p.0 p.1) same s
      | inr full ↦
          let turn : ◌≡◌ {A = Result (ℕ × ScriptValidation)}
              (add_script_statement split cfg max_statements (trim_space text) (number + 1) v
                >>= λ r. ok (number + 1, r))
              (ok (number', v')) =
            ground (arith, c, full) in
          let (v'', e, h') =
            bind-eq-ok
              (add_script_statement split cfg max_statements (trim_space text) (number + 1) v) _
              turn in
          let same : ◌≡◌ {A = ℕ × ScriptValidation} (number + 1, v'') (number', v') =
            ground arith in
          subst (λ p. IsScript p.0 p.1) same
            (add_script_statement-IsScript (trim_space text) number v v'' s e)
    ]
  ]

  script_loop-IsScript :
      (raws : List Text) (number : ℕ) (v v' : ScriptValidation)
      → IsScript number v
      → script_loop split cfg max_statements raws number v ≡ ok v'
      → (number' : ℕ) × IsScript number' v'
  unfolding script_loop
  script_loop-IsScript [] number v v' s h =
      let same : v ≡ v' = ground arith in (number, subst (λ r. IsScript number r) same s)
  script_loop-IsScript (raw ∷ raws) number v v' s h =
      let ((number', v''), e, h') =
        bind-eq-ok (script_turn split cfg max_statements raw number v) _ h in
      script_loop-IsScript raws number' v'' v' (script_turn-IsScript raw number number' v v'' s e)
        h'

  is_nil-full : (ss : List ScriptStatement) → is_nil ss ≡ false → ss ≢ []
  is_nil-full [] h = cc
  is_nil-full (s ∷ ss) h = λ e. cc

  validate_statements-valid :
      (v : ScriptValidation) (r : Result (List Text))
      → validate_statements split cfg max_statements r ≡ ok v
      → (v.statements ≢ [])
        × (length v.statements ≤ max_statements)
        × All IsValidStatement v.statements
        × IsDistinct v.tables_detected
  unfolding validate_statements
  validate_statements-valid v (err e) k = cc
  validate_statements-valid v (ok raws) k =
      let empty : ScriptValidation = record { statements = []; tables_detected = [] } in
      let (v', e, k') = bind-eq-ok (script_loop split cfg max_statements raws 0 empty) _ k in
      elim (Bool-cases (is_nil v'.statements)) [
        | inl blank ↦ ground (arith, blank)
        | inr full ↦
            let same : v' ≡ v = ground (arith, full) in
            let (number, s) =
              script_loop-IsScript raws 0 empty v'
                (record { each = tt; count = refl; few = omega arith; distinct = tt }) e in
            let s' : IsScript number v = subst (λ r. IsScript number r) same s in
            (
              is_nil-full v.statements (rw same at full),
              ground (arith, s'.count, s'.few),
              s'.each,
              s'.distinct,
            )
      ]

  -- A script that `ValidateScript` accepts has at least one statement and at most
  -- `max_statements`; each of them is valid by itself in the mode of its own operation, which is
  -- DML or DDL; the tables that it reports are distinct.
  pub validate_script-valid :
      (script : Text) (v : ScriptValidation)
      → validate_script split cfg max_statements script ≡ ok v
      → (v.statements ≢ [])
        × (length v.statements ≤ max_statements)
        × All IsValidStatement v.statements
        × IsDistinct v.tables_detected
  unfolding validate_script
  validate_script-valid script v h = validate_statements-valid v (split script) (ground arith)
