-- ===== src/Store/Query/Limits.antt =====
-- The read operations change nothing, return no more rows than allowed, and mask what they return.
use felsen_mcp_server_postgr.Base.{
  Bool, true, false, not, if◌then◌else◌, ℕ, ◌-◌, ◌≤◌, none, subst, ◌==◌, ◌||◌, ltb, runes, List, [],
  ◌∷◌, ◌++◌, ◌≡◌, ◌≢◌, refl, ◌∙◌, inl, inr, arith, Text, length, if_cases, Option-cases,
}
use felsen_mcp_server_postgr.Strings.{Unicode, trim_space, trim_right}
use felsen_mcp_server_postgr.Config.Policy.{schema_allowed}
use felsen_mcp_server_postgr.Masking.{Masker}
use felsen_mcp_server_postgr.Guard.Reason.{Result}
use felsen_mcp_server_postgr.Guard.Validate.{read, explain, validate}
use felsen_mcp_server_postgr.Guard.Script.{apply_select_limit}
use felsen_mcp_server_postgr.Store.{
  value, Answer-cases, Outcome, done, failed, StoreError, Event, queried, committed, Rows, Driver,
  Database,
}
use felsen_mcp_server_postgr.Store.Effects.{
  pending, effects, may_write, is_open, Quiet, after_begin-cases,
}
use felsen_mcp_server_postgr.Store.Query.Masked.{
  IsMasked, length-IsMasked, collect_from-AreCollected,
}
use felsen_mcp_server_postgr.Store.Query.{
  QueryResult, collect_from, collect_rows, finish_query, run_query, query_read_only, sample_rows,
  execute_sql, explain_sql,
}

whole : (n : ℕ) → n - 0 ≡ n
whole n = omega arith

append_nil : (a : List Text) → a ++ [] ≡ a
append_nil [] = refl
append_nil (x ∷ a) = rw (append_nil a) refl

module _ ⦃u : Unicode⦄ (decode : List ℕ → Text) (format : ℕ → Text) where
  -- A result of a query comes from its rows, behind the commit: it has their columns, their first
  -- rows, masked and at most `max_rows`, and the right count.
  abbrev pub IsSafe :
      Driver → Masker → ℕ → Text → List ℕ → Outcome QueryResult × List Event → Type 0
  IsSafe d m max_rows sql args (failed e, h') = Unit
  IsSafe d m max_rows sql args (done r, h') =
      (rows : Rows) × (h1 : List Event) × (d.query h1 sql args ≡ value rows)
      × (h' ≡ committed ∷ queried sql ∷ h1)
      × (rows.error ≡ none)
      × (r.columns ≡ rows.fields)
      × IsMasked decode format m max_rows rows.fields rows.values r.rows
      × (r.row_count ≡ length r.rows)
      × (r.row_count ≤ max_rows)

  module _ (d : Driver) (sanitize : List Text → Text) (db : Database) (h : List Event) where
    -- The operation changes nothing, leaves no transaction open, and its result is that of the
    -- query, safe to show.
    abbrev pub IsReadOnly : Text → List ℕ → Outcome QueryResult × List Event → Type 0
    IsReadOnly sql args o = Quiet h o.1 × IsSafe d db.masker db.cfg.max_rows sql args o

    finish_query-IsReadOnly :
        (sql : Text) (args : List ℕ) (rows : Rows) (h1 : List Event)
        → d.query h1 sql args ≡ value rows
        → pending h1 ≡ []
        → effects h1 ≡ effects h
        → may_write h1 ≡ false
        → IsReadOnly sql args (
            finish_query decode format d sanitize db
              (collect_rows decode format db.masker db.cfg.max_rows rows)
              (queried sql ∷ h1))
    unfolding finish_query collect_rows effects is_open pending
    finish_query-IsReadOnly sql args rows h1 q p e w =
        elim (Answer-cases
          (collect_from decode format db.masker db.cfg.max_rows rows.fields 0 rows.values)) [
            | inl (x, c) ↦ rw (c, collect_rows, finish_query) ((e, λ _. refl), tt)
            | inr (collected, c) ↦
                let masked : IsMasked decode format db.masker db.cfg.max_rows rows.fields
                    rows.values collected =
                  subst (λ n. IsMasked decode format db.masker n rows.fields rows.values collected)
                    (whole db.cfg.max_rows)
                    (rw c at (
                      collect_from-AreCollected decode format db.masker db.cfg.max_rows rows.fields
                        0 rows.values)) in
                elim (Option-cases rows.error) [
                  | inr (x, r) ↦ rw (c, r, collect_rows, finish_query) ((e, λ _. refl), tt)
                  | inl r ↦ elim (Option-cases (d.commit (queried sql ∷ h1))) [
                    | inr (x, k) ↦ rw (c, r, k, collect_rows, finish_query) ((e, λ _. refl), tt)
                    | inl k ↦
                        rw (c, r, k, collect_rows, finish_query)
                          (
                            (rw (w, p) (append_nil (effects h1) ∙ e), λ _. refl),
                            (
                              rows,
                              h1,
                              q,
                              refl,
                              r,
                              refl,
                              masked,
                              refl,
                              length-IsMasked decode format db.masker db.cfg.max_rows rows.fields
                                  rows.values collected masked,
                            ),
                          )
                  ]
                ]
          ]

    run_query-IsReadOnly :
        (sql : Text) (args : List ℕ) (h1 : List Event)
        → pending h1 ≡ []
        → effects h1 ≡ effects h
        → may_write h1 ≡ false
        → IsReadOnly sql args (run_query decode format d sanitize db sql args h1)
    unfolding run_query effects is_open pending
    run_query-IsReadOnly sql args h1 p e w = elim (Answer-cases (d.query h1 sql args)) [
      | inl (x, q) ↦ rw (q, run_query) ((e, λ _. refl), tt)
      | inr (rows, q) ↦ rw (q, run_query) (finish_query-IsReadOnly sql args rows h1 q p e w)
    ]

    query_read_only-IsReadOnly :
        (sql : Text) (args : List ℕ)
        → IsReadOnly sql args (query_read_only decode format d sanitize db sql args h)
    unfolding query_read_only
    query_read_only-IsReadOnly sql args =
        after_begin-cases d sanitize db.cfg true h (IsReadOnly sql args)
          (run_query decode format d sanitize db sql args)
          (λ x h' same shut. ((same, λ _. shut), tt))
          λ h' p same w. run_query-IsReadOnly sql args h' p same w

    -- Nothing is asked of the driver, and there is no result, unless the request is allowed.
    abbrev pub AsksOnlyIf : Bool → Outcome QueryResult × List Event → Type 0
    AsksOnlyIf allowed o = allowed ≡ false → (o.1 ≡ h) × ((r : QueryResult) → o.0 ≢ done r)

    refused-AsksOnlyIf :
        (allowed : Bool) (e : StoreError) (o : Outcome QueryResult × List Event)
        → AsksOnlyIf allowed (if not allowed then (failed e, h) else o)
    refused-AsksOnlyIf true e o x = absurd (ground (arith, x))
    refused-AsksOnlyIf false e o x = (refl, λ r y. cc)

    -- What `SampleRows` and `ExplainSQL` ask of the driver.
    abbrev pub sample_text : Text → Text → Text
    sample_text schema table =
        runes "select * from " ++ sanitize (schema ∷ table ∷ []) ++ runes " limit $1"

    abbrev pub sample_limit : ℕ → ℕ
    sample_limit limit = if limit == 0 || ltb db.cfg.max_rows limit then db.cfg.max_rows else limit

    abbrev pub explained : Text → Text
    explained sql = runes "explain (format json) " ++ trim_right (λ c. c == b';') (trim_space sql)

    -- `SampleRows` changes nothing, since its transaction is read-only, and leaves none open if none
    -- was before. Its rows are the first of those that the driver answers its query with, each
    -- masked, at most `max_rows` and as many as it says. Unless the schema is allowed, it asks
    -- nothing of the driver and has no result.
    pub sample_rows-IsReadOnly :
        (schema table : Text) (limit : ℕ)
        → IsReadOnly
            (sample_text schema table)
            (sample_limit limit ∷ [])
            (sample_rows decode format d sanitize db schema table limit h)
          × AsksOnlyIf
              (schema_allowed db.cfg schema)
              (sample_rows decode format d sanitize db schema table limit h)
    unfolding sample_rows
    sample_rows-IsReadOnly schema table limit = (
      if_cases (IsReadOnly (sample_text schema table) (sample_limit limit ∷ []))
          (not (schema_allowed db.cfg schema)) (λ _. ((refl, λ shut. shut), tt))
          λ _. query_read_only-IsReadOnly _ _,
      refused-AsksOnlyIf (schema_allowed db.cfg schema) _ _,
    )

    -- `ExecuteSQL` changes nothing, since its transaction is read-only, and leaves none open if none
    -- was before. A result is that of the text with its limit, behind the commit: its rows are the
    -- first of those that the driver answers with, each masked, at most `max_rows` and as many as
    -- it says. Unless `Validate` accepts the text in the read mode, it asks nothing of the driver
    -- and has no result.
    pub execute_sql-IsReadOnly :
        (split : Text → Result (List Text)) (itoa : ℕ → Text) (sql : Text)
        → IsReadOnly
            (apply_select_limit itoa sql db.cfg.max_rows)
            []
            (execute_sql decode format d sanitize db split itoa sql h)
          × AsksOnlyIf
              (validate split sql db.cfg read).valid
              (execute_sql decode format d sanitize db split itoa sql h)
    unfolding execute_sql
    execute_sql-IsReadOnly split itoa sql = (
      if_cases (IsReadOnly (apply_select_limit itoa sql db.cfg.max_rows) [])
          (not (validate split sql db.cfg read).valid) (λ _. ((refl, λ shut. shut), tt))
          λ _. query_read_only-IsReadOnly _ _,
      refused-AsksOnlyIf (validate split sql db.cfg read).valid _ _,
    )

    -- `ExplainSQL` changes nothing, since its transaction is read-only, and leaves none open if none
    -- was before. Its rows are the first of those that the driver answers its query with, each
    -- masked, at most `max_rows` and as many as it says. Unless `Validate` accepts the text in the
    -- explain mode, it asks nothing of the driver and has no result.
    pub explain_sql-IsReadOnly :
        (split : Text → Result (List Text)) (sql : Text)
        → IsReadOnly (explained sql) [] (explain_sql decode format d sanitize db split sql h)
          × AsksOnlyIf
              (validate split sql db.cfg explain).valid
              (explain_sql decode format d sanitize db split sql h)
    unfolding explain_sql
    explain_sql-IsReadOnly split sql = (
      if_cases (IsReadOnly (explained sql) []) (not (validate split sql db.cfg explain).valid)
          (λ _. ((refl, λ shut. shut), tt)) λ _. query_read_only-IsReadOnly _ _,
      refused-AsksOnlyIf (validate split sql db.cfg explain).valid _ _,
    )
