-- ===== src/Guard/Ddl/Fuel.antt =====
-- The parsers of DDL end on every list of tokens.
use felsen_mcp_server_postgr.Base.{
  ℕ, ◌+◌, true, false, not, ◌&&◌, ◌||◌, List, [], ◌∷◌, Option, none, some, ◌≢◌, arith, Text, drop,
  if◌then◌else◌, if_cases,
}
use felsen_mcp_server_postgr.Strings.{Unicode}
use felsen_mcp_server_postgr.Guard.Reason.{Result, ok, err, ◌>>=◌, out_of_fuel, bind-ne-err}
use felsen_mcp_server_postgr.Guard.Token.{Token, keyword_at, text_at}
use felsen_mcp_server_postgr.Guard.Relations.{relation_at, relation_at_with_options}
use felsen_mcp_server_postgr.Guard.Relations.Fuel.{relation_at-fuel}
use felsen_mcp_server_postgr.Guard.Ddl.{
  skip_if_not_exists, skip_if_exists, skip_keyword, find_on, index_target, index_name,
  parse_create_index, parse_create_tables, check_alter_from, parse_alter_tables, parse_drop_tables,
  parse_truncate_tables, detect_ddl_tables_with_error,
}

module _ ⦃u : Unicode⦄ (tokens : List Token) where
  index_target-fuel : (index : Text) (o : Option ℕ) → index_target tokens index o ≢ err out_of_fuel
  unfolding index_target
  index_target-fuel index none = λ h. cc
  index_target-fuel index (some next) =
      bind-ne-err out_of_fuel
        (relation_at_with_options tokens (skip_keyword tokens "only" (next + 1)) true) _
        (relation_at-fuel tokens _ true) λ _ _ h. cc

  index_name-fuel : (i : ℕ) → index_name tokens i ≢ err out_of_fuel
  unfolding index_name
  index_name-fuel i = λ h. ground (arith, relation_at-fuel tokens i false)

  parse_create_index-fuel : (i : ℕ) → parse_create_index tokens i ≢ err out_of_fuel
  unfolding parse_create_index
  parse_create_index-fuel i =
      if_cases (λ r. r ≢ err out_of_fuel) (not (keyword_at tokens i "index")) (λ _ h. cc)
        λ _.
          if_cases (λ r. r ≢ err out_of_fuel) (keyword_at tokens (i + 1) "concurrently") (λ _ h. cc)
            λ _.
              bind-ne-err out_of_fuel (index_name tokens (skip_if_not_exists tokens (i + 1))) _
                (index_name-fuel _)
                λ (index, next) _. index_target-fuel index (find_on next (drop next tokens))

  parse_create_tables-fuel : parse_create_tables tokens ≢ err out_of_fuel
  unfolding parse_create_tables
  parse_create_tables-fuel =
      if_cases (λ r. r ≢ err out_of_fuel)
        (keyword_at tokens 1 "temporary"
          || keyword_at tokens 1 "temp"
          || keyword_at tokens 1 "unlogged")
        (λ _ h. cc)
        λ _.
          if_cases (λ r. r ≢ err out_of_fuel) (keyword_at tokens 1 "table")
            (λ _.
              bind-ne-err out_of_fuel
                (relation_at_with_options tokens (skip_if_not_exists tokens 2) true) _
                (relation_at-fuel tokens _ true) λ _ _ h. cc)
            λ _. parse_create_index-fuel (skip_keyword tokens "unique" 1)

  check_alter_from-fuel :
      (i : ℕ) (rest : List Token) → check_alter_from tokens i rest ≢ err out_of_fuel
  unfolding check_alter_from
  check_alter_from-fuel i [] = λ h. cc
  check_alter_from-fuel i (t ∷ rest) = λ h. ground (arith, check_alter_from-fuel (i + 1) rest)

  parse_alter_tables-fuel : parse_alter_tables tokens ≢ err out_of_fuel
  unfolding parse_alter_tables
  parse_alter_tables-fuel =
      if_cases (λ r. r ≢ err out_of_fuel) (not (keyword_at tokens 1 "table")) (λ _ h. cc)
        λ _.
          bind-ne-err out_of_fuel
            (relation_at_with_options tokens (skip_keyword tokens "only" (skip_if_exists tokens 2))
              false)
            _ (relation_at-fuel tokens _ false)
            λ (table, next) _.
              bind-ne-err out_of_fuel (check_alter_from tokens next (drop next tokens)) _
                (check_alter_from-fuel next _) λ _ _ h. cc

  -- One table, with an error behind a comma.
  one_table-fuel :
      (i : ℕ) (e : Result (List Text))
      → e ≢ err out_of_fuel
      → (relation_at tokens i >>= λ p. if text_at tokens p.1 "," then e else ok (p.0 ∷ []))
        ≢ err out_of_fuel
  one_table-fuel i e n =
      bind-ne-err out_of_fuel (relation_at_with_options tokens i false) _
        (relation_at-fuel tokens i false)
        λ p _. if_cases (λ r. r ≢ err out_of_fuel) (text_at tokens p.1 ",") (λ _. n) λ _ h. cc

  parse_drop_tables-fuel : parse_drop_tables tokens ≢ err out_of_fuel
  unfolding parse_drop_tables
  parse_drop_tables-fuel =
      if_cases (λ r. r ≢ err out_of_fuel)
        (not (keyword_at tokens 1 "table") && not (keyword_at tokens 1 "index")) (λ _ h. cc)
        λ _.
          if_cases (λ r. r ≢ err out_of_fuel)
            (keyword_at tokens 1 "index" && keyword_at tokens 2 "concurrently") (λ _ h. cc)
            λ _. one_table-fuel (skip_if_exists tokens 2) _ λ h. cc

  parse_truncate_tables-fuel : parse_truncate_tables tokens ≢ err out_of_fuel
  unfolding parse_truncate_tables
  parse_truncate_tables-fuel =
      if_cases (λ r. r ≢ err out_of_fuel) (keyword_at tokens (skip_keyword tokens "table" 1) "only")
        (λ _ h. cc) λ _. one_table-fuel (skip_keyword tokens "table" 1) _ λ h. cc

module _ ⦃u : Unicode⦄ where
  -- The parsers of DDL never end for want of fuel, on any list of tokens.
  pub detect_ddl_tables_with_error-fuel :
      (tokens : List Token) → detect_ddl_tables_with_error tokens ≢ err out_of_fuel
  unfolding detect_ddl_tables_with_error
  detect_ddl_tables_with_error-fuel [] = λ h. cc
  detect_ddl_tables_with_error-fuel (t ∷ ts) = λ h.
      let tokens = t ∷ ts in
      ground (
        arith,
        parse_create_tables-fuel tokens,
        parse_alter_tables-fuel tokens,
        parse_drop_tables-fuel tokens,
        parse_truncate_tables-fuel tokens,
      )
