-- ===== src/Guard/Relations/Fuel.antt =====
-- `detectTableRefs` ends: every jump goes forward, so the number of tokens is enough fuel.
use felsen_mcp_server_postgr.Base.{
  ℕ, zero, suc, ◌+◌, ◌<◌, ◌≤◌, Bool, false, List, [], ◌∷◌, ◌++◌, Option, none, some, ◌≡◌, ◌≢◌, inl,
  inr, sym, arith, Text, text_eq, runes, get_elem?, get_elem?-lt, length, Option-cases, drop,
  if_cases,
}
use felsen_mcp_server_postgr.Strings.{Unicode}
use felsen_mcp_server_postgr.Guard.Reason.{ok, err, out_of_fuel, bind-eq-ok, bind-ne-err}
use felsen_mcp_server_postgr.Guard.Token.{Token, identifier_value}
use felsen_mcp_server_postgr.Guard.Tables.{append_unique}
use felsen_mcp_server_postgr.Guard.Relations.{
  relation_end, relation_second, relation_first, relation_at_with_options, relation_at,
  reject_list_from, reject_relation_list, relation_start, read_relation, allow_trailing,
  detect_from, delete_target, add_delete_target, detect_table_refs,
}
use felsen_mcp_server_postgr.Guard.Relations.At.{Names, unqualified, qualified, relation_at-Names}

module _ ⦃u : Unicode⦄ where
  pub Names-lt :
      (tokens : List Token) (start : ℕ) (table : Text) (next : ℕ)
      → Names tokens start table next
      → start < next
  Names-lt tokens start table next (unqualified _ _ _ _ _ n) = omega arith
  Names-lt tokens start table next (qualified _ _ _ _ _ _ _ _ _ n) = omega arith

  relation_end-fuel :
      (tokens : List Token) (next : ℕ) (allow : Bool) (first : Text)
      → relation_end tokens next allow first ≢ err out_of_fuel
  unfolding relation_end
  relation_end-fuel tokens next allow first = λ h. ground arith

  relation_second-fuel :
      (tokens : List Token) (next : ℕ) (allow : Bool) (first : Text) (o : Option Token)
      → relation_second tokens next allow first o ≢ err out_of_fuel
  unfolding relation_second
  relation_second-fuel tokens next allow first none = λ h. cc
  relation_second-fuel tokens next allow first (some t) = λ h.
      ground (arith, relation_end-fuel tokens (next + 2) allow (first ++ b'.' ∷ identifier_value t))

  relation_first-fuel :
      (tokens : List Token) (start : ℕ) (allow : Bool) (o : Option Token)
      → relation_first tokens start allow o ≢ err out_of_fuel
  unfolding relation_first
  relation_first-fuel tokens start allow none = λ h. cc
  relation_first-fuel tokens start allow (some t) = λ h. ground (
    arith,
    relation_end-fuel tokens (start + 1) allow (identifier_value t),
    relation_second-fuel tokens (start + 1) allow (identifier_value t)
        (get_elem? tokens (start + 1 + 1)),
  )

  pub relation_at-fuel :
      (tokens : List Token) (start : ℕ) (allow : Bool)
      → relation_at_with_options tokens start allow ≢ err out_of_fuel
  unfolding relation_at_with_options
  relation_at-fuel tokens start allow =
      relation_first-fuel tokens start allow (get_elem? tokens start)

  reject_list_from-fuel : (tokens : List Token) → reject_list_from tokens ≢ err out_of_fuel
  unfolding reject_list_from
  reject_list_from-fuel [] = λ h. cc
  reject_list_from-fuel (t ∷ tokens) = λ h. ground (arith, reject_list_from-fuel tokens)

  read_relation-fuel :
      (tokens : List Token) (i start : ℕ) → read_relation tokens i start ≢ err out_of_fuel
  unfolding read_relation reject_relation_list
  read_relation-fuel tokens i start =
      bind-ne-err out_of_fuel (relation_at_with_options tokens start (allow_trailing tokens i)) _
        (relation_at-fuel tokens start _)
        λ (table, next) _.
          bind-ne-err out_of_fuel (reject_list_from (drop next tokens)) _ (reject_list_from-fuel _)
            λ _ _ h. cc

  -- A reference that is read ends behind its start.
  pub read_relation-Names :
      (tokens : List Token) (i start : ℕ) (table : Text) (next : ℕ)
      → read_relation tokens i start ≡ ok (table, next)
      → Names tokens start table next
  unfolding read_relation
  read_relation-Names tokens i start table next h =
      let ((t, n), e, h') =
        bind-eq-ok (relation_at_with_options tokens start (allow_trailing tokens i)) _ h in
      let (_, _, h'') = bind-eq-ok (reject_relation_list tokens n) _ h' in
      let same : ok (table, next)
          ≡ relation_at_with_options tokens start (allow_trailing tokens i) =
        ground arith in
      (relation_at-Names tokens start (allow_trailing tokens i) table next (sym same)).0

  -- A reference is read behind the position that announces it.
  pub relation_start-lt :
      (tokens : List Token) (op : Text) (i start : ℕ)
      → relation_start tokens op i ≡ some start
      → i < start
  unfolding relation_start
  relation_start-lt tokens op i start h = ground arith

  detect_from-fuel :
      (fuel : ℕ) (tokens : List Token) (op : Text) (i : ℕ) (tables : List Text)
      → length tokens ≤ fuel + i
      → detect_from fuel tokens op i tables ≢ err out_of_fuel
  unfolding detect_from
  detect_from-fuel zero tokens op i tables h = elim (Option-cases (get_elem? tokens i)) [
    | inl e ↦ rw (e, detect_from) (λ x. cc)
    | inr (t, e) ↦ absurd (omega (arith, get_elem?-lt {0} tokens i e))
  ]
  detect_from-fuel (suc fuel) tokens op i tables h = elim (Option-cases (get_elem? tokens i)) [
    | inl e ↦ rw (e, detect_from) (λ x. cc)
    | inr (t, e) ↦
        rw (e, detect_from)
          (elim (Option-cases (relation_start tokens op i)) [
            | inl s ↦ rw s (detect_from-fuel fuel tokens op (i + 1) tables (omega arith))
            | inr (start, s) ↦ rw s (
                bind-ne-err out_of_fuel (read_relation tokens i start) _
                  (read_relation-fuel tokens i start)
                  λ (table, next) r.
                    detect_from-fuel fuel tokens op next (append_unique tables (table ∷ [])) (
                      omega (
                        arith,
                        relation_start-lt tokens op i start s,
                        Names-lt tokens start table next
                            (read_relation-Names tokens i start table next r),
                      )))
          ])
  ]

  add_delete_target-fuel :
      (tokens : List Token) (tables : List Text) (o : Option ℕ)
      → add_delete_target tokens tables o ≢ err out_of_fuel
  unfolding add_delete_target
  add_delete_target-fuel tokens tables none = λ h. cc
  add_delete_target-fuel tokens tables (some start) =
      bind-ne-err out_of_fuel (relation_at tokens start) _ (relation_at-fuel tokens start false)
        λ _ _ h. cc

  -- The search for tables never ends for want of fuel: the number of tokens is enough.
  pub detect_table_refs-fuel :
      (tokens : List Token) (op : Text) → detect_table_refs tokens op ≢ err out_of_fuel
  unfolding detect_table_refs
  detect_table_refs-fuel tokens op =
      bind-ne-err out_of_fuel (detect_from (length tokens) tokens op 0 []) _
        (detect_from-fuel (length tokens) tokens op 0 [] (omega arith))
        λ tables _.
          if_cases (λ r. r ≢ err out_of_fuel) (text_eq op (runes "delete"))
            (λ _. add_delete_target-fuel tokens tables (delete_target tokens 0 tokens)) (λ _ h. cc)
