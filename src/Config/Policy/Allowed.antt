-- ===== src/Config/Policy/Allowed.antt =====
-- The policy tests decide the policies: what an operator reads off the configuration.
use felsen_mcp_server_postgr.Base.{
  Bool, true, ◌||◌, List, [], ◌∷◌, ◌≡◌, ◌↔◌, ◌⊎◌, arith, Text, text_eq, text_eq_iff, runes, any,
  Any,
}
use felsen_mcp_server_postgr.Strings.{Unicode, equal_fold}
use felsen_mcp_server_postgr.Config.Policy.{
  ConnectionConfig, DmlPolicy, schema_allowed, policy_allows, dml_allowed,
}

Any-iff {ℓ} :
    {A : Type ℓ} (p : A → Bool) (P : A → Type 0)
    → ((a : A) → (p a ≡ true) ↔ P a)
    → (xs : List A) → (any p xs ≡ true) ↔ Any P xs
Any-iff p P f [] = (λ h. ground arith, λ h. absurd h)
Any-iff p P f (x ∷ xs) = (
  λ h. ground (arith, (f x).0, (Any-iff p P f xs).0),
  λ h. ground (arith, (f x).1, (Any-iff p P f xs).1),
)

module _ ⦃u : Unicode⦄ where
  -- A pattern of the configuration covers a name: it is `*`, or the name up to case folding.
  abbrev pub Covers : Text → Text → Type 0
  Covers pattern name = (pattern ≡ runes "*") ⊎ (equal_fold pattern name ≡ true)

  Covers-iff : (p n : Text) → ((text_eq p (runes "*") || equal_fold p n) ≡ true) ↔ Covers p n
  Covers-iff p n = ground (arith, text_eq_iff p (runes "*"))

  -- `SchemaAllowed` holds exactly if one of the configured schemas is `*` or equals the schema in
  -- any case.
  pub schema_allowed_iff :
      (c : ConnectionConfig) (schema : Text)
      → (schema_allowed c schema ≡ true) ↔ Any (λ p. Covers p schema) c.schemas
  unfolding schema_allowed
  schema_allowed_iff c schema = Any-iff _ _ (λ p. Covers-iff p schema) c.schemas

  -- One policy grants an operation: it covers the schema and the table, and lists the operation.
  abbrev pub Grants : Text → Text → Text → DmlPolicy → Type 0
  Grants schema table operation p =
      Covers p.schema schema × Covers p.table table × Any (λ op. Covers op operation) p.operations

  operation_iff : (p n : Text) → ((equal_fold p n || text_eq p (runes "*")) ≡ true) ↔ Covers p n
  operation_iff p n = ground (arith, text_eq_iff p (runes "*"))

  policy_allows_iff :
      (s t o : Text) (p : DmlPolicy) → (policy_allows s t o p ≡ true) ↔ Grants s t o p
  unfolding policy_allows
  policy_allows_iff s t o p = ground (
    arith,
    Covers-iff p.schema s,
    Covers-iff p.table t,
    Any-iff _ _ (λ q. operation_iff q o) p.operations,
  )

  -- `DMLAllowed` holds exactly if one single policy covers the schema and the table and lists the
  -- operation.
  pub dml_allowed_iff :
      (c : ConnectionConfig) (s t o : Text)
      → (dml_allowed c s t o ≡ true) ↔ Any (Grants s t o) c.dml_policies
  unfolding dml_allowed
  dml_allowed_iff c s t o = Any-iff _ _ (policy_allows_iff s t o) c.dml_policies
