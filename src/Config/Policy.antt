-- ===== src/Config/Policy.antt =====
-- internal/config/config.go: `ConnectionConfig` with the fields that the guard and the store
-- read, and the three policy tests `SchemaAllowed`, `DDLAllowed` and `DMLAllowed`.
pub mod Allowed
use felsen_mcp_server_postgr.Base.{
  ℕ, Bool, true, false, ◌&&◌, ◌||◌, List, [], ◌∷◌, Option, none, some, Text, text_eq, runes, any,
}
use felsen_mcp_server_postgr.Strings.{Unicode, equal_fold}

pub record DmlPolicy : Type 0 where
  pub schema : Text
  pub table : Text
  pub operations : List Text

-- `ddl_enabled` is a `*bool`: `none` is nil. A row limit is an `int` that `Config.Validate` has
-- checked to be positive, so a natural number.
pub record ConnectionConfig : Type 0 where
  pub schemas : List Text
  pub max_rows : ℕ
  pub max_affected_rows : ℕ
  pub max_script_statements : ℕ
  pub max_script_affected_rows : ℕ
  pub max_script_bytes : ℕ
  pub dml_policies : List DmlPolicy
  pub ddl_enabled : Option Bool

module _ ⦃u : Unicode⦄ where
  unfoldable pub matches_name : Text → Text → Bool
  matches_name pattern value = text_eq pattern (runes "*") || equal_fold pattern value

  unfoldable pub schema_allowed : ConnectionConfig → Text → Bool
  schema_allowed c schema =
      any (λ allowed. text_eq allowed (runes "*") || equal_fold allowed schema) c.schemas

  unfoldable pub ddl_allowed : ConnectionConfig → Bool
  ddl_allowed c = elim c.ddl_enabled [ none ↦ true | some enabled ↦ enabled ]

  -- The body of the loop over the policies: whether this one allows the operation.
  unfoldable pub policy_allows : Text → Text → Text → DmlPolicy → Bool
  unfolding matches_name
  policy_allows schema table operation policy =
      matches_name policy.schema schema
      && matches_name policy.table table
      && any (λ op. equal_fold op operation || text_eq op (runes "*")) policy.operations

  unfoldable pub dml_allowed : ConnectionConfig → Text → Text → Text → Bool
  unfolding policy_allows
  dml_allowed c schema table operation =
      any (λ policy. policy_allows schema table operation policy) c.dml_policies
