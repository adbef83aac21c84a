-- ===== src/Guard/Validate/Modes/Read.antt =====
-- The read and explain modes of `Validate`.
use felsen_mcp_server_postgr.Base.{
  true, false, not, List, [], ◌∷◌, ◌≡◌, ◌↔◌, ◌⊎◌, inl, inr, refl, ◌∙◌, arith, Text, text_eq,
  text_eq_iff, runes, Bool-cases, if◌then◌else◌,
}
use felsen_mcp_server_postgr.Strings.{Unicode, trim_space}
use felsen_mcp_server_postgr.Config.Policy.{ConnectionConfig}
use felsen_mcp_server_postgr.Guard.Reason.{Result}
use felsen_mcp_server_postgr.Guard.Token.{Token, operation_from_tokens}
use felsen_mcp_server_postgr.Guard.Validate.{
  Mode, read, explain, accepted, validate_mode, validate_select, validate, has_limit, no_limit,
  Warning,
}
use felsen_mcp_server_postgr.Guard.Validate.Modes.{
  validate_tables-valid, HasAllowedTables-validate_tables, IsReadable, validate-checked,
  checked-validate,
}

module _ ⦃u : Unicode⦄ (split : Text → Result (List Text)) (text : Text)
    (cfg : ConnectionConfig) where
  abbrev IsReading : Mode → Type 0
  IsReading m = (m ≡ read) ⊎ (m ≡ explain)

  validate_mode-reading :
      (m : Mode) (tokens : List Token)
      → IsReading m
      → validate_mode m tokens (operation_from_tokens tokens) (trim_space text) cfg
        ≡ validate_select tokens (operation_from_tokens tokens) (trim_space text) cfg
  unfolding validate_mode
  validate_mode-reading m tokens (inl e) = rw e
  validate_mode-reading m tokens (inr e) = rw e

  abbrev limit_warning : List Token → List Warning
  limit_warning tokens = if not (has_limit (trim_space text)) then no_limit ∷ [] else []

  IsReadable-validate :
      (m : Mode) (tokens : List Token) (tables : List Text)
      → IsReading m
      → IsReadable split text cfg tokens tables
      → validate split text cfg m
        ≡ accepted (operation_from_tokens tokens) true tables (limit_warning tokens)
  unfolding validate_select
  IsReadable-validate m tokens tables reading r =
      let select = (text_eq_iff (operation_from_tokens tokens) (runes "select")).1 r.is_select in
      rw
        (checked-validate split text cfg m tokens r.checked, validate_mode-reading m tokens reading)
        (rw (select, validate_select)
          (HasAllowedTables-validate_tables (trim_space text) cfg tokens
              (operation_from_tokens tokens) false tables
              (record { found = r.found; target = λ e _. cc; allowed = r.schemas })
            ∙ rw select))

  -- In the read and explain modes `Validate` accepts a text exactly if its tokens are those of one
  -- checked `select` whose tables are found and are all in allowed schemas.
  pub validate_read_iff :
      (m : Mode)
      → IsReading m
      → ((validate split text cfg m).valid ≡ true)
        ↔ ((tokens : List Token) × (tables : List Text) × IsReadable split text cfg tokens tables)
  unfolding validate_select
  validate_read_iff m reading = (
    λ h.
        let (tokens, c, h') = validate-checked split text cfg m h in
        let h'' : (validate_select tokens (operation_from_tokens tokens) (trim_space text)
              cfg).valid
            ≡ true =
          rw (validate_mode-reading m tokens reading) at h' in
        elim (Bool-cases (text_eq (operation_from_tokens tokens) (runes "select"))) [
          | inr e ↦ ground (arith, e)
          | inl e ↦
              let (tables, a) =
                validate_tables-valid (trim_space text) cfg tokens (operation_from_tokens tokens)
                  false (ground (arith, e)) in
              (
                tokens,
                tables,
                record {
                  checked = c;
                  is_select = (text_eq_iff _ _).0 e;
                  found = a.found;
                  schemas = a.allowed;
                },
              )
        ],
    λ (tokens, tables, r). rw (IsReadable-validate m tokens tables reading r) refl,
  )
