-- ===== src/Masking.antt =====
-- internal/masking/masking.go: which columns are masked, and the masking of a row.
-- `compile` is `regexp.Compile` with `MatchString`: it belongs to Go's library, an argument.
pub mod Rows
use felsen_mcp_server_postgr.Base.{
  ℕ, Bool, true, false, not, ◌&&◌, List, [], ◌∷◌, ◌++◌, map, Option, none, some, Text, mem_text,
  runes, any, if◌then◌else◌,
}
use felsen_mcp_server_postgr.Strings.{Unicode, to_lower}

-- A value of a row, as `jsonSafeValues` tells them apart.
pub data Value : Type 0 where
  null : Value
  string : Text → Value
  bytes : List ℕ → Value
  time : ℕ → Value
  number : ℕ → Value

-- `config.MaskingConfig`.
pub record MaskingConfig : Type 0 where
  pub enabled : Option Bool
  pub sensitive_columns : List Text
  pub allow_columns : List Text

pub record Masker : Type 0 where
  pub enabled : Bool
  pub allow : List Text
  pub rules : List (Text → Bool)

unfoldable pub default_sensitive : List Text
default_sensitive = map runes (
    "(?i)password" ∷ "(?i)passwd" ∷ "(?i)token" ∷ "(?i)secret" ∷ "(?i)api[_-]?key" ∷ "(?i)cpf"
    ∷ "(?i)e-?mail|email" ∷ "(?i)phone|telefone|celular" ∷ [])

-- The compiled patterns, unless one is refused.
unfoldable pub compile_all : (Text → Option (Text → Bool)) → List Text → Option (List (Text → Bool))
compile_all compile [] = some []
compile_all compile (pattern ∷ patterns) = elim (compile pattern) [
  | none ↦ none
  | some rule ↦ elim (compile_all compile patterns) [
    | none ↦ none
    | some rules ↦ some (rule ∷ rules)
  ]
]

abbrev pub masked : Value
masked = Value.string (runes "***MASKED***")

abbrev pub mask_value : Value → Value
mask_value Value.null = Value.null
mask_value _ = masked

abbrev pub is_enabled : Option Bool → Bool
is_enabled none = true
is_enabled (some enabled) = enabled

module _ ⦃u : Unicode⦄ where
  unfoldable pub new_masker : (Text → Option (Text → Bool)) → MaskingConfig → Option Masker
  new_masker compile cfg = elim (compile_all compile (default_sensitive ++ cfg.sensitive_columns)) [
    | none ↦ none
    | some rules ↦ some (record {
      enabled = is_enabled cfg.enabled;
      allow = map to_lower cfg.allow_columns;
      rules = rules;
    })
  ]

  -- The masker is not nil.
  unfoldable pub should_mask : Masker → Text → Bool
  should_mask m column =
      if not m.enabled
      then false
      else if mem_text (to_lower column) m.allow
      then false
      else any (λ rule. rule column) m.rules

  -- The loop over the columns, on the copy of the row; a column beyond the row is passed over.
  unfoldable pub mask_row : Masker → List Text → List Value → List Value
  mask_row m [] row = row
  mask_row m (col ∷ columns) [] = []
  mask_row m (col ∷ columns) (v ∷ row) =
      let rest = mask_row m columns row in
      if should_mask m col then mask_value v ∷ rest else v ∷ rest
