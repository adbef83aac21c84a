-- ===== src/Guard/Token.antt =====
-- internal/sqlguard/sqlguard.go: `token`, and the tests on tokens and token lists that every
-- check of the guard is made of. `tokens[i]` under a bounds test is `get_elem?`.
pub mod Keywords
use felsen_mcp_server_postgr.Base.{
  ℕ, zero, suc, Bool, true, false, not, ◌&&◌, ◌||◌, List, [], ◌∷◌, Option, none, some, String, Text,
  text_eq, runes, any, get_elem?, if◌then◌else◌,
}
use felsen_mcp_server_postgr.Strings.{Unicode, equal_fold, to_lower}

pub data TokenKind : Type 0 where
  identifier string number symbol : TokenKind

pub record Token : Type 0 where
  pub text : Text
  pub quoted : Bool
  pub kind : TokenKind

abbrev pub is_identifier : Token → Bool
is_identifier t = elim t.kind [ TokenKind.identifier ↦ true | _ ↦ false ]

abbrev pub is_symbol : Token → Bool
is_symbol t = elim t.kind [ TokenKind.symbol ↦ true | _ ↦ false ]

-- `i < len(tokens) && tokens[i].text == v`.
unfoldable pub text_at : List Token → ℕ → String → Bool
text_at ts i v = elim (get_elem? ts i) [ none ↦ false | some t ↦ text_eq t.text (runes v) ]

module _ ⦃u : Unicode⦄ where
  unfoldable pub is_keyword : Token → String → Bool
  is_keyword t v = is_identifier t && not t.quoted && equal_fold t.text (runes v)

  -- `i < len(tokens) && isKeyword(tokens[i], v)`.
  unfoldable pub keyword_at : List Token → ℕ → String → Bool
  unfolding is_keyword
  keyword_at ts i v = elim (get_elem? ts i) [ none ↦ false | some t ↦ is_keyword t v ]

  unfoldable pub identifier_value : Token → Text
  identifier_value t = if t.quoted then t.text else to_lower t.text

  unfoldable pub contains_keyword : List Token → String → Bool
  unfolding is_keyword
  contains_keyword ts v = any (λ t. is_keyword t v) ts

  -- The inner loop of `containsSequence`: the values match the tokens from the first one on.
  unfoldable pub sequence_here : List Token → List String → Bool
  unfolding is_keyword
  sequence_here ts [] = true
  sequence_here [] (v ∷ vs) = false
  sequence_here (t ∷ ts) (v ∷ vs) = is_keyword t v && sequence_here ts vs

  -- The outer loop, over the start positions.
  unfoldable pub sequence_from : List Token → List String → Bool
  unfolding sequence_here
  sequence_from [] vs = sequence_here [] vs
  sequence_from (t ∷ ts) vs = sequence_here (t ∷ ts) vs || sequence_from ts vs

  unfoldable pub contains_sequence : List Token → List String → Bool
  unfolding sequence_from
  contains_sequence ts [] = false
  contains_sequence ts (v ∷ vs) = sequence_from ts (v ∷ vs)

  -- `operationFromTokens`: the lower-case first word, empty if there is none.
  unfoldable pub operation_from_tokens : List Token → Text
  operation_from_tokens [] = []
  operation_from_tokens (t ∷ ts) = if is_identifier t && not t.quoted then to_lower t.text else []
