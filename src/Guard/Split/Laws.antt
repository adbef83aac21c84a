-- ===== src/Guard/Split/Laws.antt =====
-- What the splitter does on texts without comments and quotes, and where it fails to split.
use felsen_mcp_server_postgr.Base.{
  ℕ, Bool, true, false, List, [], ◌∷◌, ◌++◌, Text, ◌≡◌, ◌≢◌, refl, ◌∙◌, inl, inr, arith, ◌==◌, All,
  Bool-cases, if_cases,
}
use felsen_mcp_server_postgr.Strings.{Unicode, push_first}
use felsen_mcp_server_postgr.Strings.{split}
use felsen_mcp_server_postgr.Guard.Reason.{ok}
use felsen_mcp_server_postgr.Guard.Split.{
  Scan, next_rune, split_step, add_statement, split_from, split_statements,
}

-- Neither a quote nor the start of a comment.
abbrev pub IsOrdinary : ℕ → Type 0
IsOrdinary c = (c ≢ 39) × (c ≢ 34) × (c ≢ b'-') × (c ≢ b'/')

split_step-ordinary :
    (c next : ℕ) → IsOrdinary c → split_step Scan.plain c next ≡ (Scan.plain, false, c == b';')
unfolding split_step
split_step-ordinary c next (q, dq, m, s) = ground arith

module _ ⦃u : Unicode⦄ where
  -- The statements among the parts: those that are not blank, trimmed.
  unfoldable pub statements_of : List Text → List Text
  statements_of [] = []
  statements_of (part ∷ parts) = add_statement part (statements_of parts)

  -- The parts with a text in front of the first.
  abbrev pub prepend : Text → List Text → List Text
  prepend current [] = current ∷ []
  prepend current (p ∷ ps) = (current ++ p) ∷ ps

  append_assoc : (a b c : Text) → (a ++ b) ++ c ≡ a ++ (b ++ c)
  append_assoc [] b c = refl
  append_assoc (x ∷ a) b c = rw (append_assoc a b c) refl

  append_nil : (a : Text) → a ++ [] ≡ a
  append_nil [] = refl
  append_nil (x ∷ a) = rw (append_nil a) refl

  prepend-snoc :
      (current : Text) (c : ℕ) (parts : List Text)
      → prepend (current ++ c ∷ []) parts ≡ prepend current (push_first c parts)
  prepend-snoc current c [] = refl
  prepend-snoc current c (p ∷ ps) = rw (append_assoc current (c ∷ []) p) refl

  prepend-nil : (parts : List Text) → parts ≢ [] → prepend [] parts ≡ parts
  prepend-nil [] n = absurd (n refl)
  prepend-nil (p ∷ ps) n = refl

  push_first-full : (c : ℕ) (parts : List Text) → push_first c parts ≢ []
  push_first-full c [] = λ e. cc
  push_first-full c (p ∷ ps) = λ e. cc

  split-full : (s : Text) → split b';' s ≢ []
  unfolding split
  split-full [] = λ e. cc
  split-full (c ∷ s) =
      if_cases (λ parts. parts ≢ []) (c == b';') (λ _ e. cc) λ _. push_first-full c (split b';' s)

  split_from-ordinary :
      (current s : Text)
      → All IsOrdinary s
      → split_from Scan.plain false current s ≡ statements_of (prepend current (split b';' s))
  unfolding split_from split statements_of
  split_from-ordinary current [] o = rw (append_nil current) refl
  split_from-ordinary current (c ∷ s) (o, os) =
      let step = split_step-ordinary c (next_rune s) o in
      elim (Bool-cases (c == b';')) [
        | inl e ↦
            rw (step, e, split_from, append_nil current)
              (rw (split_from-ordinary [] s os, prepend-nil (split b';' s) (split-full s)) refl)
        | inr e ↦
            rw (step, e, split_from)
              (split_from-ordinary (current ++ c ∷ []) s os
                ∙ rw (prepend-snoc current c (split b';' s)) refl)
      ]

  -- A script without quotes, `-` and `/` is split at its semicolons: the statements are the parts
  -- between them, trimmed, without the blank ones.
  pub split_statements-ordinary :
      (sql : Text) → All IsOrdinary sql → split_statements sql ≡ ok (statements_of (split b';' sql))
  unfolding split_statements
  split_statements-ordinary sql o =
      rw (split_from-ordinary [] sql o, prepend-nil (split b';' sql) (split-full sql)) refl

  -- Inside a literal nothing is split.
  split_from-single :
      (skip : Bool) (current s : Text)
      → All (λ c. c ≢ 39) s
      → split_from Scan.single skip current s ≡ add_statement (current ++ s) []
  unfolding split_from split_step
  split_from-single skip current [] q = rw (append_nil current) refl
  split_from-single true current (c ∷ s) (q, qs) =
      split_from-single false (current ++ c ∷ []) s qs ∙ rw (append_assoc current (c ∷ []) s) refl
  split_from-single false current (c ∷ s) (q, qs) =
      let other : (c == 39) ≡ false = ground (arith, q) in
      rw (other, split_step)
        (split_from-single false (current ++ c ∷ []) s qs
          ∙ rw (append_assoc current (c ∷ []) s) refl)

  split_from-empty_literal :
      (current a b : Text)
      → All (λ c. IsOrdinary c × (c ≢ b';')) a
      → All (λ c. c ≢ 39) b
      → split_from Scan.plain false current (a ++ 39 ∷ 39 ∷ b)
        ≡ add_statement (current ++ (a ++ 39 ∷ 39 ∷ b)) []
  unfolding split_from split_step
  split_from-empty_literal current [] b o q =
      split_from-single false ((current ++ 39 ∷ []) ++ 39 ∷ []) b q
      ∙ rw (append_assoc (current ++ 39 ∷ []) (39 ∷ []) b, append_assoc current (39 ∷ []) (39 ∷ b))
          refl
  split_from-empty_literal current (c ∷ a) b ((o, n), os) q =
      let step = split_step-ordinary c (next_rune (a ++ 39 ∷ 39 ∷ b)) o in
      let other : (c == b';') ≡ false = ground (arith, n) in
      rw (step, other, split_from)
        (split_from-empty_literal (current ++ c ∷ []) a b os q
          ∙ rw (append_assoc current (c ∷ []) (a ++ 39 ∷ 39 ∷ b)) refl)

  -- Behind an empty literal nothing is split: if no quote, semicolon, `-` or `/` precedes it and
  -- no single quote follows, the whole text is one statement, whatever semicolons follow the
  -- literal.
  pub split_statements-empty_literal :
      (a b : Text)
      → All (λ c. IsOrdinary c × (c ≢ b';')) a
      → All (λ c. c ≢ 39) b
      → split_statements (a ++ 39 ∷ 39 ∷ b) ≡ ok (add_statement (a ++ 39 ∷ 39 ∷ b) [])
  unfolding split_statements
  split_statements-empty_literal a b o q = rw (split_from-empty_literal [] a b o q) refl
