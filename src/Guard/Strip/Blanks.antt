-- ===== src/Guard/Strip/Blanks.antt =====
-- The text that `stripSQLComments` returns, beside the text it is given.
use felsen_mcp_server_postgr.Base.{
  ℕ, ◌&&◌, [], ◌∷◌, Text, ◌≡◌, ◌≢◌, ◌⊎◌, refl, sym, ◌∙◌, subst, inl, inr, arith, ◌==◌, if_cases,
}
use felsen_mcp_server_postgr.Guard.Reason.{ok, bind-eq-ok}
use felsen_mcp_server_postgr.Guard.Split.{Scan, next_rune}
use felsen_mcp_server_postgr.Guard.Strip.{
  Skip, strip_step, strip_end, strip_from, strip_sql_comments,
}

-- The texts are equally long, and agree but where the second has a space for a rune that is no
-- line break.
abbrev pub Blanks : Text → Text → Type 0
Blanks [] [] = Unit
Blanks (c ∷ s) (d ∷ t) = ((d ≡ c) ⊎ ((d ≡ b' ') × (c ≢ b'\n'))) × Blanks s t
Blanks _ _ = ⊥

-- A rune that is to be blanked is no line break.
abbrev Blankable : Skip → Text → Type 0
Blankable Skip.blank (c ∷ s) = c ≢ b'\n'
Blankable _ s = Unit

-- The rune that a turn writes is the rune itself, or a space for one that is no line break.
abbrev IsWritten : ℕ → Text → Scan × Skip × ℕ → Type 0
IsWritten c s (scan, skip, written) =
    ((written ≡ c) ⊎ ((written ≡ b' ') × (c ≢ b'\n'))) × Blankable skip s

next_rune-Blankable : (s : Text) (d : ℕ) → next_rune s ≡ d → d ≢ b'\n' → Blankable Skip.blank s
next_rune-Blankable [] d e n = tt
next_rune-Blankable (c ∷ s) d e n = λ x. n (sym e ∙ x)

strip_step-IsWritten :
    (scan : Scan) (c : ℕ) (s : Text) → IsWritten c s (strip_step scan c (next_rune s))
unfolding strip_step
strip_step-IsWritten Scan.line c s =
    if_cases (IsWritten c s) (c == b'\n') (λ _. (inl refl, tt))
      λ e. (inr (refl, λ x. ground (arith, e, x)), tt)
strip_step-IsWritten Scan.block c s =
    if_cases (IsWritten c s) (c == b'*' && next_rune s == b'/')
      (λ e. (
        inr (refl, λ x. ground (arith, e, x)),
        next_rune-Blankable s b'/' (ground (arith, e)) λ x. ground (arith, x),
      ))
      λ _.
        if_cases (IsWritten c s) (c == b'\n') (λ _. (inl refl, tt))
          λ e. (inr (refl, λ x. ground (arith, e, x)), tt)
strip_step-IsWritten Scan.single c s =
    if_cases (IsWritten c s) (c == 92) (λ _. (inl refl, tt))
      λ _.
        if_cases (IsWritten c s) (c == 39)
          (λ _.
            if_cases (IsWritten c s) (next_rune s == 39) (λ _. (inl refl, tt)) λ _. (inl refl, tt))
          λ _. (inl refl, tt)
strip_step-IsWritten Scan.double c s =
    if_cases (IsWritten c s) (c == 34)
      (λ _. if_cases (IsWritten c s) (next_rune s == 34) (λ _. (inl refl, tt)) λ _. (inl refl, tt))
      λ _. (inl refl, tt)
strip_step-IsWritten Scan.plain c s =
    if_cases (IsWritten c s) (c == b'-' && next_rune s == b'-')
      (λ e. (
        inr (refl, λ x. ground (arith, e, x)),
        next_rune-Blankable s b'-' (ground (arith, e)) λ x. ground (arith, x),
      ))
      λ _.
        if_cases (IsWritten c s) (c == b'/' && next_rune s == b'*')
          (λ e. (
            inr (refl, λ x. ground (arith, e, x)),
            next_rune-Blankable s b'*' (ground (arith, e)) λ x. ground (arith, x),
          ))
          λ _.
            if_cases (IsWritten c s) (c == 39) (λ _. (inl refl, tt))
              λ _. if_cases (IsWritten c s) (c == 34) (λ _. (inl refl, tt)) λ _. (inl refl, tt)

strip_end-empty : (scan : Scan) (out : Text) → strip_end scan ≡ ok out → out ≡ []
unfolding strip_end
strip_end-empty Scan.plain out h = ground arith
strip_end-empty Scan.line out h = ground arith
strip_end-empty Scan.single out h = cc
strip_end-empty Scan.double out h = cc
strip_end-empty Scan.block out h = cc

strip_from-Blanks :
    (scan : Scan) (skip : Skip) (s out : Text)
    → Blankable skip s
    → strip_from scan skip s ≡ ok out
    → Blanks s out
unfolding strip_from
strip_from-Blanks scan skip [] out b h = rw (strip_end-empty scan out h) tt
strip_from-Blanks scan Skip.blank (c ∷ s) out b h =
    let (t, e, k) = bind-eq-ok (strip_from scan Skip.here s) (λ t. ok (b' ' ∷ t)) h in
    let same : b' ' ∷ t ≡ out = ground arith in
    subst (Blanks (c ∷ s)) same (inr (refl, b), strip_from-Blanks scan Skip.here s t tt e)
strip_from-Blanks scan Skip.keep (c ∷ s) out b h =
    let (t, e, k) = bind-eq-ok (strip_from scan Skip.here s) (λ t. ok (c ∷ t)) h in
    let same : c ∷ t ≡ out = ground arith in
    subst (Blanks (c ∷ s)) same (inl refl, strip_from-Blanks scan Skip.here s t tt e)
strip_from-Blanks scan Skip.here (c ∷ s) out b h =
    let step : Scan × Skip × ℕ = strip_step scan c (next_rune s) in
    let (t, e, k) = bind-eq-ok (strip_from step.0 step.1 s) (λ t. ok (step.2 ∷ t)) h in
    let same : step.2 ∷ t ≡ out = ground arith in
    let (written, later) = strip_step-IsWritten scan c s in
    subst (Blanks (c ∷ s)) same (written, strip_from-Blanks step.0 step.1 s t later e)

-- The text that `stripSQLComments` returns is as long as the text it is given, and differs from it
-- only in spaces for runes that are no line breaks.
pub strip_sql_comments-Blanks : (sql out : Text) → strip_sql_comments sql ≡ ok out → Blanks sql out
unfolding strip_sql_comments
strip_sql_comments-Blanks sql out h = strip_from-Blanks Scan.plain Skip.here sql out tt h
