-- ===== src/Strings/Laws.antt =====
-- Laws of the string functions.
use felsen_mcp_server_postgr.Base.{
  ℕ, Bool, true, false, [], ◌∷◌, ◌++◌, ◌==◌, All, map, ◌≡◌, ◌∙◌, ap, refl, inl, inr, arith, Text,
  text_eq_iff, text_eq_refl, Bool-cases,
}
use felsen_mcp_server_postgr.Strings.{
  Unicode, equal_fold, trim_left, trim_right, keep_unless, trim_space, split,
}

module _ (p : ℕ → Bool) where
  -- The text is empty, or its first character is kept by a trim.
  abbrev StartsKept : Text → Type 0
  StartsKept [] = Unit
  StartsKept (c ∷ s) = p c ≡ false

  trim_left-StartsKept : (s : Text) → StartsKept (trim_left p s)
  unfolding trim_left
  trim_left-StartsKept [] = tt
  trim_left-StartsKept (c ∷ s) = elim (Bool-cases (p c)) [
    | inl e ↦ rw e (trim_left-StartsKept s)
    | inr e ↦ rw e e
  ]

  trim_left_kept : (s : Text) → StartsKept s → trim_left p s ≡ s
  unfolding trim_left
  trim_left_kept [] k = refl
  trim_left_kept (c ∷ s) k = rw k refl

  keep_unless-StartsKept : (c : ℕ) (s : Text) → p c ≡ false → StartsKept (keep_unless p c s)
  keep_unless-StartsKept c [] k = rw k k
  keep_unless-StartsKept c (d ∷ s) k = k

  trim_right-StartsKept : (s : Text) → StartsKept s → StartsKept (trim_right p s)
  unfolding trim_right
  trim_right-StartsKept [] k = tt
  trim_right-StartsKept (c ∷ s) k = keep_unless-StartsKept c (trim_right p s) k

  trim_right-keep_unless :
      (c : ℕ) (s : Text) → trim_right p s ≡ s → trim_right p (keep_unless p c s) ≡ keep_unless p c s
  unfolding trim_right
  trim_right-keep_unless c [] h = elim (Bool-cases (p c)) [
    | inl e ↦ rw (e, trim_right) refl
    | inr e ↦ rw (e, trim_right, e) refl
  ]
  trim_right-keep_unless c (d ∷ s) h = ap (keep_unless p c) h

  trim_right_idem : (s : Text) → trim_right p (trim_right p s) ≡ trim_right p s
  unfolding trim_right
  trim_right_idem [] = refl
  trim_right_idem (c ∷ s) = trim_right-keep_unless c (trim_right p s) (trim_right_idem s)

module _ ⦃u : Unicode⦄ where
  pub trim_space_idem : (s : Text) → trim_space (trim_space s) ≡ trim_space s
  unfolding trim_space
  trim_space_idem s =
      ap (trim_right u.is_space) (
        trim_left_kept u.is_space (trim_right u.is_space (trim_left u.is_space s)) (
          trim_right-StartsKept u.is_space (trim_left u.is_space s)
            (trim_left-StartsKept u.is_space s)))
      ∙ trim_right_idem u.is_space (trim_left u.is_space s)

module _ ⦃u : Unicode⦄ where
  pub equal_fold_refl : (a : Text) → equal_fold a a ≡ true
  unfolding equal_fold
  equal_fold_refl a = text_eq_refl (map u.fold a)

  pub equal_fold_trans :
      (a b c : Text) → equal_fold a b ≡ true → equal_fold b c ≡ true → equal_fold a c ≡ true
  unfolding equal_fold
  equal_fold_trans a b c h k = (text_eq_iff (map u.fold a) (map u.fold c)).1 (
      cc (
        (text_eq_iff (map u.fold a) (map u.fold b)).0 h,
        (text_eq_iff (map u.fold b) (map u.fold c)).0 k,
      ))

-- A text without the separator is one part.
pub split-before :
    (sep : ℕ) (a s : Text)
    → All (λ c. (c == sep) ≡ false) a
    → split sep (a ++ sep ∷ s) ≡ a ∷ split sep s
unfolding split
split-before sep [] s h = ground arith
split-before sep (c ∷ a) s h = rw (h.0, split-before sep a s h.1) refl

pub split-whole : (sep : ℕ) (a : Text) → All (λ c. (c == sep) ≡ false) a → split sep a ≡ a ∷ []
unfolding split
split-whole sep [] h = refl
split-whole sep (c ∷ a) h = rw (h.0, split-whole sep a h.1) refl
