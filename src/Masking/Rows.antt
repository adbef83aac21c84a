-- ===== src/Masking/Rows.antt =====
-- What a masked row shows.
use felsen_mcp_server_postgr.Base.{
  ℕ, zero, suc, List, [], ◌∷◌, none, some, ◌≡◌, refl, inl, inr, arith, Text, length, get_elem?,
  if◌then◌else◌, Bool-cases,
}
use felsen_mcp_server_postgr.Strings.{Unicode}
use felsen_mcp_server_postgr.Masking.{Value, Masker, mask_value, should_mask, mask_row}

module _ ⦃u : Unicode⦄ (m : Masker) where
  -- What a column shows of a value.
  abbrev pub shown : Text → Value → Value
  shown col v = if should_mask m col then mask_value v else v

  mask_row-cons :
      (c : Text) (columns : List Text) (x : Value) (row : List Value)
      → mask_row m (c ∷ columns) (x ∷ row) ≡ shown c x ∷ mask_row m columns row
  unfolding mask_row
  mask_row-cons c columns x row = elim (Bool-cases (should_mask m c)) [
    | inl e ↦ rw e refl
    | inr e ↦ rw e refl
  ]

  pub length-mask_row :
      (columns : List Text) (row : List Value) → length (mask_row m columns row) ≡ length row
  unfolding mask_row
  length-mask_row [] row = refl
  length-mask_row (c ∷ columns) [] = refl
  length-mask_row (c ∷ columns) (x ∷ row) =
      rw (mask_row-cons c columns x row, length-mask_row columns row) refl

  mask_row-shown :
      (columns : List Text) (row : List Value) (i : ℕ) (col : Text) (v : Value)
      → get_elem? columns i ≡ some col
      → get_elem? row i ≡ some v
      → get_elem? (mask_row m columns row) i ≡ some (shown col v)
  unfolding mask_row
  mask_row-shown [] row i col v e e' = cc
  mask_row-shown (c ∷ columns) [] i col v e e' = cc
  mask_row-shown (c ∷ columns) (x ∷ row) zero col v e e' =
      let same : c ≡ col = ground arith in
      let same' : x ≡ v = ground arith in rw (mask_row-cons c columns x row, same, same') refl
  mask_row-shown (c ∷ columns) (x ∷ row) (suc i) col v e e' =
      rw (mask_row-cons c columns x row) (mask_row-shown columns row i col v e e')

  mask_row-beyond :
      (columns : List Text) (row : List Value) (i : ℕ)
      → get_elem? columns i ≡ none
      → get_elem? (mask_row m columns row) i ≡ get_elem? row i
  unfolding mask_row
  mask_row-beyond [] row i e = refl
  mask_row-beyond (c ∷ columns) [] i e = refl
  mask_row-beyond (c ∷ columns) (x ∷ row) zero e = cc
  mask_row-beyond (c ∷ columns) (x ∷ row) (suc i) e =
      rw (mask_row-cons c columns x row) (mask_row-beyond columns row i e)

  -- `MaskRow` keeps the length of the row; at each column it shows null or the mask if the column
  -- is to be masked, and the value as it is if not; a value beyond the columns is as it is.
  pub mask_row-lem :
      (columns : List Text) (row : List Value)
      → (length (mask_row m columns row) ≡ length row)
        × ((i : ℕ) (col : Text) (v : Value)
            → get_elem? columns i ≡ some col
            → get_elem? row i ≡ some v
            → get_elem? (mask_row m columns row) i ≡ some (shown col v))
        × ((i : ℕ)
            → get_elem? columns i ≡ none
            → get_elem? (mask_row m columns row) i ≡ get_elem? row i)
  mask_row-lem columns row =
      (length-mask_row columns row, mask_row-shown columns row, mask_row-beyond columns row)
