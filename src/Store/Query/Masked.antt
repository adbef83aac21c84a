-- ===== src/Store/Query/Masked.antt =====
-- `collectRows`: the rows of a result are the first of those that the driver answers with, masked.
use felsen_mcp_server_postgr.Base.{
  true, false, ℕ, ◌+◌, ◌-◌, ◌≤◌, zero, suc, take, map, sym, ap, List, [], ◌∷◌, ◌≡◌, refl, ◌∙◌,
  arith, Text, length, leb, if_cases,
}
use felsen_mcp_server_postgr.Strings.{Unicode}
use felsen_mcp_server_postgr.Masking.{Masker, Value, mask_row}
use felsen_mcp_server_postgr.Store.{Answer, value, failure}
use felsen_mcp_server_postgr.Store.Query.{json_safe_values, collect_from}

length-map {ℓ κ} :
    {A : Type ℓ} {B : Type κ} (f : A → B) (xs : List A) → length (map f xs) ≡ length xs
length-map f [] = refl
length-map f (x ∷ xs) = omega (arith, length-map f xs)

length-take {ℓ} : {A : Type ℓ} (n : ℕ) (xs : List A) → length (take n xs) ≤ n
length-take zero xs = omega arith
length-take (suc n) [] = omega arith
length-take (suc n) (x ∷ xs) = omega (arith, length-take n xs)

take_none {ℓ} : {A : Type ℓ} (n : ℕ) → take {A = A} n [] ≡ []
take_none zero = refl
take_none (suc n) = refl

no_room : (max_rows count : ℕ) → leb max_rows count ≡ true → max_rows - count ≡ 0
no_room max_rows count full = ground arith

room_for :
    (max_rows count : ℕ)
    → leb max_rows count ≡ false
    → max_rows - count ≡ suc (max_rows - (count + 1))
room_for max_rows count room = ground arith

module _ ⦃u : Unicode⦄ (decode : List ℕ → Text) (format : ℕ → Text) where
  -- The rows are the first that the driver answers with, at most `max_rows`, each of them masked.
  abbrev pub IsMasked :
      Masker → ℕ → List Text → List (Answer (List Value)) → List (List Value) → Type 0
  IsMasked m max_rows columns answers rows =
      (read_rows : List (List Value)) × (take max_rows answers ≡ map value read_rows)
      × (rows ≡ map (λ vs. mask_row m columns (json_safe_values decode format vs)) read_rows)

  pub length-IsMasked :
      (m : Masker) (max_rows : ℕ) (columns : List Text) (answers : List (Answer (List Value)))
      (rows : List (List Value))
      → IsMasked m max_rows columns answers rows
      → length rows ≤ max_rows
  length-IsMasked m max_rows columns answers rows (read_rows, first, masked) =
      let same : length rows ≡ length (take max_rows answers) =
        ap (length {0}) masked
        ∙ length-map (λ vs. mask_row m columns (json_safe_values decode format vs)) read_rows
        ∙ sym (length-map value read_rows)
        ∙ ap (length {0}) (sym first) in
      omega (arith, same, length-take max_rows answers)

  abbrev pub AreCollected :
      Masker → ℕ → List Text → List (Answer (List Value)) → Answer (List (List Value)) → Type 0
  AreCollected m max_rows columns answers (failure e) = Unit
  AreCollected m max_rows columns answers (value rows) = IsMasked m max_rows columns answers rows

  collected_next :
      (m : Masker) (n : ℕ) (columns : List Text) (answer : Answer (List Value))
      (answers : List (Answer (List Value))) (rest : Answer (List (List Value)))
      → AreCollected m n columns answers rest
      → AreCollected m (suc n) columns (answer ∷ answers) (elim answer [
        | failure e ↦ failure e
        | value vs ↦ elim rest [
          | failure e ↦ failure e
          | value rows ↦ value (mask_row m columns (json_safe_values decode format vs) ∷ rows)
        ]
      ])
  collected_next m n columns (failure e) answers rest c = tt
  collected_next m n columns (value vs) answers (failure e) c = tt
  collected_next m n columns (value vs) answers (value rows) (read_rows, first, masked) =
      (vs ∷ read_rows, ap (λ t. value vs ∷ t) first, rw masked refl)

  pub collect_from-AreCollected :
      (m : Masker) (max_rows : ℕ) (columns : List Text) (count : ℕ)
      (answers : List (Answer (List Value)))
      → AreCollected m
          (max_rows - count)
          columns
          answers
          (collect_from decode format m max_rows columns count answers)
  unfolding collect_from
  collect_from-AreCollected m max_rows columns count [] = ([], take_none (max_rows - count), refl)
  collect_from-AreCollected m max_rows columns count (answer ∷ answers) =
      if_cases (AreCollected m (max_rows - count) columns (answer ∷ answers)) (leb max_rows count)
        (λ full. rw (no_room max_rows count full) ([], refl, refl))
        λ room. rw (room_for max_rows count room) (
          collected_next m (max_rows - (count + 1)) columns answer answers
            (collect_from decode format m max_rows columns (count + 1) answers)
            (collect_from-AreCollected m max_rows columns (count + 1) answers))
