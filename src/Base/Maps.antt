-- ===== src/Base/Maps.antt =====
-- A Go map with string keys, as the list of its entries, and a sort of texts.
use mathlib.Core.Path.{◌≡◌, refl}
use mathlib.Core.Logic.{◌≢◌, inl, inr}
use mathlib.Core.Bool.{Bool, true, false}
use mathlib.Core.Option.{Option, none, some}
use mathlib.Core.List.{List, [], ◌∷◌}
use native.Mathlib.Omega.{arith}
use felsen_mcp_server_postgr.Base.Order.{ltb, ◌==◌, if◌then◌else◌, Bool-cases}
use felsen_mcp_server_postgr.Base.Runes.{Text, text_eq, text_eq_iff, text_eq_refl}

abbrev pub Entries {ℓ} : Type ℓ → Type ℓ
Entries A = List (Text × A)

module _ {ℓ} {A : Type ℓ} where
  -- `m[key]`, with its second result.
  unfoldable pub find : Entries A → Text → Option A
  find [] key = none
  find ((k, a) ∷ m) key = let rest = find m key in if text_eq k key then some a else rest

  -- `delete(m, key)`.
  unfoldable pub delete : Entries A → Text → Entries A
  delete [] key = []
  delete ((k, a) ∷ m) key = let rest = delete m key in if text_eq k key then rest else (k, a) ∷ rest

  -- `m[key] = a`.
  unfoldable pub put : Entries A → Text → A → Entries A
  put m key a = (key, a) ∷ delete m key

-- The order of Go's strings: of their bytes in UTF-8, which is that of the code points.
unfoldable pub text_leb : Text → Text → Bool
text_leb [] t = true
text_leb (c ∷ s) [] = false
text_leb (c ∷ s) (d ∷ t) = let rest = text_leb s t in if c == d then rest else ltb c d

-- `sort.Strings` of the keys of a map: no key is there twice.
unfoldable pub insert_key : Text → List Text → List Text
insert_key a [] = a ∷ []
insert_key a (b ∷ bs) =
    let rest = insert_key a bs in
    if text_eq a b then b ∷ bs else if text_leb a b then a ∷ b ∷ bs else b ∷ rest

unfoldable pub sorted_keys : List Text → List Text
sorted_keys [] = []
sorted_keys (a ∷ rest) = insert_key a (sorted_keys rest)

module _ {ℓ} {A : Type ℓ} where
  pub find-delete_self : (m : Entries A) (key : Text) → find (delete m key) key ≡ none
  unfolding find delete
  find-delete_self [] key = refl
  find-delete_self ((k, a) ∷ m) key = ground (arith, find-delete_self m key)

  pub find-delete_other :
      (m : Entries A) (key other : Text) → other ≢ key → find (delete m other) key ≡ find m key
  unfolding find delete
  find-delete_other [] key other n = refl
  find-delete_other ((k, a) ∷ m) key other n = elim (Bool-cases (text_eq k other)) [
    | inl e ↦
        ground (arith, e, find-delete_other m key other n, text_eq_iff k other, text_eq_iff k key)
    | inr e ↦ ground (arith, e, find-delete_other m key other n)
  ]

  pub find-put_self : (m : Entries A) (key : Text) (a : A) → find (put m key a) key ≡ some a
  unfolding find put
  find-put_self m key a = rw (text_eq_refl key) refl

  pub find-put_other :
      (m : Entries A) (key other : Text) (a : A)
      → other ≢ key
      → find (put m other a) key ≡ find m key
  unfolding find put
  find-put_other m key other a n =
      ground (arith, find-delete_other m key other n, text_eq_iff other key)

module _ {ℓ} {A : Type ℓ} where
  pub delete-none :
      (m : Entries A) (key other : Text) → find m key ≡ none → find (delete m other) key ≡ none
  unfolding find delete
  delete-none [] key other h = refl
  delete-none ((k, a) ∷ m) key other h = ground (arith, delete-none m key other)

  -- No key is there twice.
  abbrev pub KeysDistinct : Entries A → Type ℓ
  KeysDistinct [] = Unit
  KeysDistinct ((k, a) ∷ m) = (find m k ≡ none) × KeysDistinct m

  pub delete-KeysDistinct :
      (m : Entries A) (key : Text) → KeysDistinct m → KeysDistinct (delete m key)
  unfolding delete
  delete-KeysDistinct [] key d = tt
  delete-KeysDistinct ((k, a) ∷ m) key d = elim (Bool-cases (text_eq k key)) [
    | inl e ↦ rw e (delete-KeysDistinct m key d.1)
    | inr e ↦ rw e (delete-none m k key d.0, delete-KeysDistinct m key d.1)
  ]

  pub put-KeysDistinct :
      (m : Entries A) (key : Text) (a : A) → KeysDistinct m → KeysDistinct (put m key a)
  unfolding put
  put-KeysDistinct m key a d = (find-delete_self m key, delete-KeysDistinct m key d)
