-- ===== src/Guard/Tables/Unique.antt =====
-- `appendUnique` is the union of sets, kept as a list with no repetition.
use felsen_mcp_server_postgr.Base.{
  Bool, true, not, ◌&&◌, List, [], ◌∷◌, ◌++◌, ◌≡◌, ◌≢◌, ◌↔◌, ◌⊎◌, inl, inr, refl, sym, ◌∙◌, arith,
  Text, text_eq_iff, mem_text, Any, Bool-cases, if◌then◌else◌,
}
use felsen_mcp_server_postgr.Guard.Tables.{is_empty, append_unique}

abbrev pub In : Text → List Text → Type 0
In a xs = Any (λ x. a ≡ x) xs

-- Each entry differs from all behind it.
abbrev pub IsDistinct : List Text → Type 0
IsDistinct [] = Unit
IsDistinct (x ∷ xs) = (¬ In x xs) × IsDistinct xs

pub mem_text_iff : (a : Text) (xs : List Text) → (mem_text a xs ≡ true) ↔ In a xs
unfolding mem_text
mem_text_iff a [] = (λ h. cc, λ h. absurd h)
mem_text_iff a (x ∷ xs) = ground (arith, text_eq_iff a x, mem_text_iff a xs)

pub In-append : (a : Text) (xs ys : List Text) → In a (xs ++ ys) ↔ (In a xs ⊎ In a ys)
In-append a [] ys = (inr, elim [ inl h ↦ absurd h | inr h ↦ h ])
In-append a (x ∷ xs) ys = ground (arith, In-append a xs ys)

pub IsDistinct-append :
    (xs : List Text) (a : Text) → IsDistinct xs → ¬ In a xs → IsDistinct (xs ++ a ∷ [])
IsDistinct-append [] a d n = (λ h. absurd h, tt)
IsDistinct-append (x ∷ xs) a d n = (
  λ h. elim ((In-append x xs (a ∷ [])).0 h) [
    | inl old ↦ d.0 old
    | inr new ↦ elim new [ inl e ↦ n (inl (sym e)) | inr none ↦ absurd none ]
  ],
  IsDistinct-append xs a d.1 (λ h. n (inr h)),
)

-- The table is new: it is not empty and not yet in the list.
abbrev is_new : Text → List Text → Bool
is_new table tables = not (is_empty table) && not (mem_text table tables)

-- `appendUnique` never repeats a table in a list without repetitions.
pub append_unique-IsDistinct :
    (tables values : List Text) → IsDistinct tables → IsDistinct (append_unique tables values)
unfolding append_unique
append_unique-IsDistinct tables [] d = d
append_unique-IsDistinct tables (v ∷ values) d = elim (Bool-cases (is_new v tables)) [
  | inl e ↦ rw e (
      append_unique-IsDistinct (tables ++ v ∷ []) values
        (IsDistinct-append tables v d (λ h. ground (arith, (mem_text_iff v tables).1 h))))
  | inr e ↦ rw e (append_unique-IsDistinct tables values d)
]

pub is_empty_iff : (v : Text) → (is_empty v ≡ true) ↔ (v ≡ [])
is_empty_iff [] = (λ h. refl, λ h. refl)
is_empty_iff (c ∷ v) = (λ h. cc, λ h. cc)

abbrev add_one : List Text → Text → List Text
add_one tables v = if is_new v tables then tables ++ v ∷ [] else tables

In-add_one→ :
    (a v : Text) (tables : List Text) → In a (add_one tables v) → In a tables ⊎ ((a ≢ []) × (a ≡ v))
In-add_one→ a v tables h = elim (Bool-cases (is_new v tables)) [
  | inl e ↦ elim ((In-append a tables (v ∷ [])).0 (rw e at h)) [
    | inl old ↦ inl old
    | inr new ↦ elim new [
      | inl a≡v ↦ inr (λ a≡[]. ground (arith, (is_empty_iff v).1 (sym a≡v ∙ a≡[])), a≡v)
      | inr none ↦ absurd none
    ]
  ]
  | inr e ↦ inl (rw e at h)
]

In-add_one← :
    (a v : Text) (tables : List Text) → In a tables ⊎ ((a ≢ []) × (a ≡ v)) → In a (add_one tables v)
In-add_one← a v tables h = elim (Bool-cases (is_new v tables)) [
  | inl e ↦
      rw e ((In-append a tables (v ∷ [])).1 (elim h [ inl old ↦ inl old | inr n ↦ inr (inl n.1) ]))
  | inr e ↦ rw e (elim h [
    | inl old ↦ old
    | inr n ↦ elim (Bool-cases (is_empty v)) [
      | inl empty ↦ absurd (n.0 (n.1 ∙ (is_empty_iff v).0 empty))
      | inr full ↦ rw n.1 ((mem_text_iff v tables).0 (ground arith))
    ]
  ])
]

-- `appendUnique` returns a list with the tables and those of the values that are not empty, and
-- nothing else.
pub append_unique_iff :
    (a : Text) (tables values : List Text)
    → In a (append_unique tables values) ↔ (In a tables ⊎ ((a ≢ []) × In a values))
unfolding append_unique
append_unique_iff a tables [] = (inl, λ h. elim h [ inl old ↦ old | inr n ↦ absurd n.1 ])
append_unique_iff a tables (v ∷ values) = (
  λ h. elim ((append_unique_iff a (add_one tables v) values).0 h) [
    | inl now ↦ elim (In-add_one→ a v tables now) [ inl old ↦ inl old | inr n ↦ inr (n.0, inl n.1) ]
    | inr n ↦ inr (n.0, inr n.1)
  ],
  λ h. (append_unique_iff a (add_one tables v) values).1 (elim h [
    | inl old ↦ inl (In-add_one← a v tables (inl old))
    | inr n ↦ elim n.1 [
      | inl a≡v ↦ inl (In-add_one← a v tables (inr (n.0, a≡v)))
      | inr later ↦ inr (n.0, later)
    ]
  ]),
)
