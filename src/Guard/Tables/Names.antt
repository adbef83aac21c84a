-- ===== src/Guard/Tables/Names.antt =====
-- The schema that the guard reads off a table name.
use mathlib.Core.List.{append_assoc}
use felsen_mcp_server_postgr.Base.{
  ℕ, Bool, true, false, [], ◌∷◌, ◌++◌, ◌≡◌, ◌≢◌, refl, subst, ap, arith, Text, runes, All, ◌==◌,
  ==_iff,
}
use felsen_mcp_server_postgr.Strings.{
  Unicode, trim_left, trim_right, keep_unless, trim_space, trim_char, split, contains_char,
}
use felsen_mcp_server_postgr.Guard.Tables.{split_table, normalize_table}

-- No character has `p`.
abbrev pub Avoids : (ℕ → Bool) → Text → Type 0
Avoids p s = All (λ c. p c ≡ false) s

trim_left-Avoids : (p : ℕ → Bool) (s : Text) → Avoids p s → trim_left p s ≡ s
unfolding trim_left
trim_left-Avoids p [] h = refl
trim_left-Avoids p (c ∷ s) h = ground (arith, h.0)

-- Only the first character matters on the left, and only the last word on the right.
trim_left-append : (p : ℕ → Bool) (s t : Text) → s ≢ [] → Avoids p s → trim_left p (s ++ t) ≡ s ++ t
unfolding trim_left
trim_left-append p [] t n h = absurd (n refl)
trim_left-append p (c ∷ s) t n h = ground (arith, h.0)

keep_unless-full : (p : ℕ → Bool) (c : ℕ) (s : Text) → s ≢ [] → keep_unless p c s ≡ c ∷ s
keep_unless-full p c [] n = absurd (n refl)
keep_unless-full p c (d ∷ s) n = refl

trim_right-Avoids : (p : ℕ → Bool) (s : Text) → Avoids p s → trim_right p s ≡ s
unfolding trim_right
trim_right-Avoids p [] h = refl
trim_right-Avoids p (c ∷ []) h = ground (arith, h.0)
trim_right-Avoids p (c ∷ d ∷ s) h = rw (trim_right-Avoids p (d ∷ s) h.1) refl

append-ne-nil : (s t : Text) → t ≢ [] → s ++ t ≢ []
append-ne-nil [] t n = n
append-ne-nil (c ∷ s) t n = λ e. cc

trim_right-append :
    (p : ℕ → Bool) (s t : Text) → t ≢ [] → Avoids p t → trim_right p (s ++ t) ≡ s ++ t
unfolding trim_right
trim_right-append p [] t n h = trim_right-Avoids p t h
trim_right-append p (c ∷ s) t n h =
    rw (trim_right-append p s t n h) (keep_unless-full p c (s ++ t) (append-ne-nil s t n))

split-Avoids : (d : ℕ) (s : Text) → Avoids (λ c. c == d) s → split d s ≡ s ∷ []
unfolding split
split-Avoids d [] h = refl
split-Avoids d (c ∷ s) h = rw h.0 (rw (split-Avoids d s h.1) refl)

split-append : (d : ℕ) (s t : Text) → Avoids (λ c. c == d) s → split d (s ++ d ∷ t) ≡ s ∷ split d t
unfolding split
split-append d [] t h = rw ((==_iff d d).1 refl) refl
split-append d (c ∷ s) t h = rw h.0 (rw (split-append d s t h.1) refl)

contains_char-append : (d : ℕ) (s t : Text) → contains_char d (s ++ d ∷ t) ≡ true
unfolding contains_char
contains_char-append d [] t = ground (arith, ==_iff d d)
contains_char-append d (c ∷ s) t = ground (arith, contains_char-append d s t)

contains_char-Avoids : (d : ℕ) (s : Text) → Avoids (λ c. c == d) s → contains_char d s ≡ false
unfolding contains_char
contains_char-Avoids d [] h = refl
contains_char-Avoids d (c ∷ s) h = ground (arith, h.0, contains_char-Avoids d s h.1)

module _ ⦃u : Unicode⦄ where
  -- A name of one part: not empty, with no white space, no dot and no quote.
  pub record IsPlain (s : Text) : Type 0 where
    pub full : s ≢ []
    pub no_space : Avoids u.is_space s
    pub no_dot : Avoids (λ c. c == b'.') s
    pub no_quote : Avoids (λ c. c == b'"') s

  trim_char-IsPlain : (s : Text) → IsPlain s → trim_char b'"' s ≡ s
  unfolding trim_char
  trim_char-IsPlain s p = rw (trim_left-Avoids _ s p.no_quote) (trim_right-Avoids _ s p.no_quote)

  trim_space-framed :
      (s m t : Text) → IsPlain s → IsPlain t → trim_space (s ++ (m ++ t)) ≡ s ++ (m ++ t)
  unfolding trim_space
  trim_space-framed s m t p q =
      rw (trim_left-append u.is_space s (m ++ t) p.full p.no_space)
        (rw (← append_assoc) (trim_right-append u.is_space (s ++ m) t q.full q.no_space))

  trim_space-IsPlain : (s : Text) → IsPlain s → trim_space s ≡ s
  unfolding trim_space
  trim_space-IsPlain s p =
      rw (trim_left-Avoids u.is_space s p.no_space) (trim_right-Avoids u.is_space s p.no_space)

  -- A name with a dot in it is left alone.
  normalize_table-dotted :
      (s t : Text)
      → trim_space (s ++ b'.' ∷ t) ≡ s ++ b'.' ∷ t
      → normalize_table (s ++ b'.' ∷ t) ≡ s ++ b'.' ∷ t
  unfolding normalize_table
  normalize_table-dotted [] t e = rw (e, contains_char-append b'.' [] t)
  normalize_table-dotted (c ∷ s) t e = rw (e, contains_char-append b'.' (c ∷ s) t)

  split_table-parts : (s t : Text) → IsPlain s → IsPlain t → split_table (s ++ b'.' ∷ t) ≡ (s, t)
  unfolding split_table
  split_table-parts s t p q = rw (
    trim_space-framed s (b'.' ∷ []) t p q,
    split-append b'.' s t p.no_dot,
    split-Avoids b'.' t q.no_dot,
    trim_char-IsPlain s p,
    trim_char-IsPlain t q,
  )

  -- `SplitTable` reads a schema and a table, both plain names, back from the name that
  -- `normalizeTable` makes of them.
  pub split_table-qualified :
      (s t : Text) → IsPlain s → IsPlain t → split_table (normalize_table (s ++ b'.' ∷ t)) ≡ (s, t)
  split_table-qualified s t p q =
      rw (normalize_table-dotted s t (trim_space-framed s (b'.' ∷ []) t p q))
        (split_table-parts s t p q)

  normalize_table-IsPlain : (t : Text) → IsPlain t → normalize_table t ≡ runes "public" ++ b'.' ∷ t
  unfolding normalize_table runes
  normalize_table-IsPlain [] p = absurd (p.full refl)
  normalize_table-IsPlain (c ∷ t) p =
      rw (trim_space-IsPlain (c ∷ t) p, contains_char-Avoids b'.' (c ∷ t) p.no_dot)

  -- A plain name with no schema is read as a table of the schema `public`, if `public` is itself a
  -- plain name under the tables of Unicode.
  pub split_table-unqualified :
      (t : Text)
      → IsPlain (runes "public")
      → IsPlain t
      → split_table (normalize_table t) ≡ (runes "public", t)
  split_table-unqualified t p q =
      rw (normalize_table-IsPlain t q) (split_table-parts (runes "public") t p q)

  dotted-trimmed :
      (a b t : Text)
      → IsPlain a
      → IsPlain t
      → trim_space (a ++ b'.' ∷ (b ++ b'.' ∷ t)) ≡ a ++ b'.' ∷ (b ++ b'.' ∷ t)
  dotted-trimmed a b t p r =
      let e : (b'.' ∷ (b ++ b'.' ∷ [])) ++ t ≡ b'.' ∷ (b ++ b'.' ∷ t) =
        ap (◌∷◌ b'.') (append_assoc b (b'.' ∷ []) t) in
      subst (λ m. trim_space (a ++ m) ≡ a ++ m) e
        (trim_space-framed a (b'.' ∷ (b ++ b'.' ∷ [])) t p r)

  -- Of plain names, the one that the guard makes of a quoted schema `a.b` and a table `t` is read
  -- as the table `b` of the schema `a`.
  pub split_table-dotted_schema :
      (a b t : Text)
      → IsPlain a
      → IsPlain b
      → IsPlain t
      → split_table (normalize_table ((a ++ b'.' ∷ b) ++ b'.' ∷ t)) ≡ (a, b)
  unfolding split_table
  split_table-dotted_schema a b t p q r = rw (append_assoc a (b'.' ∷ b) (b'.' ∷ t)) (
      rw (normalize_table-dotted a (b ++ b'.' ∷ t) (dotted-trimmed a b t p r)) (
        rw (
          dotted-trimmed a b t p r,
          split-append b'.' a (b ++ b'.' ∷ t) p.no_dot,
          split-append b'.' b t q.no_dot,
          trim_char-IsPlain a p,
          trim_char-IsPlain b q,
        )))
