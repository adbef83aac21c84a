-- ===== src/Guard/Ddl/Alter.antt =====
-- `parseAlterTables`: what an accepted `alter table` holds.
use felsen_mcp_server_postgr.Base.{
  ℕ, zero, suc, ◌+◌, true, false, List, [], ◌∷◌, some, ◌≡◌, ◌↔◌, refl, sym, arith, String, Text,
  text_eq, runes, get_elem?, drop, All, inl, inr, Bool-cases,
}
use felsen_mcp_server_postgr.Strings.{Unicode, equal_fold, to_lower}
use felsen_mcp_server_postgr.Guard.Reason.{ok, bind-eq-ok}
use felsen_mcp_server_postgr.Guard.Token.{Token, is_keyword, keyword_at}
use felsen_mcp_server_postgr.Guard.Tables.{is_empty}
use felsen_mcp_server_postgr.Guard.Relations.{relation_at, relation_at_with_options}
use felsen_mcp_server_postgr.Guard.Ddl.{
  skip_if_exists, skip_keyword, is_foreign_key_referential_action, forbidden_word, check_alter_from,
  parse_alter_tables,
}

module _ ⦃u : Unicode⦄ (tokens : List Token) where
  -- The token is no word that renames, moves or attaches the table, and a `set` or `no` only as
  -- the action of a foreign key.
  pub record IsPermitted (i : ℕ) (t : Token) : Type 0 where
    pub word :
        All
          (λ w. is_keyword t w ≡ false)
          ("rename" ∷ "owner" ∷ "attach" ∷ "detach" ∷ "inherit" ∷ "replica" ∷ [])
    pub set : is_keyword t "set" ≡ true → is_foreign_key_referential_action tokens i ≡ true
    pub no : is_keyword t "no" ≡ true → is_foreign_key_referential_action tokens i ≡ true

  -- The words of an `alter table` whose tokens behind the table are all permitted.
  pub record IsAlter (tables : List Text) : Type 0 where
    pub table : Text
    pub next : ℕ
    pub on_table : keyword_at tokens 1 "table" ≡ true
    pub target :
        relation_at tokens (skip_keyword tokens "only" (skip_if_exists tokens 2)) ≡ ok (table, next)
    pub permitted :
        (k : ℕ) (t : Token) → get_elem? (drop next tokens) k ≡ some t → IsPermitted (next + k) t
    pub only : tables ≡ table ∷ []

  folded-is_empty :
      (a b : Text) → is_empty b ≡ false → equal_fold a b ≡ true → is_empty (to_lower a) ≡ false
  unfolding equal_fold to_lower text_eq
  folded-is_empty [] [] n h = n
  folded-is_empty [] (y ∷ b) n h = cc
  folded-is_empty (x ∷ a) b n h = refl

  -- A keyword is not the empty text.
  is_keyword-is_empty :
      (t : Token) (w : String)
      → is_empty (runes w) ≡ false
      → is_keyword t w ≡ true
      → is_empty (to_lower t.text) ≡ false
  unfolding is_keyword
  is_keyword-is_empty t w n h = folded-is_empty t.text (runes w) n (ground arith)

  forbidden_word-empty :
      (i : ℕ) (t : Token) → is_empty (forbidden_word tokens i t) ≡ true → IsPermitted i t
  unfolding forbidden_word runes
  forbidden_word-empty i t h =
      let r : is_keyword t "rename" ≡ false = ground (arith, is_keyword-is_empty t "rename" refl) in
      let o : is_keyword t "owner" ≡ false = ground (arith, is_keyword-is_empty t "owner" refl) in
      let a : is_keyword t "attach" ≡ false = ground (arith, is_keyword-is_empty t "attach" refl) in
      let d : is_keyword t "detach" ≡ false = ground (arith, is_keyword-is_empty t "detach" refl) in
      let n : is_keyword t "inherit" ≡ false =
        ground (arith, is_keyword-is_empty t "inherit" refl) in
      let p : is_keyword t "replica" ≡ false =
        ground (arith, is_keyword-is_empty t "replica" refl) in
      let full : is_empty (runes "set") ≡ false = refl in
      let full' : is_empty (runes "no") ≡ false = refl in
      record {
        word = (r, (o, (a, (d, (n, (p, tt))))));
        set = λ s. ground (arith, full, full');
        no = λ s. ground (arith, full, full');
      }

  IsPermitted-forbidden_word :
      (i : ℕ) (t : Token) → IsPermitted i t → is_empty (forbidden_word tokens i t) ≡ true
  unfolding forbidden_word
  IsPermitted-forbidden_word i t p = ground (arith, p.word, p.set, p.no)

  check_alter_from-IsPermitted :
      (i : ℕ) (rest : List Token)
      → check_alter_from tokens i rest ≡ ok tt
      → (k : ℕ) (t : Token) → get_elem? rest k ≡ some t
      → IsPermitted (i + k) t
  unfolding check_alter_from
  check_alter_from-IsPermitted i [] h k t e = absurd (ground arith)
  check_alter_from-IsPermitted i (tok ∷ rest) h zero t e =
      let same : tok ≡ t = ground arith in
      let start : i + 0 ≡ i = omega arith in
      rw (start, sym same) (forbidden_word-empty i tok (ground arith))
  check_alter_from-IsPermitted i (tok ∷ rest) h (suc k) t e =
      let position : i + suc k ≡ i + 1 + k = omega arith in
      rw position (check_alter_from-IsPermitted (i + 1) rest (ground arith) k t e)

  IsPermitted-check_alter_from :
      (i : ℕ) (rest : List Token)
      → ((k : ℕ) (t : Token) → get_elem? rest k ≡ some t → IsPermitted (i + k) t)
      → check_alter_from tokens i rest ≡ ok tt
  unfolding check_alter_from
  IsPermitted-check_alter_from i [] h = refl
  IsPermitted-check_alter_from i (tok ∷ rest) h =
      let start : i + 0 ≡ i = omega arith in
      let here : IsPermitted (i + 0) tok = h 0 tok refl in
      rw (IsPermitted-forbidden_word i tok (rw start at here), check_alter_from)
        (IsPermitted-check_alter_from (i + 1) rest λ k t e.
          let position : i + 1 + k ≡ i + suc k = omega arith in rw position (h (suc k) t e))

  -- `parseAlterTables` returns tables exactly if the statement is `alter table` on one table,
  -- behind which no token renames, moves, attaches or replicates it and `set` and `no` stand only
  -- in the action of a foreign key; the tables are that one.
  pub parse_alter_tables_iff :
      (tables : List Text) → (parse_alter_tables tokens ≡ ok tables) ↔ IsAlter tables
  unfolding parse_alter_tables
  parse_alter_tables_iff tables = (
    λ h. elim (Bool-cases (keyword_at tokens 1 "table")) [
      | inr e ↦ ground (arith, e)
      | inl e ↦
          let ((table, next), r, h') =
            bind-eq-ok
              (relation_at_with_options tokens
                (skip_keyword tokens "only" (skip_if_exists tokens 2)) false)
              _ (rw e at h) in
          let (_, c, h'') = bind-eq-ok (check_alter_from tokens next (drop next tokens)) _ h' in
          record {
            table = table;
            next = next;
            on_table = e;
            target = r;
            permitted = check_alter_from-IsPermitted next (drop next tokens) c;
            only = ground arith;
          }
    ],
    λ a.
        rw
          (
            a.on_table,
            a.target,
            IsPermitted-check_alter_from a.next (drop a.next tokens) a.permitted,
            a.only,
          )
          refl,
  )
