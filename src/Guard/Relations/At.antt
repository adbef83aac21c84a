-- ===== src/Guard/Relations/At.antt =====
-- What `relationAtWithOptions` reads: one identifier, or two joined by one dot.
use felsen_mcp_server_postgr.Base.{
  ℕ, ◌+◌, Bool, true, false, List, ◌∷◌, ◌++◌, none, some, ◌≡◌, ◌≢◌, inl, inr, ◌∙◌, arith, Text,
  get_elem?, Option-cases, Bool-cases,
}
use felsen_mcp_server_postgr.Strings.{Unicode}
use felsen_mcp_server_postgr.Guard.Reason.{ok}
use felsen_mcp_server_postgr.Guard.Token.{Token, TokenKind, text_at, identifier_value}
use felsen_mcp_server_postgr.Guard.Tables.{normalize_table}
use felsen_mcp_server_postgr.Guard.Relations.{
  relation_end, relation_second, relation_first, relation_at_with_options,
}

module _ ⦃u : Unicode⦄ where
  -- The name ends before `next`: no wildcard stands there, and a parenthesis only where allowed.
  pub record EndsAt (tokens : List Token) (next : ℕ) (allow : Bool) : Type 0 where
    pub no_wildcard : text_at tokens next "*" ≡ false
    pub no_call : text_at tokens next "(" ≡ true → allow ≡ true

  -- The table `name` alone, or `schema . name`, stands at `start` and ends before `next`.
  pub data Names (tokens : List Token) (start : ℕ) (table : Text) (next : ℕ) : Type 0 where
    unqualified :
        (name : Token)
        → get_elem? tokens start ≡ some name
        → name.kind ≡ TokenKind.identifier
        → text_at tokens (start + 1) "." ≡ false
        → table ≡ normalize_table (identifier_value name)
        → next ≡ start + 1
        → Names tokens start table next
    qualified :
        (schema name : Token)
        → get_elem? tokens start ≡ some schema
        → schema.kind ≡ TokenKind.identifier
        → text_at tokens (start + 1) "." ≡ true
        → get_elem? tokens (start + 2) ≡ some name
        → name.kind ≡ TokenKind.identifier
        → text_at tokens (start + 3) "." ≡ false
        → table ≡ normalize_table (identifier_value schema ++ b'.' ∷ identifier_value name)
        → next ≡ start + 3
        → Names tokens start table next

  relation_end-ok :
      (tokens : List Token) (next : ℕ) (allow : Bool) (first table : Text) (n : ℕ)
      → relation_end tokens next allow first ≡ ok (table, n)
      → (table ≡ normalize_table first) × (n ≡ next) × EndsAt tokens next allow
  unfolding relation_end
  relation_end-ok tokens next allow first table n h =
      (ground arith, ground arith, record { no_wildcard = ground arith; no_call = ground arith })

  relation_second-ok :
      (tokens : List Token) (next : ℕ) (allow : Bool) (first table : Text) (second : Token) (n : ℕ)
      → relation_second tokens next allow first (some second) ≡ ok (table, n)
      → (second.kind ≡ TokenKind.identifier)
        × (text_at tokens (next + 2) "." ≡ false)
        × (relation_end tokens (next + 2) allow (first ++ b'.' ∷ identifier_value second)
            ≡ ok (table, n))
  unfolding relation_second
  relation_second-ok tokens next allow first table second n h =
      (ground arith, ground arith, ground arith)

  relation_second-none :
      (tokens : List Token) (next : ℕ) (allow : Bool) (first table : Text) {n : ℕ}
      → relation_second tokens next allow first none ≢ ok (table, n)
  unfolding relation_second
  relation_second-none tokens next allow first table = λ h. cc

  relation_first-Names :
      (tokens : List Token) (start : ℕ) (allow : Bool) (tok : Token) (table : Text) (next : ℕ)
      → get_elem? tokens start ≡ some tok
      → relation_first tokens start allow (some tok) ≡ ok (table, next)
      → Names tokens start table next × EndsAt tokens next allow
  unfolding relation_first
  relation_first-Names tokens start allow tok table next e h =
      elim (Bool-cases (text_at tokens (start + 1) ".")) [
        | inl dot ↦ elim (Option-cases (get_elem? tokens (start + 1 + 1))) [
          | inl f ↦ absurd (
              relation_second-none tokens (start + 1) allow (identifier_value tok) table {n = next}
                (ground arith))
          | inr (second, f) ↦
              let (k, d, r) =
                relation_second-ok tokens (start + 1) allow (identifier_value tok) table second next
                  (ground arith) in
              let (t, n, ends) =
                relation_end-ok tokens (start + 1 + 2) allow
                  (identifier_value tok ++ b'.' ∷ identifier_value second) table next r in
              let two : start + 1 + 1 ≡ start + 2 = omega arith in
              let three : start + 1 + 2 ≡ start + 3 = omega arith in
              (
                qualified tok second e (ground arith) dot (rw two at f) k (rw three at d) t
                    (n ∙ three),
                rw n ends,
              )
        ]
        | inr no_dot ↦
            let (t, n, ends) =
              relation_end-ok tokens (start + 1) allow (identifier_value tok) table next
                (ground arith) in
            (unqualified tok e (ground arith) no_dot t n, rw n ends)
      ]

  -- A reference that `relationAtWithOptions` accepts is one table name, plain or with a schema,
  -- with the position behind it, where no wildcard stands and a parenthesis only if it is allowed.
  pub relation_at-Names :
      (tokens : List Token) (start : ℕ) (allow : Bool) (table : Text) (next : ℕ)
      → relation_at_with_options tokens start allow ≡ ok (table, next)
      → Names tokens start table next × EndsAt tokens next allow
  unfolding relation_at_with_options relation_first
  relation_at-Names tokens start allow table next h = elim (Option-cases (get_elem? tokens start)) [
    | inl e ↦ ground (arith, e)
    | inr (tok, e) ↦ relation_first-Names tokens start allow tok table next e (rw e at h)
  ]
