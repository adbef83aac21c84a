-- ===== src/Store/Describe/Cache.antt =====
-- The cache of table descriptions.
use felsen_mcp_server_postgr.Base.{
  true, some, ◌≡◌, refl, ◌⊎◌, inl, inr, arith, Text, text_eq_refl, Bool-cases, Option-cases,
}
use felsen_mcp_server_postgr.Strings.{Unicode}
use felsen_mcp_server_postgr.Config.Policy.{schema_allowed}
use felsen_mcp_server_postgr.Store.{Answer, value, failure, done, Database, TableDescription}
use felsen_mcp_server_postgr.Store.Describe.{
  Catalog, cache_key, find_description, store_description, introspect, introspected, describe_table,
}

module _ ⦃u : Unicode⦄ (c c' : Catalog) where
  introspected-again :
      (db : Database) (schema table : Text) (answer : Answer TableDescription)
      (desc : TableDescription)
      → (schema_allowed db.cfg schema ≡ true)
      → (introspected c db (cache_key schema table) answer).0 ≡ done desc
      → describe_table c' (introspected c db (cache_key schema table) answer).1 schema table
        ≡ (done desc, (introspected c db (cache_key schema table) answer).1)
  unfolding describe_table store_description find_description
  introspected-again db schema table (failure e) desc allowed h = cc
  introspected-again db schema table (value d) desc allowed h =
      let same : d ≡ desc = ground arith in
      rw (allowed, text_eq_refl (cache_key schema table), same) refl

  -- The three outcomes of a call.
  describe_table-cases :
      (db : Database) (schema table : Text) (desc : TableDescription)
      → (describe_table c db schema table).0 ≡ done desc
      → (schema_allowed db.cfg schema ≡ true)
        × (((find_description db.cache (cache_key schema table) ≡ some desc)
              × (describe_table c db schema table ≡ (done desc, db)))
            ⊎ (describe_table c db schema table
                ≡ introspected c db (cache_key schema table) (introspect c schema table)))
  unfolding describe_table
  describe_table-cases db schema table desc h = elim (Bool-cases (schema_allowed db.cfg schema)) [
    | inr e ↦ ground (arith, e)
    | inl e ↦ elim (Option-cases (find_description db.cache (cache_key schema table))) [
      | inr (d, f) ↦
          let same : d ≡ desc = ground (arith, e, f) in
          (e, inl (rw same at f, rw (e, f, describe_table, same) refl))
      | inl f ↦ (e, inr (rw (e, f, describe_table) refl))
    ]
  ]

  describe_table-found :
      (db : Database) (schema table : Text) (desc : TableDescription)
      → schema_allowed db.cfg schema ≡ true
      → find_description db.cache (cache_key schema table) ≡ some desc
      → describe_table c' db schema table ≡ (done desc, db)
  unfolding describe_table
  describe_table-found db schema table desc e f = rw (e, f) refl

  -- A description that `DescribeTable` has returned is returned again by a second call for the
  -- same table, which changes nothing, whatever the catalog holds by then.
  pub describe_table-cached :
      (db : Database) (schema table : Text) (desc : TableDescription)
      → (describe_table c db schema table).0 ≡ done desc
      → describe_table c' (describe_table c db schema table).1 schema table
        ≡ (done desc, (describe_table c db schema table).1)
  describe_table-cached db schema table desc h =
      let (e, cases) = describe_table-cases db schema table desc h in
      elim cases [
        | inl (f, first) ↦ rw first (describe_table-found db schema table desc e f)
        | inr first ↦
            rw first (
              introspected-again db schema table (introspect c schema table) desc e (rw first at h))
      ]
