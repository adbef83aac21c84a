-- ===== src/App/Found.antt =====
-- The results of `search`: a property of the results that each new one keeps holds at the end.
use felsen_mcp_server_postgr.Base.{
  ◌≤◌, leb, Bool, true, false, not, ◌||◌, List, [], ◌∷◌, ◌++◌, map, Option, none, some, ◌≡◌, refl,
  sym, ap, ◌∙◌, subst, ◌⊎◌, inl, inr, arith, Text, mem_text, runes, length, length-append, All,
  All-append, Bool-cases, if◌then◌else◌,
}
use felsen_mcp_server_postgr.Strings.{Unicode, trim_space, to_lower}
use felsen_mcp_server_postgr.Guard.Tables.{is_empty}
use felsen_mcp_server_postgr.Guard.Tables.Unique.{In, IsDistinct, IsDistinct-append, mem_text_iff}
use felsen_mcp_server_postgr.Authn.{Principal, has_scope, can_use_connection}
use felsen_mcp_server_postgr.Config.Policy.{ConnectionConfig}
use felsen_mcp_server_postgr.Store.{Answer, value, failure, ColumnInfo}
use felsen_mcp_server_postgr.App.{App, principal}
use felsen_mcp_server_postgr.App.Objects.{ObjectReference, Codec, encode_object_id, object_title}
use felsen_mcp_server_postgr.App.Search.{
  SearchResultItem, Found, contains_text, add_result, is_full, search_columns, search_tables,
  table_reference, add_table, search_in_schema, schemas_of, results_of, search_schemas,
  search_connection, search_connections, search,
}

-- The answer, where it is a value.
abbrev Holds {ℓ κ} : {A : Type ℓ} → (A → Type κ) → Answer A → Type κ
Holds P (failure e) = Unit
Holds P (value a) = P a

module _ {ℓ κ} {A : Type ℓ} (P : A → Type κ) where
  Holds-if :
      (b : Bool) (x y : Answer A)
      → (b ≡ true → Holds P x)
      → (b ≡ false → Holds P y)
      → Holds P (if b then x else y)
  Holds-if true x y h k = h refl
  Holds-if false x y h k = k refl

  Holds-elim {μ} :
      {B : Type μ} (a : Answer B) (next : B → Answer A)
      → ((b : B) → a ≡ value b → Holds P (next b))
      → Holds P (elim a [ failure e ↦ failure e | value b ↦ next b ])
  Holds-elim (failure e) next h = tt
  Holds-elim (value b) next h = h b refl

Holds-map {ℓ κ μ} :
    {A : Type ℓ} (P : A → Type κ) (Q : A → Type μ) (a : Answer A)
    → ((x : A) → P x → Q x)
    → Holds P a
    → Holds Q a
Holds-map P Q (failure e) f h = tt
Holds-map P Q (value x) f h = f x h

-- The query is in the name of the column, or, for a table, in its name or its schema's.
abbrev Matches : ⦃u : Unicode⦄ → Text → ObjectReference → Type 0
Matches query ref =
    (contains_text query (to_lower ref.column) ≡ true)
    ⊎ ((ref.column ≡ [])
        × ((contains_text query (to_lower ref.table) || contains_text query (to_lower ref.schema))
            ≡ true))

abbrev ids : List SearchResultItem → List Text
ids results = map (λ r. r.id) results

map-append :
    (xs : List SearchResultItem) (x : SearchResultItem) → ids (xs ++ x ∷ []) ≡ ids xs ++ x.id ∷ []
map-append [] x = refl
map-append (y ∷ xs) x = ap (λ rest. y.id ∷ rest) (map-append xs x)

unseen : (seen : List Text) (id : Text) → mem_text id seen ≡ false → ¬ In id seen
unseen seen id e h = ground (arith, (mem_text_iff id seen).1 h)

module _ ⦃u : Unicode⦄ (codec : Codec) (source_url : ObjectReference → Text) (app : App)
    (query : Text) (p : Principal) where
  -- A table or a column of a connection that the principal can use, with the query in its name.
  abbrev IsWanted : ObjectReference → Type 0
  IsWanted ref = (can_use_connection p ref.connection ≡ true) × Matches query ref

  -- The result is a reference that is wanted.
  abbrev pub IsHit : SearchResultItem → Type 0
  IsHit r =
      (ref : ObjectReference) × ((r ≡ record {
        id = encode_object_id codec ref;
        title = object_title ref;
        url = source_url ref;
      })
        × IsWanted ref)

  abbrev pub AreHits : List SearchResultItem → Type 0
  AreHits results =
      (length results ≤ app.max_search_results) × (IsDistinct (ids results) × All IsHit results)

  abbrev IsGood : Found → Type 0
  IsGood f = (f.seen ≡ ids f.results) × AreHits f.results

  has_room :
      (results : List SearchResultItem) (r : SearchResultItem)
      → leb app.max_search_results (length results) ≡ false
      → length (results ++ r ∷ []) ≤ app.max_search_results
  has_room results r e = ground (arith, length-append results (r ∷ []))

  add_result-IsGood :
      (ref : ObjectReference) (f : Found)
      → IsWanted ref
      → is_full codec source_url app query f ≡ false
      → IsGood f
      → IsGood (add_result codec source_url ref f)
  unfolding add_result
  add_result-IsGood ref f w room good =
      elim (Bool-cases (mem_text (encode_object_id codec ref) f.seen)) [
        | inl e ↦ rw e good
        | inr e ↦ rw e (
          ap (λ seen. seen ++ encode_object_id codec ref ∷ []) good.0
              ∙ sym (map-append f.results _),
          (
            has_room f.results _ room,
            (
              subst IsDistinct (sym (map-append f.results _)) (
                  IsDistinct-append (ids f.results) (encode_object_id codec ref) good.1.1.0 (λ old.
                    unseen f.seen _ e (subst (In (encode_object_id codec ref)) (sym good.0) old))),
              All-append IsHit f.results (_ ∷ []) good.1.1.1 ((ref, (refl, w)), tt),
            ),
          ),
        )
      ]

  add_if-IsGood :
      (test : Bool) (ref : ObjectReference) (f : Found)
      → (test ≡ true → IsWanted ref)
      → is_full codec source_url app query f ≡ false
      → IsGood f
      → IsGood (if test then add_result codec source_url ref f else f)
  add_if-IsGood true ref f w room good = add_result-IsGood ref f (w refl) room good
  add_if-IsGood false ref f w room good = good

  search_columns-IsGood :
      (table : ObjectReference) (columns : List ColumnInfo) (f : Found)
      → can_use_connection p table.connection ≡ true
      → IsGood f
      → IsGood (search_columns codec source_url app query table columns f)
  unfolding search_columns
  search_columns-IsGood table [] f can good = good
  search_columns-IsGood table (column ∷ columns) f can good =
      elim (Bool-cases (is_full codec source_url app query f)) [
        | inl e ↦ rw e good
        | inr e ↦ rw e (
            search_columns-IsGood table columns _ can
              (add_if-IsGood _ _ f (λ matched. (can, inl matched)) e good))
      ]

  search_tables-IsGood :
      (connection schema : Text) (names : List Text) (f : Found)
      → can_use_connection p connection ≡ true
      → IsGood f
      → Holds IsGood (search_tables codec source_url app query connection schema names f)
  unfolding search_tables
  search_tables-IsGood connection schema [] f can good = good
  search_tables-IsGood connection schema (name ∷ names) f can good =
      let table = table_reference codec source_url app query connection schema name in
      let added = add_table codec source_url app query connection schema name f in
      let full = is_full codec source_url app query in
      Holds-if IsGood (full f) _ _ (λ e. good)
        (λ room.
          let now = add_if-IsGood _ table f (λ matched. (can, inr (refl, matched))) room good in
          Holds-if IsGood (full added) _ _ (λ e. now)
            (λ room'.
              Holds-elim IsGood (app.store.describe_table connection schema name)
                (λ description.
                  search_tables codec source_url app query connection schema names
                    (search_columns codec source_url app query table description.columns added))
                (λ description h.
                  search_tables-IsGood connection schema names _ can
                    (search_columns-IsGood table description.columns added can now))))

  search_in_schema-IsGood :
      (connection schema : Text) (f : Found)
      → can_use_connection p connection ≡ true
      → IsGood f
      → Holds IsGood (search_in_schema codec source_url app query connection schema f)
  unfolding search_in_schema
  search_in_schema-IsGood connection schema f can good =
      Holds-elim IsGood (app.store.list_tables connection schema)
        (λ names. search_tables codec source_url app query connection schema names f)
        (λ names e. search_tables-IsGood connection schema names f can good)

  search_schemas-IsGood :
      (connection : Text) (schemas : List Text) (f : Found)
      → can_use_connection p connection ≡ true
      → IsGood f
      → Holds IsGood (search_schemas codec source_url app query connection schemas f)
  unfolding search_schemas
  search_schemas-IsGood connection [] f can good = good
  search_schemas-IsGood connection (schema ∷ schemas) f can good =
      Holds-if IsGood (is_full codec source_url app query f) _ _ (λ e. good)
        (λ room.
          Holds-elim IsGood (search_in_schema codec source_url app query connection schema f)
            (search_schemas codec source_url app query connection schemas)
            (λ f' e.
              search_schemas-IsGood connection schemas f' can
                (subst (Holds IsGood) e (search_in_schema-IsGood connection schema f can good))))

  search_connection-IsGood :
      (connection : Text) (f : Found)
      → can_use_connection p connection ≡ true
      → IsGood f
      → Holds IsGood (search_connection codec source_url app query connection f)
  unfolding search_connection
  search_connection-IsGood connection f can good = found_in (app.store.connection_config connection)
    where
      found_in :
          (o : Option ConnectionConfig)
          → Holds IsGood (elim o [
            | none ↦ failure (runes "unknown connection: " ++ connection)
            | some cfg ↦ elim (schemas_of codec source_url app query connection cfg) [
              | failure e ↦ failure e
              | value schemas ↦ search_schemas codec source_url app query connection schemas f
            ]
          ])
      found_in none = tt
      found_in (some cfg) =
          Holds-elim IsGood (schemas_of codec source_url app query connection cfg)
            (λ schemas. search_schemas codec source_url app query connection schemas f)
            (λ schemas e'. search_schemas-IsGood connection schemas f can good)

  search_connections-IsGood :
      (connections : List Text) (f : Found)
      → IsGood f
      → Holds IsGood (search_connections codec source_url app query p connections f)
  unfolding search_connections
  search_connections-IsGood [] f good = good
  search_connections-IsGood (connection ∷ connections) f good =
      Holds-if IsGood (not (can_use_connection p connection)) _ _
        (λ e. search_connections-IsGood connections f good)
        (λ e.
          Holds-elim IsGood (search_connection codec source_url app query connection f)
            (search_connections codec source_url app query p connections)
            (λ f' e'. search_connections-IsGood connections f' (
              subst (Holds IsGood) e' (search_connection-IsGood connection f (ground arith) good))))

  results_of-AreHits : (a : Answer Found) → Holds IsGood a → Holds AreHits (results_of a)
  results_of-AreHits (failure e) good = tt
  results_of-AreHits (value f) good = good.1

module _ ⦃u : Unicode⦄ (codec : Codec) (source_url : ObjectReference → Text) (app : App)
    (header : Option Text) (asked : Text) where
  -- The results are those that a principal with the scope read may see.
  abbrev pub AreAllowed : List SearchResultItem → Type 0
  AreAllowed results =
      (p : Principal) × ((principal app header ≡ value p)
        × ((has_scope p (runes "read") ≡ true)
            × AreHits codec source_url app (to_lower (trim_space asked)) p results))

  -- Where `search` answers, the caller is a principal with the scope read. The results are at most
  -- as many as the configuration allows, no two have the same identifier, and each is a table or a
  -- column, of a connection that the principal can use, in whose name the query is found, its case
  -- and the spaces around it aside; or for a table in the name of its schema.
  pub search-AreAllowed :
      {results : List SearchResultItem}
      → search codec source_url app header asked ≡ value results
      → AreAllowed results
  unfolding search
  search-AreAllowed h =
      let query = to_lower (trim_space asked) in
      let searched : Principal → Answer Found = λ p.
        search_connections codec source_url app query p app.store.connection_names
          (record { seen = []; results = [] }) in
      subst (Holds AreAllowed) h (
        Holds-elim AreAllowed (principal app header) _ (λ p e.
          Holds-if AreAllowed (not (has_scope p (runes "read"))) _ _ (λ refuses. tt)
            (λ allows.
              Holds-if AreAllowed (is_empty (to_lower (trim_space asked))) _ _
                (λ empty. (p, (e, (ground arith, (ground arith, (tt, tt))))))
                (λ full.
                  Holds-map (AreHits codec source_url app query p) AreAllowed
                    (results_of (searched p)) (λ results hits. (p, (e, (ground arith, hits))))
                    (results_of-AreHits codec source_url app query p (searched p) (
                      search_connections-IsGood codec source_url app query p _ _
                        (refl, (ground arith, (tt, tt)))))))))
