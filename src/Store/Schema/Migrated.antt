-- ===== src/Store/Schema/Migrated.antt =====
-- What `Migrate` of internal/store/sqlite.go and internal/store/postgres.go leaves behind.
use blockchain_data_feeds_po.Prelude.{
  ℕ, ◌+◌, ◌≡◌, ◌⊎◌, refl, ◌∙◌, subst, Bool, true, ◌&&◌, Text, text_eq, text_eq_iff, none, List, [],
  ◌∷◌, any, All, arith, Bool-cases, Option-cases, inl, inr,
}
use blockchain_data_feeds_po.Prelude.Exec.{Error, Result, ok, Result-cases}
use blockchain_data_feeds_po.Store.Db.{Database}
use blockchain_data_feeds_po.Store.Schema.{
  Statement, create_table, create_index, Catalog, has_table, send_query, migrate,
}
use blockchain_data_feeds_po.Store.Schema.Queries.{sqlite_queries, postgres_queries}
use blockchain_data_feeds_po.Store.Schema.Created.{
  All-IsThere, Grown, Grown-refl, Grown-trans, IsPossible, IsThere, IsThere-Grown, any-append,
  create-kept, create-ok, create_lem, same-Grown,
}

module _ (d : Database) where
  send_query_lem :
      (q : Statement) (c : Catalog)
      → Grown c (send_query d q c).1
        × ((send_query d q c).0 ≡ ok tt → IsThere (send_query d q c).1 q)
  unfolding send_query
  send_query_lem q c = elim (Option-cases (d.fails c.calls)) [
    | inl e ↦ rw (send_query, e) (create_lem q (record c { calls = c.calls + 1 }))
    | inr (x, e) ↦ rw (send_query, e) (Grown-refl c, λ h. cc)
  ]

  send_query-kept :
      (q : Statement) (c : Catalog)
      → IsThere c q
      → ((send_query d q c).1.tables ≡ c.tables) × ((send_query d q c).1.indexes ≡ c.indexes)
  unfolding send_query
  send_query-kept q c h = elim (Option-cases (d.fails c.calls)) [
    | inl e ↦
        rw (send_query, e)
          (create-kept q (record c { calls = c.calls + 1 })
            (IsThere-Grown c (record c { calls = c.calls + 1 }) q (Grown-refl c) h))
    | inr (x, e) ↦ rw (send_query, e) (refl, refl)
  ]

  -- What a migration does to a catalog, with an error or without.
  abbrev pub Migrated : List Statement → Catalog → Result Error (Unit {0}) × Catalog → Type 0
  Migrated qs c r = Grown c r.1 × (r.0 ≡ ok tt → All (IsThere r.1) qs)

  pub migrate-Migrated : (qs : List Statement) (c : Catalog) → Migrated qs c (migrate d qs c)
  unfolding migrate
  migrate-Migrated [] c = (Grown-refl c, λ h. tt)
  migrate-Migrated (q ∷ qs) c =
      let c' = (send_query d q c).1 in
      let (one, made) = send_query_lem q c in
      elim (Result-cases (send_query d q c).0) [
        | inr (x, e) ↦ rw (migrate, e) (one, λ h. cc)
        | inl (u, e) ↦
            let end = (migrate d qs c').1 in
            let (more, rest) = migrate-Migrated qs c' in
            let same : migrate d qs c' ≡ migrate d (q ∷ qs) c = rw (migrate, e) refl in
            subst (Migrated (q ∷ qs) c) same
              (Grown-trans c c' end one more, λ h. (IsThere-Grown c' end q more (made e), rest h))
      ]

  -- What is there already, a migration leaves as it is, whatever fails.
  migrate-kept :
      (qs : List Statement) (c : Catalog)
      → All (IsThere c) qs
      → ((migrate d qs c).1.tables ≡ c.tables) × ((migrate d qs c).1.indexes ≡ c.indexes)
  unfolding migrate
  migrate-kept [] c a = (refl, refl)
  migrate-kept (q ∷ qs) c (own, a) =
      let c' = (send_query d q c).1 in
      let (ts, js) = send_query-kept q c own in
      elim (Result-cases (send_query d q c).0) [
        | inr (x, e) ↦ rw (migrate, e) (ts, js)
        | inl (u, e) ↦
            let still = All-IsThere c c' qs (same-Grown c c' ts js) a in
            let (us, ks) = migrate-kept qs c' still in rw (migrate, e) (us ∙ ts, ks ∙ js)
      ]

-- The tables that the statements before have made are those that an index asks for.
unfoldable pub in_order : List Text → List Statement → Bool
in_order names [] = true
in_order names (create_table t ∷ qs) = in_order (t.name ∷ names) qs
in_order names (create_index name table columns ∷ qs) =
    any (λ n. text_eq n table) names && in_order names qs

abbrev HasAll : Catalog → List Text → Type 0
HasAll c names = All (λ n. has_table n c.tables ≡ true) names

HasAll-Grown : (c c' : Catalog) (names : List Text) → Grown c c' → HasAll c names → HasAll c' names
unfolding has_table
HasAll-Grown c c' [] g a = tt
HasAll-Grown c c' (n ∷ names) (ts, js, e, f) (own, a) =
    (rw e (any-append _ c.tables ts own), HasAll-Grown c c' names (ts, js, e, f) a)

HasAll-any :
    (c : Catalog) (names : List Text) (table : Text)
    → HasAll c names
    → any (λ n. text_eq n table) names ≡ true
    → has_table table c.tables ≡ true
HasAll-any c [] table a h = cc
HasAll-any c (n ∷ names) table (own, a) h = elim (Bool-cases (text_eq n table)) [
  | inl e ↦ subst (λ (k : Text). has_table k c.tables ≡ true) ((text_eq_iff n table).0 e) own
  | inr e ↦ HasAll-any c names table a (ground (arith, e, h))
]

module _ (d : Database) (fine : (n : ℕ) → d.fails n ≡ none) where
  send_query-ok :
      (q : Statement) (c : Catalog)
      → IsPossible q (record c { calls = c.calls + 1 })
      → (send_query d q c).0 ≡ ok tt
  unfolding send_query
  send_query-ok q c h =
      rw (send_query, fine c.calls) (create-ok q (record c { calls = c.calls + 1 }) h)

  migrate-ok :
      (names : List Text) (qs : List Statement) (c : Catalog)
      → in_order names qs ≡ true
      → HasAll c names
      → (migrate d qs c).0 ≡ ok tt
  unfolding migrate in_order
  migrate-ok names [] c order has = refl
  migrate-ok names (create_table t ∷ qs) c order has =
      let q = create_table t in
      let (g, made) = send_query_lem d q c in
      let e = send_query-ok q c tt in
      rw (migrate, e)
        (migrate-ok (t.name ∷ names) qs (send_query d q c).1 order
          (made e, HasAll-Grown c (send_query d q c).1 names g has))
  migrate-ok names (create_index name table columns ∷ qs) c order has =
      let q = create_index name table columns in
      let known : any (λ n. text_eq n table) names ≡ true = ground (arith, order) in
      let later : in_order names qs ≡ true = ground (arith, order) in
      let e = send_query-ok q c (HasAll-any c names table has known) in
      rw (migrate, e)
        (migrate-ok names qs (send_query d q c).1 later
          (HasAll-Grown c (send_query d q c).1 names (send_query_lem d q c).0 has))

-- The statements of one of the two drivers.
abbrev pub IsDriver : List Statement → Type 0
IsDriver qs = (qs ≡ sqlite_queries) ⊎ (qs ≡ postgres_queries)

driver-order : (qs : List Statement) → IsDriver qs → in_order [] qs ≡ true
unfolding in_order text_eq
driver-order qs (inl e) = rw e refl
driver-order qs (inr e) = rw e refl

-- The migration of either driver, from whatever catalog. With errors at whatever statements it only
-- adds tables and indexes, and without an error there is a table or an index of the name of each
-- statement. If one whose statements the driver all lets through comes next, it returns no error: no
-- index is made before its table. Any further one, whatever fails, changes nothing.
pub migrate_lem :
    (qs : List Statement) (first second third : Database) (c : Catalog)
    → IsDriver qs
    → ((n : ℕ) → second.fails n ≡ none)
    → (Grown c (migrate first qs c).1
        × ((migrate first qs c).0 ≡ ok tt → All (IsThere (migrate first qs c).1) qs))
      × ((migrate second qs (migrate first qs c).1).0 ≡ ok tt)
      × ((migrate third qs (migrate second qs (migrate first qs c).1).1).1.tables
          ≡ (migrate second qs (migrate first qs c).1).1.tables)
      × ((migrate third qs (migrate second qs (migrate first qs c).1).1).1.indexes
          ≡ (migrate second qs (migrate first qs c).1).1.indexes)
migrate_lem qs first second third c driver fine =
    let c1 = (migrate first qs c).1 in
    let c2 = (migrate second qs c1).1 in
    let done = migrate-ok second fine [] qs c1 (driver-order qs driver) tt in
    let kept = migrate-kept third qs c2 ((migrate-Migrated second qs c1).1 done) in
    (migrate-Migrated first qs c, done, kept.0, kept.1)
