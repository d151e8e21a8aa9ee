-- ===== src/Store/Schema/Created.antt =====
-- One statement of `Migrate`, internal/store/sqlite.go and internal/store/postgres.go.
use blockchain_data_feeds_po.Prelude.{
  ◌≡◌, refl, sym, ◌∙◌, ap, Bool, true, text_eq, List, [], ◌∷◌, ◌++◌, append-nil, append_assoc, any,
  All, arith, Bool-cases, inl, inr, text_eq_refl,
}
use blockchain_data_feeds_po.Prelude.Exec.{ok}
use blockchain_data_feeds_po.Store.Schema.{
  Table, Index, Statement, create_table, create_index, Catalog, has_table, has_index, create,
}

-- What the statement is to create is there.
abbrev pub IsThere : Catalog → Statement → Type 0
IsThere c (create_table t) = has_table t.name c.tables ≡ true
IsThere c (create_index name table columns) = has_index name c.indexes ≡ true

-- Tables and indexes were added, and none went or changed.
abbrev pub Grown : Catalog → Catalog → Type 0
Grown c c' =
    (ts : List Table) × (js : List Index) × (c'.tables ≡ c.tables ++ ts)
    × (c'.indexes ≡ c.indexes ++ js)

pub any-append {ℓ} :
    {A : Type ℓ} (p : A → Bool) (xs ys : List A) → any p xs ≡ true → any p (xs ++ ys) ≡ true
any-append p [] ys h = cc
any-append p (x ∷ xs) ys h = ground (arith, any-append p xs ys)

pub any-last {ℓ} :
    {A : Type ℓ} (p : A → Bool) (xs : List A) (y : A) → p y ≡ true → any p (xs ++ y ∷ []) ≡ true
any-last p [] y h = ground arith
any-last p (x ∷ xs) y h = ground (arith, any-last p xs y h)

pub Grown-refl : (c : Catalog) → Grown c c
Grown-refl c = ([], [], sym (append-nil c.tables), sym (append-nil c.indexes))

pub Grown-trans : (a b c : Catalog) → Grown a b → Grown b c → Grown a c
Grown-trans a b c (ts, js, e, f) (us, ks, g, h) = (
  ts ++ us,
  js ++ ks,
  g ∙ ap (λ (k : List Table). k ++ us) e ∙ append_assoc a.tables ts us,
  h ∙ ap (λ (k : List Index). k ++ ks) f ∙ append_assoc a.indexes js ks,
)

pub IsThere-Grown : (c c' : Catalog) (q : Statement) → Grown c c' → IsThere c q → IsThere c' q
unfolding has_table has_index
IsThere-Grown c c' (create_table t) (ts, js, e, f) h = rw e (any-append _ c.tables ts h)
IsThere-Grown c c' (create_index name table columns) (ts, js, e, f) h =
    rw f (any-append _ c.indexes js h)

-- A statement without an error has done its work, and one with an error nothing.
pub create_lem :
    (q : Statement) (c : Catalog)
    → Grown c (create q c).1 × ((create q c).0 ≡ ok tt → IsThere (create q c).1 q)
unfolding create has_table has_index
create_lem (create_table t) c = elim (Bool-cases (has_table t.name c.tables)) [
  | inl old ↦ rw (has_table, old) (Grown-refl c, λ h. old)
  | inr new ↦
      rw (has_table, new)
        (
          (t ∷ [], [], refl, sym (append-nil c.indexes)),
          λ h. any-last (λ (k : Table). text_eq k.name t.name) c.tables t (text_eq_refl t.name),
        )
]
create_lem (create_index name table columns) c =
    let made : Index = record { name = name; table = table; columns = columns } in
    elim (Bool-cases (has_index name c.indexes)) [
      | inl old ↦ rw (has_index, old) (Grown-refl c, λ h. old)
      | inr new ↦ elim (Bool-cases (has_table table c.tables)) [
        | inl there ↦
            rw (has_index, new, has_table, there)
              (
                ([], made ∷ [], sym (append-nil c.tables), refl),
                λ h.
                    any-last (λ (k : Index). text_eq k.name name) c.indexes made
                      (text_eq_refl name),
              )
        | inr missing ↦ rw (has_index, new, has_table, missing) (Grown-refl c, λ h. cc)
      ]
    ]

-- A statement on a table that is there, or that makes one, is not refused.
abbrev pub IsPossible : Statement → Catalog → Type 0
IsPossible (create_table t) c = Unit
IsPossible (create_index name table columns) c = has_table table c.tables ≡ true

pub create-ok : (q : Statement) (c : Catalog) → IsPossible q c → (create q c).0 ≡ ok tt
unfolding create
create-ok (create_table t) c h = ground arith
create-ok (create_index name table columns) c h = ground (arith, h)

pub create-kept :
    (q : Statement) (c : Catalog)
    → IsThere c q
    → ((create q c).1.tables ≡ c.tables) × ((create q c).1.indexes ≡ c.indexes)
unfolding create
create-kept (create_table t) c h = rw h (refl, refl)
create-kept (create_index name table columns) c h = rw h (refl, refl)

pub All-IsThere :
    (c c' : Catalog) (qs : List Statement) → Grown c c' → All (IsThere c) qs → All (IsThere c') qs
All-IsThere c c' [] g a = tt
All-IsThere c c' (q ∷ qs) g (own, a) = (IsThere-Grown c c' q g own, All-IsThere c c' qs g a)

pub same-Grown : (c c' : Catalog) → c'.tables ≡ c.tables → c'.indexes ≡ c.indexes → Grown c c'
same-Grown c c' e f = ([], [], e ∙ sym (append-nil c.tables), f ∙ sym (append-nil c.indexes))
