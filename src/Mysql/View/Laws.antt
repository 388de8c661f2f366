-- ===== src/Mysql/View/Laws.antt =====
-- Statements, seen through the view.
use kubevoltracker.Base.{
  ℕ, String, ◌≡◌, refl, Bool, ◌&&◌, List, [], ◌∷◌, ◌++◌, Option, none, some, not, any, arith, ◌==◌,
  eq_iff, if◌then◌else◌,
}
use kubevoltracker.Mysql.Schema.{ResourceVersion, Tables}
use kubevoltracker.Mysql.Sql.{is_null, update_where, upsert}
use kubevoltracker.Mysql.Rv.{set_rv, is_rv_of}
use kubevoltracker.Mysql.View.{row_at, version_in, Changed, Put, Recorded}

-- what an upsert leaves under its key
abbrev pub upserted {ℓ} : {A : Type ℓ} → A → (A → A) → Option A → A
upserted row f none = row
upserted row f (some x) = f x

module _ {ℓ} {A : Type ℓ} (key : A → String) where
  pub update_where-Changed :
      (uid : String) (f : A → A) (xs : List A)
      → ((x : A) → key (f x) ≡ key x)
      → Changed
          (λ u. row_at key u xs)
          (λ u. row_at key u (update_where (λ x. key x == uid) f xs))
          uid
          f
  update_where-Changed uid f [] keep u = ground arith
  update_where-Changed uid f (x ∷ xs) keep u = ground (
    arith,
    update_where-Changed uid f xs keep u,
    keep x,
    eq_iff (key x) uid,
    eq_iff (key x) u,
    eq_iff uid u,
  )

  pub upsert-Put :
      (uid : String) (row : A) (f : A → A) (same : A → Bool) (xs : List A)
      → key row ≡ uid
      → ((x : A) → key (f x) ≡ key x)
      → Put
          (λ u. row_at key u xs)
          (λ u. row_at key u (upsert (λ x. key x == uid) row f same xs).1)
          uid
          (upserted row f)
  upsert-Put uid row f same [] k keep u = ground (arith, eq_iff (key row) u, eq_iff uid u)
  upsert-Put uid row f same (x ∷ xs) k keep u = ground (
    arith,
    upsert-Put uid row f same xs k keep u,
    keep x,
    eq_iff (key x) uid,
    eq_iff (key x) u,
    eq_iff uid u,
  )

module _ (resource namespace rv : String) where
  abbrev new_row : ResourceVersion
  new_row = record { resource = resource; namespace = namespace; resource_version = rv }

  version_in-upsert :
      (rows : List ResourceVersion) (r n : String)
      → version_in r n
          (upsert
            (is_rv_of resource namespace)
            new_row
            (λ x. record x { resource_version = rv })
            (λ x. x.resource_version == rv)
            rows).1
        ≡ (if resource == r && namespace == n then some rv else version_in r n rows)
  version_in-upsert [] r n = refl
  version_in-upsert (x ∷ xs) r n = ground (
    arith,
    version_in-upsert xs r n,
    eq_iff x.resource resource,
    eq_iff x.namespace namespace,
    eq_iff x.resource r,
    eq_iff x.namespace n,
    eq_iff resource r,
    eq_iff namespace n,
  )

  pub set_rv-Recorded :
      (t : Tables) → Recorded t (set_rv resource namespace rv t).1 resource namespace rv
  set_rv-Recorded t r n = version_in-upsert t.resource_version r n

-- the number of rows that an upsert reports
abbrev pub rows_of {ℓ} : {A : Type ℓ} → (A → Bool) → Option A → ℕ
rows_of same none = 1
rows_of same (some x) = if same x then 0 else 2

module _ {ℓ} {A : Type ℓ} (key : A → String) where
  pub upsert-rows :
      (uid : String) (row : A) (f : A → A) (same : A → Bool) (xs : List A)
      → (upsert (λ x. key x == uid) row f same xs).0 ≡ rows_of same (row_at key uid xs)
  upsert-rows uid row f same [] = refl
  upsert-rows uid row f same (x ∷ xs) = ground (arith, upsert-rows uid row f same xs)

module _ {A : Type 0} (key : A → String) where
  pub any-row_at :
      (uid : String) (xs : List A) → any (λ x. key x == uid) xs ≡ not (is_null (row_at key uid xs))
  any-row_at uid [] = refl
  any-row_at uid (x ∷ xs) = ground (arith, any-row_at uid xs)

  row_at-append :
      (uid u : String) (row : A) (xs : List A)
      → key row ≡ uid
      → row_at key uid xs ≡ none
      → row_at key u (xs ++ row ∷ []) ≡ (if uid == u then some row else row_at key u xs)
  row_at-append uid u row [] k h = ground (arith, eq_iff (key row) u, eq_iff uid u)
  row_at-append uid u row (x ∷ xs) k h =
      ground
        (arith, row_at-append uid u row xs k, eq_iff (key x) uid, eq_iff (key x) u, eq_iff uid u)

  -- a row that is added under a new key
  pub append-Put :
      (uid : String) (row : A) (xs : List A)
      → key row ≡ uid
      → row_at key uid xs ≡ none
      → Put (λ u. row_at key u xs) (λ u. row_at key u (xs ++ row ∷ [])) uid (λ _. row)
  append-Put uid row xs k h u = row_at-append uid u row xs k h

  -- an upsert under a new key adds the row
  pub upsert_new :
      (uid : String) (row : A) (f : A → A) (same : A → Bool) (xs : List A)
      → row_at key uid xs ≡ none
      → (upsert (λ x. key x == uid) row f same xs).1 ≡ xs ++ row ∷ []
  upsert_new uid row f same [] h = refl
  upsert_new uid row f same (x ∷ xs) h = ground (arith, upsert_new uid row f same xs)
