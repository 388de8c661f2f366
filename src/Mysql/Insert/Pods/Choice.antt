-- ===== src/Mysql/Insert/Pods/Choice.antt =====
-- Which claims the statements of dbmanager/mysql/insert.go that add mounts choose.
use kubevoltracker.Base.{
  ℕ, String, ◌≡◌, refl, ap, ◌∙◌, Bool, Bool-cases, List, [], ◌∷◌, map, Option, select, inl, inr,
}
use kubevoltracker.Mysql.Schema.{Pvc}
use kubevoltracker.Mysql.Sql.{Server}
use kubevoltracker.Mysql.Insert.{
  is_early, is_late, created_at, max_create_time, min_create_time, early_claims, late_claims,
}
use kubevoltracker.Mysql.Insert.Pods.{claims_for, or_else}

-- the claims as if they stood in other namespaces
abbrev pub moved : (Pvc → Option String) → List Pvc → List Pvc
moved f = map (λ (r : Pvc). record r { namespace = f r })

module _ (f : Pvc → Option String) where
  abbrev put : Pvc → Pvc
  put r = record r { namespace = f r }

  select-moved :
      (p : Pvc → Bool) (rows : List Pvc)
      → ((r : Pvc) → p (put r) ≡ p r)
      → select p (moved f rows) ≡ moved f (select p rows)
  select-moved p [] h = refl
  select-moved p (r ∷ rows) h = elim (Bool-cases (p r)) [
    | inl e ↦ rw (h r, e, select-moved p rows h) refl
    | inr e ↦ rw (h r, e, select-moved p rows h) refl
  ]

  max-moved : (rows : List Pvc) → max_create_time (moved f rows) ≡ max_create_time rows
  max-moved [] = refl
  max-moved (r ∷ rows) = rw (max-moved rows) refl

  min-moved : (rows : List Pvc) → min_create_time (moved f rows) ≡ min_create_time rows
  min-moved [] = refl
  min-moved (r ∷ rows) = rw (min-moved rows) refl

  early-moved :
      (server : Server) (name : String) (time : ℕ) (rows : List Pvc)
      → early_claims server name time (moved f rows) ≡ moved f (early_claims server name time rows)
  early-moved server name time rows =
      ap (λ m. select (created_at server m name) (moved f rows))
        (ap max_create_time (select-moved (is_early server time name) rows (λ r. refl))
          ∙ max-moved (select (is_early server time name) rows))
      ∙ select-moved
          (created_at server (max_create_time (select (is_early server time name) rows)) name) rows
          (λ r. refl)

  late-moved :
      (server : Server) (name : String) (time : ℕ) (rows : List Pvc)
      → late_claims server name time (moved f rows) ≡ moved f (late_claims server name time rows)
  late-moved server name time rows =
      ap (λ m. select (created_at server m name) (moved f rows))
        (ap min_create_time (select-moved (is_late server time name) rows (λ r. refl))
          ∙ min-moved (select (is_late server time name) rows))
      ∙ select-moved
          (created_at server (min_create_time (select (is_late server time name) rows)) name) rows
          (λ r. refl)

  or_else-moved : (xs ys : List Pvc) → or_else (moved f xs) (moved f ys) ≡ moved f (or_else xs ys)
  or_else-moved [] ys = refl
  or_else-moved (x ∷ xs) ys = refl

  -- The claims that a mount of a name belongs to do not depend on namespaces: if each claim stood in
  -- any other namespace, the same claims were chosen.
  pub claims_for-moved :
      (server : Server) (name : String) (time : ℕ) (rows : List Pvc)
      → claims_for server name time (moved f rows) ≡ moved f (claims_for server name time rows)
  claims_for-moved server name time rows =
      rw (early-moved server name time rows, late-moved server name time rows)
        (or_else-moved (early_claims server name time rows) (late_claims server name time rows))
