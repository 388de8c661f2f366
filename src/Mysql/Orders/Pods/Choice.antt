-- ===== src/Mysql/Orders/Pods/Choice.antt =====
-- The claims that a mount belongs to, before and after the row of a new claim is added.
use kubevoltracker.Base.{
  ℕ, String, ◌≡◌, refl, ap, ◌∙◌, Bool, true, false, ◌&&◌, List, [], ◌∷◌, ◌++◌, Option, none, some,
  any, select, arith, leb, if◌then◌else◌,
}
use kubevoltracker.Mysql.Schema.{Pvc}
use kubevoltracker.Mysql.Sql.{Server}
use kubevoltracker.Mysql.Insert.{
  is_named, is_early, is_late, created_at, max_create_time, min_create_time, early_claims,
  late_claims,
}
use kubevoltracker.Mysql.Insert.Pods.{claims_for}

and_false : (b c : Bool) → c ≡ false → (b && c) ≡ false
and_false b c e = ground arith

module _ (server : Server) (name : String) where
  -- The condition asks for a claim of that name.
  abbrev Asks : (Pvc → Bool) → Type 0
  Asks p = (r : Pvc) → is_named server name r ≡ false → p r ≡ false

  early-Asks : (time : ℕ) → Asks (is_early server time name)
  early-Asks time r e = and_false _ (is_named server name r) e

  late-Asks : (time : ℕ) → Asks (is_late server time name)
  late-Asks time r e = and_false _ (is_named server name r) e

  created-Asks : (m : Option ℕ) → Asks (created_at server m name)
  created-Asks m r e = and_false _ (is_named server name r) e

  -- no claim of that name
  select_unnamed :
      (p : Pvc → Bool) (rows : List Pvc)
      → Asks p
      → any (is_named server name) rows ≡ false
      → select p rows ≡ []
  select_unnamed p [] h e = refl
  select_unnamed p (r ∷ rows) h e = ground (arith, h r, select_unnamed p rows h)

  pub claims_for_unnamed :
      (time : ℕ) (rows : List Pvc)
      → any (is_named server name) rows ≡ false
      → claims_for server name time rows ≡ []
  claims_for_unnamed time rows e =
      rw
        (select_unnamed
          (created_at server (max_create_time (select (is_early server time name) rows)) name) rows
          (created-Asks _) e)
        (select_unnamed
          (created_at server (min_create_time (select (is_late server time name) rows)) name) rows
          (created-Asks _) e)

  module _ (fresh : Pvc) where
    -- a claim of another name is added
    select_other :
        (p : Pvc → Bool) (rows : List Pvc)
        → p fresh ≡ false
        → select p (rows ++ fresh ∷ []) ≡ select p rows
    select_other p [] e = rw e refl
    select_other p (r ∷ rows) e = rw (select_other p rows e) refl

    pub claims_for_other :
        (time : ℕ) (rows : List Pvc)
        → is_named server name fresh ≡ false
        → claims_for server name time (rows ++ fresh ∷ []) ≡ claims_for server name time rows
    claims_for_other time rows e =
        let early : early_claims server name time (rows ++ fresh ∷ [])
            ≡ early_claims server name time rows =
          ap (λ m. select (created_at server m name) (rows ++ fresh ∷ []))
            (ap max_create_time
              (select_other (is_early server time name) rows (early-Asks time fresh e)))
          ∙ select_other (created_at server _ name) rows (created-Asks _ fresh e) in
        let late : late_claims server name time (rows ++ fresh ∷ [])
            ≡ late_claims server name time rows =
          ap (λ m. select (created_at server m name) (rows ++ fresh ∷ []))
            (ap min_create_time
              (select_other (is_late server time name) rows (late-Asks time fresh e)))
          ∙ select_other (created_at server _ name) rows (created-Asks _ fresh e) in
        rw (early, late) refl

    -- the first claim of that name is added
    select_only :
        (p : Pvc → Bool) (rows : List Pvc)
        → Asks p
        → any (is_named server name) rows ≡ false
        → select p (rows ++ fresh ∷ []) ≡ (if p fresh then fresh ∷ [] else [])
    select_only p [] h e = refl
    select_only p (r ∷ rows) h e = ground (arith, h r, select_only p rows h)

    module _ (time created : ℕ) (rows : List Pvc) (e : any (is_named server name) rows ≡ false)
        (n : is_named server name fresh ≡ true) (c : fresh.create_time ≡ some created)
        (d : fresh.delete_time ≡ none) where
      early_only :
          early_claims server name time (rows ++ fresh ∷ [])
          ≡ (if leb created time then fresh ∷ [] else [])
      early_only =
          ap (λ m. select (created_at server m name) (rows ++ fresh ∷ []))
            (ap max_create_time (select_only (is_early server time name) rows (early-Asks time) e))
          ∙ select_only (created_at server _ name) rows (created-Asks _) e
          ∙ rw (c, d, n) (ground arith)

      late_only :
          late_claims server name time (rows ++ fresh ∷ [])
          ≡ (if leb time created then fresh ∷ [] else [])
      late_only =
          ap (λ m. select (created_at server m name) (rows ++ fresh ∷ []))
            (ap min_create_time (select_only (is_late server time name) rows (late-Asks time) e))
          ∙ select_only (created_at server _ name) rows (created-Asks _) e
          ∙ rw (c, d, n) (ground arith)

      pub claims_for_only : claims_for server name time (rows ++ fresh ∷ []) ≡ fresh ∷ []
      claims_for_only = rw (early_only, late_only) (ground arith)
