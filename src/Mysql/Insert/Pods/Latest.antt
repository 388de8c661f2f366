-- ===== src/Mysql/Insert/Pods/Latest.antt =====
-- Which claim the first statement of `insertPodMount` in dbmanager/mysql/insert.go chooses: the last
-- that was created.
use mathlib.Core.Path.{subst}
use kubevoltracker.Base.{
  ℕ, ◌≤◌, String, ◌≡◌, refl, sym, ap, ◌∙◌, ◌⊎◌, inl, inr, Bool, true, false, Bool-cases, List, [],
  ◌∷◌, Option, none, some, arith, select, Among, leb, nat_eq, ◌&&◌, if◌then◌else◌,
}
use kubevoltracker.Mysql.Schema.{Pvc}
use kubevoltracker.Mysql.Sql.{Server, holds, null_or}
use kubevoltracker.Mysql.Insert.{
  is_early, is_named, created_at, later, max_create_time, early_claims,
}

module _ (p : Pvc → Bool) where
  Among-head :
      (b : Bool) (r x : Pvc) (kept rows : List Pvc)
      → p x ≡ b
      → (Among r kept → Among r rows × (p r ≡ true))
      → Among r (if b then x ∷ kept else kept)
      → Among r (x ∷ rows) × (p r ≡ true)
  Among-head true r x kept rows e h (inl q) = (inl q, subst (λ (y : Pvc). p y ≡ true) q e)
  Among-head true r x kept rows e h (inr n) = (inr (h n).0, (h n).1)
  Among-head false r x kept rows e h n = (inr (h n).0, (h n).1)

  Among-select : (r : Pvc) (rows : List Pvc) → Among r (select p rows) → Among r rows × (p r ≡ true)
  Among-select r [] m = absurd m
  Among-select r (x ∷ rows) m =
      Among-head (p x) r x (select p rows) rows refl (λ n. Among-select r rows n) m

  select-Among : (r : Pvc) (rows : List Pvc) → Among r rows → p r ≡ true → Among r (select p rows)
  select-Among r [] m e = absurd m
  select-Among r (x ∷ rows) (inl q) e = rw (q, e) (inl refl)
  select-Among r (x ∷ rows) (inr n) e = elim (Bool-cases (p x)) [
    | inl t ↦ rw t (inr (select-Among r rows n e))
    | inr t ↦ rw t (select-Among r rows n e)
  ]

-- The time is not later than the other, which is known.
abbrev AtMost : ℕ → Option ℕ → Type 0
AtMost v none = ⊥
AtMost v (some u) = v ≤ u

later_left : (v : ℕ) (a b : Option ℕ) → AtMost v a → AtMost v (later a b)
later_left v none b h = absurd h
later_left v (some a) none h = h
later_left v (some a) (some b) h = ground arith

later_right : (v : ℕ) (a b : Option ℕ) → AtMost v b → AtMost v (later a b)
later_right v a none h = absurd h
later_right v none (some b) h = h
later_right v (some a) (some b) h = ground arith

later_either : (a b : Option ℕ) (u : ℕ) → later a b ≡ some u → (a ≡ some u) ⊎ (b ≡ some u)
later_either none b u e = inr e
later_either (some a) none u e = inl e
later_either (some a) (some b) u e = ground arith

max_upper :
    (rows : List Pvc) (q : Pvc) (v : ℕ)
    → Among q rows
    → q.create_time ≡ some v
    → AtMost v (max_create_time rows)
max_upper [] q v m c = absurd m
max_upper (r ∷ rows) q v (inl s) c =
    later_left v r.create_time (max_create_time rows)
      (subst (AtMost v) (sym (ap (λ (x : Pvc). x.create_time) s ∙ c)) (omega arith))
max_upper (r ∷ rows) q v (inr m) c =
    later_right v r.create_time (max_create_time rows) (max_upper rows q v m c)

max_taken :
    (rows : List Pvc) (u : ℕ)
    → max_create_time rows ≡ some u
    → (q : Pvc) × Among q rows × (q.create_time ≡ some u)
max_taken [] u e = ground arith
max_taken (r ∷ rows) u e = elim (later_either r.create_time (max_create_time rows) u e) [
  | inl c ↦ (r, inl refl, c)
  | inr c ↦ let (q, m, d) = max_taken rows u c in (q, inr m, d)
]

same_time :
    (u : ℕ) (o : Option ℕ) (named : Bool) → (holds (nat_eq u) o && named) ≡ true → o ≡ some u
same_time u none named e = ground arith
same_time u (some v) named e = ground arith

not_after :
    (u time : ℕ) (o : Option ℕ) (kept named : Bool)
    → (holds (λ v. leb v time) o && kept && named) ≡ true
    → o ≡ some u
    → u ≤ time
not_after u time none kept named e c = ground arith
not_after u time (some v) kept named e c = ground arith

module _ (server : Server) (name : String) (time : ℕ) where
  -- The claim was created at `u`, up to `time`, and no later one that the statement looks at was.
  abbrev pub IsLatest : List Pvc → Pvc → Type 0
  IsLatest rows r =
      (u : ℕ) × (r.create_time ≡ some u)
      × (u ≤ time)
      × ((q : Pvc) (v : ℕ)
          → Among q rows
          → is_early server time name q ≡ true
          → q.create_time ≡ some v
          → v ≤ u)

  early_by :
      (rows : List Pvc) (r : Pvc) (o : Option ℕ)
      → max_create_time (select (is_early server time name) rows) ≡ o
      → created_at server o name r ≡ true
      → IsLatest rows r
  early_by rows r none e t = ground arith
  early_by rows r (some u) e t =
      let (q, m, c) = max_taken (select (is_early server time name) rows) u e in
      let (n, early) = Among-select (is_early server time name) q rows m in
      (
        u,
        same_time u r.create_time (is_named server name r) t,
        not_after u time q.create_time (null_or (leb time) q.delete_time) (is_named server name q)
            early c,
        λ q v n i d. subst (AtMost v) e (
            max_upper (select (is_early server time name) rows) q v
              (select-Among (is_early server time name) q rows n i) d),
      )

  -- Every claim that the first statement attaches to a mount was created up to the start of the pod,
  -- and no claim of the mount's name that had not been deleted before the start was created later,
  -- up to the start.
  pub early_claims-IsLatest :
      (rows : List Pvc) (r : Pvc) → Among r (early_claims server name time rows) → IsLatest rows r
  early_claims-IsLatest rows r m =
      let (n, t) = Among-select _ r rows m in
      early_by rows r (max_create_time (select (is_early server time name) rows)) refl t
