-- ===== src/Mysql/Insert/Pods/Mount.antt =====
-- `insertPodMount` of dbmanager/mysql/insert.go as a function of the tables, when the server fails no
-- call.
use kubevoltracker.Base.{
  append-nil, ℕ, suc, String, ◌≡◌, refl, ap, ◌∙◌, Bool, true, List, [], ◌∷◌, arith, length, ltb,
  nat_eq, if◌then◌else◌,
}
use kubevoltracker.Resources.{VolumeMount}
use kubevoltracker.Mysql.Schema.{Pvc, Tables}
use kubevoltracker.Mysql.Conn.{ok, plain}
use kubevoltracker.Mysql.Sql.{Server}
use kubevoltracker.Mysql.Insert.{
  insert_pod_mount, insert_late_mount, insert_fallback_mount, early_mount, late_mount,
  fallback_mount, add_mounts, early_claims, late_claims,
}
use kubevoltracker.Mysql.Tx.Refines.{Plain, runs, gives, fails, then_plain, wraps}
use kubevoltracker.Mysql.Tx.Quiet.{
  Computes, drops, Computes-pure, Computes-raise, Computes-statement, Computes-rows,
  Computes-check_rows, Computes-wrap, Computes-bind, Computes-if,
}
use kubevoltracker.Mysql.Insert.Pods.{or_else, rows_for, mounts_for, add_rows}

module _ (server : Server) (uid container_name : String) (mount : VolumeMount) (time : ℕ) where
  abbrev fallback : Plain (Unit {0})
  fallback =
      then_plain
        (wraps "Unable to insert partial record into pod mount table"
          (runs (fallback_mount uid container_name mount)))
        (λ result. then_plain (gives result) (λ rows.
          if nat_eq rows 1
          then gives tt
          else fails (plain "Fallback pod mount affected unexpected number of rows")))

  -- what follows a statement that has added mounts
  abbrev unless_added : Plain (Unit {0}) → ℕ → Plain (Unit {0})
  unless_added next rows =
      if ltb 1 rows
      then fails (plain "Pod mount insert updated an unexpected number of rows")
      else if nat_eq rows 1
      then gives tt
      else next

  abbrev late : Plain (Unit {0})
  late =
      then_plain (runs (late_mount server uid container_name mount time))
        (λ result. then_plain (gives result) (unless_added fallback))

  abbrev pub one_mount : Plain (Unit {0})
  one_mount =
      then_plain (runs (early_mount server uid container_name mount time)) (unless_added late)

  fallback-Computes : Computes fallback (insert_fallback_mount server uid container_name mount)
  unfolding insert_fallback_mount
  fallback-Computes =
      Computes-bind _ _ _ _
        (Computes-wrap (runs (fallback_mount uid container_name mount)) _ _
          (Computes-statement (fallback_mount uid container_name mount)))
        (λ result.
          Computes-bind (gives result) _ _ _ (Computes-rows result)
            (λ rows. Computes-if (nat_eq rows 1) (Computes-pure tt) (Computes-raise _)))

  late-Computes : Computes late (insert_late_mount server uid container_name mount time)
  unfolding insert_late_mount
  late-Computes =
      Computes-bind _ _ _ _ (Computes-statement (late_mount server uid container_name mount time))
        (λ result. Computes-bind (gives result) _ _ _ (Computes-rows result) (λ rows.
          Computes-if (ltb 1 rows) (Computes-raise _)
            (Computes-if (nat_eq rows 1) (Computes-pure tt) fallback-Computes)))

  pub one_mount-Computes :
      Computes one_mount (insert_pod_mount server uid container_name mount time)
  unfolding insert_pod_mount
  one_mount-Computes =
      Computes-bind _ _ _ _ (Computes-check_rows (early_mount server uid container_name mount time))
        (λ rows.
          Computes-if (ltb 1 rows) (Computes-raise _)
            (Computes-if (nat_eq rows 1) (Computes-pure tt) late-Computes))

  -- one statement that adds mounts for the claims `xs`, and what comes next if there are none
  abbrev adds : List Pvc → Plain (Unit {0}) → Plain (Unit {0})
  adds xs next = then_plain (runs (add_mounts uid container_name mount xs)) (unless_added next)

  many : (n : ℕ) → ltb 1 (suc (suc n)) ≡ true
  many n = ground arith

  drops-many :
      (x x' : Pvc) (xs : List Pvc) (next : Plain (Unit {0})) (t : Tables)
      → drops (adds (x ∷ x' ∷ xs) next) t
        ≡ (ok tt, add_rows (rows_for uid container_name mount (x ∷ x' ∷ xs)) t)
  drops-many x x' xs next t =
      ap
        (λ (b : Bool).
          drops
            (then_plain (runs (add_mounts uid container_name mount (x ∷ x' ∷ xs))) (λ rows.
              if b
              then fails (plain "Pod mount insert updated an unexpected number of rows")
              else if nat_eq rows 1
              then gives tt
              else next))
            t)
        (many (length xs))

  drops-late :
      (ys : List Pvc) (t : Tables)
      → drops (adds ys fallback) t ≡ (ok tt, add_rows (rows_for uid container_name mount ys) t)
  drops-late (y ∷ []) t = refl
  drops-late (y ∷ y' ∷ ys) t = drops-many y y' ys fallback t
  drops-late [] t = rw (append-nil t.pod_mount)

  drops-early :
      (xs : List Pvc) (t : Tables)
      → drops (adds xs late) t ≡ (
        ok tt,
        add_rows
            (rows_for uid container_name mount
              (or_else xs (late_claims server mount.name time t.pvc)))
            t,
      )
  drops-early (x ∷ []) t = refl
  drops-early (x ∷ x' ∷ xs) t = drops-many x x' xs late t
  drops-early [] t =
      ap (drops late) (ap (λ rows. record t { pod_mount = rows }) (append-nil t.pod_mount))
      ∙ drops-late (late_claims server mount.name time t.pvc) t

  pub drops-one_mount :
      (t : Tables)
      → drops one_mount t
        ≡ (ok tt, add_rows (mounts_for server uid container_name mount time t.pvc) t)
  drops-one_mount t = drops-early (early_claims server mount.name time t.pvc) t
