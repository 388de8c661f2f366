-- ===== src/Mysql/Delete/Pods.antt =====
-- What `DeletePod` of dbmanager/mysql/delete.go leaves in the tables, whatever calls the server
-- fails.
use kubevoltracker.Base.{
  ℕ, ◌<◌, String, ◌≡◌, refl, inl, inr, some, arith, length, any, ltb, Bool, Bool-cases, ◌==◌,
  if◌then◌else◌,
}
use kubevoltracker.Resources.{pods}
use kubevoltracker.Mysql.Schema.{PodMount, Tables}
use kubevoltracker.Mysql.Conn.{Conn, ok}
use kubevoltracker.Mysql.Sql.{count, delete_where}
use kubevoltracker.Mysql.Sql.Laws.{count-any, delete_where_none, delete_where_absorbs}
use kubevoltracker.Mysql.Delete.{
  delete_pod, delete_pod_tx, delete_pod_rows, is_bad_mount, clear_bad_pod_mount, delete_mounts,
  final_clean,
}
use kubevoltracker.Mysql.View.{pod_at, Changed, Recorded}
use kubevoltracker.Mysql.View.Laws.{update_where-Changed, set_rv-Recorded}
use kubevoltracker.Mysql.Rv.{set_rv}
use kubevoltracker.Mysql.Tx.Refines.{
  Plain, Refines, IsHonest, runs, gives, wraps, then_plain, Refines-pure, Refines-wrap,
  Refines-bind,
}
use kubevoltracker.Mysql.Tx.Attempt.{IsIdle}
use kubevoltracker.Mysql.Tx.Total.{Settles, run_tx_settles}
use kubevoltracker.Mysql.Tx.Blocks.{
  changes, Refines-seq, Refines-if, statement-Refines, rows_affected-Refines,
  do_tx_statement-Refines, update_rv-Refines,
}

-- Whether a mount of the pod names a claim that was created after the pod's end.
abbrev pub has_bad_mount : String → ℕ → Tables → Bool
has_bad_mount uid time t = any (is_bad_mount time uid t) t.pod_mount

-- What the deletion of the pod `uid` changes: one bad mount takes all mounts of the pod away.
pub record PodDeleted (uid : String) (time : ℕ) (watcher_ns rv : String) (t t' : Tables)
    : Type 0 where
  pub marked : Changed (pod_at t) (pod_at t') uid (λ r. record r { delete_time = some time })
  pub mounts : t'.pod_mount ≡ (
      if has_bad_mount uid time t
      then delete_where (λ m. m.pod_uid == uid) t.pod_mount
      else t.pod_mount)
  pub recorded : Recorded t t' pods watcher_ns rv
  pub rest :
      t'
      ≡ record t { pod = t'.pod; pod_mount = t'.pod_mount; resource_version = t'.resource_version }

module _ (fuel : ℕ) (uid : String) (time : ℕ) (watcher_ns rv : String) where
  abbrev cleaned : Tables → Tables
  cleaned t =
      let marked = (delete_pod_rows time uid t).1 in
      let (n, cleared) = clear_bad_pod_mount uid time marked in
      record marked {
        pod_mount = if ltb 0 n then (delete_mounts uid cleared).1.pod_mount else cleared.pod_mount;
      }

  abbrev cleans : ℕ → Plain (Unit {0})
  cleans rows =
      if ltb 0 rows
      then wraps "Final clean of pod entries failed" (changes (delete_mounts uid))
      else gives tt

  abbrev meaning : Plain (Unit {0})
  meaning = then_plain (wraps "Basic delete failed" (changes (delete_pod_rows time uid))) (λ _.
      then_plain (wraps "Failed to clear bad pod mounts" (runs (clear_bad_pod_mount uid time)))
        (λ result.
          then_plain (gives result)
            (λ rows. then_plain (cleans rows) (λ _. changes (set_rv pods watcher_ns rv)))))

  final_clean-Refines : (rows : ℕ) → Refines ⊥ (cleans rows) (final_clean uid rows)
  final_clean-Refines rows =
      Refines-if (ltb 0 rows)
        (Refines-wrap ⊥ (changes (delete_mounts uid)) _ _ (
          Refines-bind ⊥ (runs (delete_mounts uid)) (λ _. gives tt) _ _
            (statement-Refines (delete_mounts uid)) (λ _. Refines-pure tt)))
        (Refines-pure tt)

  delete_pod_tx-Refines : Refines ⊥ meaning (delete_pod_tx uid time watcher_ns rv)
  unfolding delete_pod_tx
  delete_pod_tx-Refines =
      Refines-seq
        (Refines-wrap ⊥ (changes (delete_pod_rows time uid)) _ _
          (do_tx_statement-Refines (delete_pod_rows time uid)))
        (Refines-bind ⊥ _ _ _ _
          (Refines-wrap ⊥ (runs (clear_bad_pod_mount uid time)) _ _
            (statement-Refines (clear_bad_pod_mount uid time)))
          (λ result. Refines-bind ⊥ _ _ _ _ (rows_affected-Refines result) (λ rows.
            Refines-seq (final_clean-Refines rows) (update_rv-Refines pods watcher_ns rv))))

  meaning_lem : (t : Tables) → meaning t ≡ (ok tt, (set_rv pods watcher_ns rv (cleaned t)).1)
  meaning_lem t = elim (Bool-cases (ltb 0 (count (is_bad_mount time uid t) t.pod_mount))) [
    | inl e ↦ rw e
    | inr e ↦ rw e
  ]

  mounts-cleaned :
      (t : Tables)
      → (cleaned t).pod_mount ≡ (
          if has_bad_mount uid time t
          then delete_where (λ m. m.pod_uid == uid) t.pod_mount
          else t.pod_mount)
  mounts-cleaned t =
      rw (count-any (is_bad_mount time uid t) t.pod_mount)
        (elim (Bool-cases (has_bad_mount uid time t)) [
          | inl e ↦ rw e (
              delete_where_absorbs (is_bad_mount time uid t) (λ (m : PodMount). m.pod_uid == uid)
                t.pod_mount (λ m h. ground arith))
          | inr e ↦ rw e (delete_where_none (is_bad_mount time uid t) t.pod_mount e)
        ])

  PodDeleted-cleaned :
      (t : Tables) → PodDeleted uid time watcher_ns rv t (set_rv pods watcher_ns rv (cleaned t)).1
  PodDeleted-cleaned t = record {
    marked = update_where-Changed (λ r. r.uid) uid _ t.pod (λ _. refl);
    mounts = mounts-cleaned t;
    recorded = set_rv-Recorded pods watcher_ns rv (cleaned t);
    rest = refl;
  }

  -- `DeletePod`, called with no transaction open, returns if the fuel exceeds the number of entries
  -- on the schedule of failures, none of which pretends to be a duplicate key. It has set the time
  -- of deletion of the pod, and recorded the resource version; if some mount of the pod names a
  -- claim that was created after that time, it has removed all mounts of the pod, and otherwise
  -- none; it has changed nothing else, and no transaction is left open.
  pub delete_pod_effect :
      (c : Conn)
      → IsIdle c
      → IsHonest c.faults
      → length c.faults < fuel
      → Settles
          (delete_pod fuel uid time watcher_ns rv c)
          (PodDeleted uid time watcher_ns rv c.tables)
  unfolding delete_pod
  delete_pod_effect c i h l =
      run_tx_settles meaning (PodDeleted uid time watcher_ns rv c.tables) fuel _ c _
        delete_pod_tx-Refines (meaning_lem c.tables) (PodDeleted-cleaned c.tables) i h l
