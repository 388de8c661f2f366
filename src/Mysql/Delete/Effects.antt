-- ===== src/Mysql/Delete/Effects.antt =====
-- What `DeletePV` and `DeletePVC` of dbmanager/mysql/delete.go leave in the tables, whatever calls
-- the server fails.
use kubevoltracker.Base.{ℕ, ◌<◌, String, ◌≡◌, refl, some, length}
use kubevoltracker.Resources.{pvs, pvcs, pv_namespace}
use kubevoltracker.Mysql.Schema.{Tables}
use kubevoltracker.Mysql.Conn.{Conn}
use kubevoltracker.Mysql.Delete.{
  delete_pv, delete_pv_tx, delete_pv_rows, delete_pvc, delete_pvc_tx, delete_pvc_rows,
}
use kubevoltracker.Mysql.View.{pv_at, pvc_at, Changed, Recorded}
use kubevoltracker.Mysql.View.Laws.{update_where-Changed, set_rv-Recorded}
use kubevoltracker.Mysql.Rv.{set_rv}
use kubevoltracker.Mysql.Tx.Refines.{IsHonest}
use kubevoltracker.Mysql.Tx.Attempt.{IsIdle}
use kubevoltracker.Mysql.Tx.Total.{Settles, run_tx_settles}
use kubevoltracker.Mysql.Tx.Blocks.{Refines-seq, do_tx_statement-Refines, update_rv-Refines}

-- What the deletion of the volume `uid` changes: its time of deletion and the version of volumes.
pub record PvDeleted (uid : String) (time : ℕ) (rv : String) (t t' : Tables) : Type 0 where
  pub marked : Changed (pv_at t) (pv_at t') uid (λ r. record r { delete_time = some time })
  pub recorded : Recorded t t' pvs pv_namespace rv
  pub rest : t' ≡ record t { pv = t'.pv; resource_version = t'.resource_version }

-- What the deletion of the claim `uid` changes.
pub record PvcDeleted (uid : String) (time : ℕ) (watcher_ns rv : String) (t t' : Tables)
    : Type 0 where
  pub marked : Changed (pvc_at t) (pvc_at t') uid (λ r. record r { delete_time = some time })
  pub recorded : Recorded t t' pvcs watcher_ns rv
  pub rest : t' ≡ record t { pvc = t'.pvc; resource_version = t'.resource_version }

module _ (fuel : ℕ) (uid : String) (time : ℕ) where
  PvDeleted-rows :
      (rv : String) (t : Tables)
      → PvDeleted uid time rv t (set_rv pvs pv_namespace rv (delete_pv_rows time uid t).1).1
  PvDeleted-rows rv t = record {
    marked = update_where-Changed (λ r. r.uid) uid _ t.pv (λ _. refl);
    recorded = set_rv-Recorded pvs pv_namespace rv (delete_pv_rows time uid t).1;
    rest = refl;
  }

  PvcDeleted-rows :
      (watcher_ns rv : String) (t : Tables)
      → PvcDeleted uid time watcher_ns rv t
          (set_rv pvcs watcher_ns rv (delete_pvc_rows time uid t).1).1
  PvcDeleted-rows watcher_ns rv t = record {
    marked = update_where-Changed (λ r. r.uid) uid _ t.pvc (λ _. refl);
    recorded = set_rv-Recorded pvcs watcher_ns rv (delete_pvc_rows time uid t).1;
    rest = refl;
  }

  -- `DeletePV` alone: called with no transaction open, returns if the fuel exceeds the number of entries
  -- on the schedule of failures, none of which pretends to be a duplicate key. It has set the time
  -- of deletion of the volume, recorded the resource version under the volumes' namespace, and
  -- changed nothing else; no transaction is left open.
  pub delete_pv_effect :
      (rv : String) (c : Conn)
      → IsIdle c
      → IsHonest c.faults
      → length c.faults < fuel
      → Settles (delete_pv fuel uid time rv c) (PvDeleted uid time rv c.tables)
  unfolding delete_pv delete_pv_tx
  delete_pv_effect rv c i h l =
      run_tx_settles _ (PvDeleted uid time rv c.tables) fuel _ c _
        (Refines-seq (do_tx_statement-Refines (delete_pv_rows time uid))
          (update_rv-Refines pvs pv_namespace rv))
        refl (PvDeleted-rows rv c.tables) i h l

  -- `DeletePVC` alone: called with no transaction open, returns if the fuel exceeds the number of entries
  -- on the schedule of failures, none of which pretends to be a duplicate key. It has set the time
  -- of deletion of the claim, recorded the resource version under the namespace of the watcher, and
  -- changed nothing else; no transaction is left open.
  pub delete_pvc_effect :
      (watcher_ns rv : String) (c : Conn)
      → IsIdle c
      → IsHonest c.faults
      → length c.faults < fuel
      → Settles
          (delete_pvc fuel uid time watcher_ns rv c)
          (PvcDeleted uid time watcher_ns rv c.tables)
  unfolding delete_pvc delete_pvc_tx
  delete_pvc_effect watcher_ns rv c i h l =
      run_tx_settles _ (PvcDeleted uid time watcher_ns rv c.tables) fuel _ c _
        (Refines-seq (do_tx_statement-Refines (delete_pvc_rows time uid))
          (update_rv-Refines pvcs watcher_ns rv))
        refl (PvcDeleted-rows watcher_ns rv c.tables) i h l

  -- `DeletePV` and `DeletePVC`, called with no transaction open, return if the fuel exceeds the number
  -- of entries on the schedule of failures, none of which pretends to be a duplicate key. They have set
  -- the time of deletion of the volume or the claim, recorded the resource version, that of a volume
  -- under the volumes' namespace and that of a claim under the watcher's, and changed nothing else; no
  -- transaction is left open.
  pub deletes_effect :
      (watcher_ns rv : String) (c : Conn)
      → IsIdle c
      → IsHonest c.faults
      → length c.faults < fuel
      → Settles (delete_pv fuel uid time rv c) (PvDeleted uid time rv c.tables)
        × Settles
            (delete_pvc fuel uid time watcher_ns rv c)
            (PvcDeleted uid time watcher_ns rv c.tables)
  deletes_effect watcher_ns rv c i h l =
      (delete_pv_effect rv c i h l, delete_pvc_effect watcher_ns rv c i h l)
