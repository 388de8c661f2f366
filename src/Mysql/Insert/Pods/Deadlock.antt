-- ===== src/Mysql/Insert/Pods/Deadlock.antt =====
-- What InsertPod leaves after a deadlock in the statement for a mount.
use kubevoltracker.Base.{
  ℕ, suc, String, ◌≡◌, false, List, [], ◌∷◌, Option, none, some, arith, any, ◌==◌,
}
use kubevoltracker.Go.{returned}
use kubevoltracker.Resources.{VolumeMount, ContainerDesc, pods}
use kubevoltracker.Mysql.Schema.{Pod}
use kubevoltracker.Mysql.Conn.{Err, mysql, Conn, call}
use kubevoltracker.Mysql.Tx.{run_tx, run_tx_actual}
use kubevoltracker.Mysql.Sql.{Server}
use kubevoltracker.Mysql.Rv.{set_rv}
use kubevoltracker.Mysql.Insert.{insert_pod}

-- The first five calls of the server go through, the sixth finds a deadlock, and all later ones go
-- through.
abbrev pub deadlock_in_mount : List (Option Err)
deadlock_in_mount = none ∷ none ∷ none ∷ none ∷ none ∷ some (mysql 1213) ∷ []

-- The pod is not recorded yet and has one container with one mount, and the server finds a deadlock in
-- the first statement for the mount and fails no other call. InsertPod returns; the resource version
-- of the event is recorded, and nothing else: there is no row for the pod, its container or its mount.
pub insert_pod_deadlock :
    (server : Server) (fuel : ℕ) (uid name namespace json watcher_ns rv : String) (time : ℕ)
    (container : ContainerDesc) (mount : VolumeMount) (c : Conn)
    → any (λ (r : Pod). r.uid == uid) c.tables.pod ≡ false
    → container.pvc_mounts ≡ mount ∷ []
    → let (out, d) =
        insert_pod server
          (suc fuel)
          uid
          name
          time
          namespace
          (container ∷ [])
          json
          watcher_ns
          rv
          (record c { faults = deadlock_in_mount }) in
      (out ≡ returned tt) × (d.tables ≡ (set_rv pods watcher_ns rv c.tables).1)
unfolding insert_pod run_tx run_tx_actual call
insert_pod_deadlock server fuel uid name namespace json watcher_ns rv time container mount c new
      one =
    ground arith
