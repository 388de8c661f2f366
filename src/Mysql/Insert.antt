-- ===== src/Mysql/Insert.antt =====
-- dbmanager/mysql/insert.go: pods, claims and volumes. The volume sources are in `Sources`, the
-- statements in `Rows`.
mod Rows
pub mod Sources
pub mod Volumes
pub mod Claims
pub mod Pods
use kubevoltracker.Base.{ℕ, ℤ, pos, String, List, [], ◌∷◌, ltb, nat_eq, ◌==◌, if◌then◌else◌}
use kubevoltracker.Go.{Go}
use kubevoltracker.DbManager.{Table, nfs, iscsi}
use kubevoltracker.Resources.{VolumeMount, ContainerDesc, pods, pvs, pvcs, pv_namespace}
use kubevoltracker.Mysql.Conn.{
  Conn, Tx, fatal, plain, ◌>>=◌, ◌>>◌, pure, raise, wrap, or_fatal, drop_error, call, on_tables,
}
use kubevoltracker.Mysql.Sql.{Server}
use kubevoltracker.Mysql.Tx.{
  run_tx, or_exit, do_tx_statement, do_tx_statement_check_rows, rows_affected,
}
use kubevoltracker.Mysql.Util.{get_access_mode_string}
use kubevoltracker.Mysql.Rv.{update_rv}
pub use Rows.*

module _ (server : Server) where
  -- the third statement: no claim of that name has been seen
  unfoldable pub insert_fallback_mount : String → String → VolumeMount → Tx (Unit {0})
  insert_fallback_mount uid container_name pvc_mount = do
    result ←
        wrap "Unable to insert partial record into pod mount table"
          (call (on_tables (fallback_mount uid container_name pvc_mount)))
    rows ← rows_affected result
    if nat_eq rows 1
        then pure tt
        else raise (plain "Fallback pod mount affected unexpected number of rows")

  -- the second statement: the claim may have been created after the pod
  unfoldable pub insert_late_mount : String → String → VolumeMount → ℕ → Tx (Unit {0})
  unfolding insert_fallback_mount
  insert_late_mount uid container_name pvc_mount create_time = do
    result ← call (on_tables (late_mount server uid container_name pvc_mount create_time))
    rows ← rows_affected result
    if ltb 1 rows
        then raise (plain "Pod mount insert updated an unexpected number of rows")
        else if nat_eq rows 1
        then pure tt
        else insert_fallback_mount uid container_name pvc_mount

  unfoldable pub insert_pod_mount : String → String → VolumeMount → ℕ → Tx (Unit {0})
  unfolding insert_late_mount do_tx_statement_check_rows
  insert_pod_mount uid container_name pvc_mount create_time = do
    rows ←
        do_tx_statement_check_rows
          (on_tables (early_mount server uid container_name pvc_mount create_time))
    if ltb 1 rows
        then raise (plain "Pod mount insert updated an unexpected number of rows")
        else if nat_eq rows 1
        then pure tt
        else insert_late_mount uid container_name pvc_mount create_time

  -- the error of `insertPodMount` is dropped
  unfoldable pub insert_mounts : String → String → List VolumeMount → ℕ → Tx (Unit {0})
  insert_mounts uid container_name [] create_time = pure tt
  insert_mounts uid container_name (pvc ∷ mounts) create_time =
      drop_error (insert_pod_mount uid container_name pvc create_time)
      >> insert_mounts uid container_name mounts create_time

  unfoldable pub insert_containers : String → List ContainerDesc → ℕ → Tx (Unit {0})
  insert_containers uid [] create_time = pure tt
  insert_containers uid (container ∷ containers) create_time =
      do_tx_statement (insert_container uid container)
      >> (insert_mounts uid container.name container.pvc_mounts create_time
          >> insert_containers uid containers create_time)

  unfoldable pub insert_pod_tx :
      String → String → ℕ → String → List ContainerDesc → String → String → String → Tx (Unit {0})
  unfolding insert_containers insert_mounts insert_pod_mount do_tx_statement update_rv
  insert_pod_tx uid name create_time namespace containers json watcher_ns rv = do
    do_tx_statement (insert_pod_row uid name create_time namespace json)
    insert_containers uid containers create_time
    or_fatal (update_rv pods watcher_ns rv)

  unfoldable pub insert_pod :
      ℕ
      → String
      → String
      → ℕ
      → String
      → List ContainerDesc
      → String
      → String
      → String
      → Go Conn (Unit {0})
  unfolding insert_pod_tx
  insert_pod fuel uid name create_time namespace containers json watcher_ns rv =
      or_exit
        (run_tx fuel (insert_pod_tx uid name create_time namespace containers json watcher_ns rv))

  -- A wrong number of rows makes an error that the next statement overwrites.
  unfoldable pub insert_pvc_tx :
      String → String → ℕ → String → ℕ → List String → String → String → String → Tx (Unit {0})
  unfolding do_tx_statement_check_rows update_rv
  insert_pvc_tx uid name create_time namespace storage access_modes json watcher_ns rv = do
    rows ← do_tx_statement_check_rows (
        on_tables (
          insert_pvc_row uid name create_time namespace storage
            (get_access_mode_string access_modes) json))
    mounts ←
        wrap "Unable to update PVC mount table"
          (call (on_tables (add_pvc_pod_mount server uid name)))
    update_rv pvcs watcher_ns rv

  unfoldable pub insert_pvc :
      ℕ
      → String
      → String
      → ℕ
      → String
      → ℕ
      → List String
      → String
      → String
      → String
      → Go Conn (Unit {0})
  unfolding insert_pvc_tx
  insert_pvc fuel uid name create_time namespace storage access_modes json watcher_ns rv = or_exit (
      run_tx fuel
        (insert_pvc_tx uid name create_time namespace storage access_modes json watcher_ns rv))

unfoldable pub insert_pv_tx :
    String → String → ℕ → ℤ → Table → ℕ → List String → String → String → Tx (Unit {0})
unfolding do_tx_statement update_rv
insert_pv_tx uid name create_time backend_id backend_type storage access_modes json rv = do
  if backend_type == nfs
      then do_tx_statement (
          insert_pv_row uid name create_time storage (get_access_mode_string access_modes) json
            backend_id (pos 0))
      else if backend_type == iscsi
      then do_tx_statement (
          insert_pv_row uid name create_time storage (get_access_mode_string access_modes) json
            (pos 0) backend_id)
      else (λ c. (fatal, c))
  update_rv pvs pv_namespace rv

unfoldable pub insert_pv :
    ℕ → String → String → ℕ → ℤ → Table → ℕ → List String → String → String → Go Conn (Unit {0})
unfolding insert_pv_tx
insert_pv fuel uid name create_time backend_id backend_type storage access_modes json rv = or_exit (
    run_tx fuel
      (insert_pv_tx uid name create_time backend_id backend_type storage access_modes json rv))
