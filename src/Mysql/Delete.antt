-- ===== src/Mysql/Delete.antt =====
-- dbmanager/mysql/delete.go: a deletion records its time.
pub mod Effects
pub mod Pods
use kubevoltracker.Base.{ℕ, String, Bool, ◌&&◌, Option, some, ltb, any, ◌==◌, if◌then◌else◌}
use kubevoltracker.Go.{Go}
use kubevoltracker.Resources.{pods, pvs, pvcs, pv_namespace}
use kubevoltracker.Mysql.Schema.{Pvc, PodMount, Tables}
use kubevoltracker.Mysql.Conn.{Conn, Tx, ◌>>=◌, ◌>>◌, pure, raise, wrap, call, on_tables}
use kubevoltracker.Mysql.Sql.{holds, count, update_where, delete_where}
use kubevoltracker.Mysql.Tx.{run_tx, or_exit, do_tx_statement, rows_affected}
use kubevoltracker.Mysql.Rv.{update_rv}

-- UPDATE pod SET delete_time=? WHERE uid=?
abbrev pub delete_pod_rows : ℕ → String → Tables → ℕ × Tables
delete_pod_rows time uid t = (
  count (λ r. r.uid == uid) t.pod,
  record t {
    pod = update_where (λ r. r.uid == uid) (λ r. record r { delete_time = some time }) t.pod;
  },
)

-- UPDATE pvc SET delete_time=? WHERE uid=?
abbrev pub delete_pvc_rows : ℕ → String → Tables → ℕ × Tables
delete_pvc_rows time uid t = (
  count (λ r. r.uid == uid) t.pvc,
  record t {
    pvc = update_where (λ r. r.uid == uid) (λ r. record r { delete_time = some time }) t.pvc;
  },
)

-- UPDATE pv SET delete_time=? WHERE uid=?
abbrev pub delete_pv_rows : ℕ → String → Tables → ℕ × Tables
delete_pv_rows time uid t = (
  count (λ r. r.uid == uid) t.pv,
  record t {
    pv = update_where (λ r. r.uid == uid) (λ r. record r { delete_time = some time }) t.pv;
  },
)

-- pvc_uid IN (SELECT uid FROM pvc WHERE pvc.create_time > ?)
abbrev pub is_created_after : ℕ → Tables → Option String → Bool
is_created_after time t pvc_uid =
    holds (λ u. any (λ (r : Pvc). r.uid == u && holds (ltb time) r.create_time) t.pvc) pvc_uid

abbrev pub is_bad_mount : ℕ → String → Tables → PodMount → Bool
is_bad_mount time uid t m = m.pod_uid == uid && is_created_after time t m.pvc_uid

-- DELETE FROM pod_mount WHERE pod_uid = ? and pvc_uid IN (SELECT ...)
abbrev pub clear_bad_pod_mount : String → ℕ → Tables → ℕ × Tables
clear_bad_pod_mount uid time t = (
  count (is_bad_mount time uid t) t.pod_mount,
  record t { pod_mount = delete_where (is_bad_mount time uid t) t.pod_mount },
)

-- DELETE FROM pod_mount WHERE pod_uid = ?
abbrev pub delete_mounts : String → Tables → ℕ × Tables
delete_mounts uid t = (
  count (λ m. m.pod_uid == uid) t.pod_mount,
  record t { pod_mount = delete_where (λ m. m.pod_uid == uid) t.pod_mount },
)

-- One bad mount means that the pod never started, so all of its mounts go.
abbrev pub final_clean : String → ℕ → Tx (Unit {0})
final_clean uid rows =
    if ltb 0 rows
    then wrap "Final clean of pod entries failed"
        (call (on_tables (delete_mounts uid)) >>= λ all. pure tt)
    else pure tt

unfoldable pub delete_pod_tx : String → ℕ → String → String → Tx (Unit {0})
unfolding do_tx_statement update_rv
delete_pod_tx uid delete_time watcher_ns rv = do
  wrap "Basic delete failed" (do_tx_statement (on_tables (delete_pod_rows delete_time uid)))
  result ←
      wrap "Failed to clear bad pod mounts" (call (on_tables (clear_bad_pod_mount uid delete_time)))
  rows ← rows_affected result
  final_clean uid rows
  update_rv pods watcher_ns rv

unfoldable pub delete_pod : ℕ → String → ℕ → String → String → Go Conn (Unit {0})
unfolding delete_pod_tx
delete_pod fuel uid delete_time watcher_ns rv =
    or_exit (run_tx fuel (delete_pod_tx uid delete_time watcher_ns rv))

unfoldable pub delete_pv_tx : String → ℕ → String → Tx (Unit {0})
unfolding do_tx_statement update_rv
delete_pv_tx uid delete_time rv = do
  do_tx_statement (on_tables (delete_pv_rows delete_time uid))
  update_rv pvs pv_namespace rv

unfoldable pub delete_pv : ℕ → String → ℕ → String → Go Conn (Unit {0})
unfolding delete_pv_tx
delete_pv fuel uid delete_time rv = or_exit (run_tx fuel (delete_pv_tx uid delete_time rv))

unfoldable pub delete_pvc_tx : String → ℕ → String → String → Tx (Unit {0})
unfolding do_tx_statement update_rv
delete_pvc_tx uid delete_time watcher_ns rv = do
  do_tx_statement (on_tables (delete_pvc_rows delete_time uid))
  update_rv pvcs watcher_ns rv

unfoldable pub delete_pvc : ℕ → String → ℕ → String → String → Go Conn (Unit {0})
unfolding delete_pvc_tx
delete_pvc fuel uid delete_time watcher_ns rv =
    or_exit (run_tx fuel (delete_pvc_tx uid delete_time watcher_ns rv))
