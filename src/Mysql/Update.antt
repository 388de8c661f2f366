-- ===== src/Mysql/Update.antt =====
-- dbmanager/mysql/update.go. The numbers of changed rows, which the code does not read, are those
-- of the rows that match.
pub mod Effects
use kubevoltracker.Base.{ℕ, ℤ, pos, String, Bool, List, some, ◌==◌, if◌then◌else◌}
use kubevoltracker.Go.{Go, exit}
use kubevoltracker.DbManager.{Table, nfs, iscsi}
use kubevoltracker.Resources.{pvs, pvcs, pv_namespace}
use kubevoltracker.Mysql.Schema.{Tables}
use kubevoltracker.Mysql.Conn.{Conn, Tx, ◌>>=◌, ◌>>◌, on_tables}
use kubevoltracker.Mysql.Sql.{count, update_where}
use kubevoltracker.Mysql.Tx.{run_tx, or_exit, do_tx_statement}
use kubevoltracker.Mysql.Util.{get_access_mode_string}
use kubevoltracker.Mysql.Rv.{update_rv}

-- UPDATE pv SET nfs_id = ?, iscsi_id = ?, storage = ?, access_modes = ?, json = ? WHERE uid = ?
abbrev pub update_pv_rows : ℤ → ℤ → ℕ → String → String → String → Tables → ℕ × Tables
update_pv_rows nfs_id iscsi_id storage modes json uid t = (
  count (λ r. r.uid == uid) t.pv,
  record t {
    pv =
        update_where (λ r. r.uid == uid)
          (λ r. record r {
            nfs_id = nfs_id;
            iscsi_id = iscsi_id;
            storage = storage;
            access_modes = modes;
            json = json;
          })
          t.pv;
  },
)

-- UPDATE pvc SET storage = ?, access_modes = ?, json = ? WHERE uid = ?
abbrev pub update_pvc_rows : ℕ → String → String → String → Tables → ℕ × Tables
update_pvc_rows storage modes json uid t = (
  count (λ r. r.uid == uid) t.pvc,
  record t {
    pvc =
        update_where (λ r. r.uid == uid)
          (λ r. record r { storage = some storage; access_modes = some modes; json = some json })
          t.pvc;
  },
)

unfoldable pub update_pv_tx : ℤ → ℤ → ℕ → List String → String → String → String → Tx (Unit {0})
unfolding do_tx_statement update_rv
update_pv_tx nfs_id iscsi_id storage access_modes json uid rv = do
  do_tx_statement (
      on_tables
        (update_pv_rows nfs_id iscsi_id storage (get_access_mode_string access_modes) json uid))
  update_rv pvs pv_namespace rv

unfoldable pub update_pv :
    ℕ → String → ℤ → Table → ℕ → List String → String → String → Go Conn (Unit {0})
unfolding update_pv_tx
update_pv fuel uid backend_id backend_type storage access_modes json rv =
    if backend_type == nfs
    then or_exit (run_tx fuel (update_pv_tx backend_id (pos 0) storage access_modes json uid rv))
    else if backend_type == iscsi
    then or_exit (run_tx fuel (update_pv_tx (pos 0) backend_id storage access_modes json uid rv))
    else exit

unfoldable pub update_pvc_tx : String → ℕ → List String → String → String → String → Tx (Unit {0})
unfolding do_tx_statement update_rv
update_pvc_tx uid storage access_modes json watcher_ns rv = do
  do_tx_statement
      (on_tables (update_pvc_rows storage (get_access_mode_string access_modes) json uid))
  update_rv pvcs watcher_ns rv

unfoldable pub update_pvc :
    ℕ → String → ℕ → List String → String → String → String → Go Conn (Unit {0})
unfolding update_pvc_tx
update_pvc fuel uid storage access_modes json watcher_ns rv =
    or_exit (run_tx fuel (update_pvc_tx uid storage access_modes json watcher_ns rv))
