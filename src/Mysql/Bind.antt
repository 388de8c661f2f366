-- ===== src/Mysql/Bind.antt =====
-- dbmanager/mysql/bind.go
pub mod Effects
use kubevoltracker.Base.{ℕ, String, Bool, ◌&&◌, ◌||◌, none, some, ltb, ◌==◌, if◌then◌else◌}
use kubevoltracker.Go.{Go}
use kubevoltracker.Resources.{pvs, pv_namespace}
use kubevoltracker.Mysql.Schema.{Pvc, Tables}
use kubevoltracker.Mysql.Conn.{Conn, Tx, plain, ◌>>=◌, raise, on_tables}
use kubevoltracker.Mysql.Sql.{upsert, same_text, same_number}
use kubevoltracker.Mysql.Tx.{run_tx, or_exit, do_tx_statement_check_rows}
use kubevoltracker.Mysql.Rv.{update_rv}

-- the row of a claim that is bound before it is known
abbrev pub bound_row : String → String → ℕ → Pvc
bound_row pv_uid pvc_uid bind_time = record {
  uid = pvc_uid;
  name = none;
  create_time = none;
  delete_time = none;
  bind_time = some bind_time;
  namespace = none;
  storage = none;
  access_modes = none;
  json = none;
  pv_uid = some pv_uid;
}

-- INSERT INTO pvc (uid, pv_uid, bind_time) VALUES (?, ?, ?)
--   ON DUPLICATE KEY UPDATE pv_uid = ?, bind_time = ?
abbrev pub bind_pvc_row : String → String → ℕ → Tables → ℕ × Tables
bind_pvc_row pv_uid pvc_uid bind_time t =
    let (n, rows) =
      upsert (λ r. r.uid == pvc_uid) (bound_row pv_uid pvc_uid bind_time)
        (λ r. record r { pv_uid = some pv_uid; bind_time = some bind_time })
        (λ r. same_text r.pv_uid (some pv_uid) && same_number r.bind_time (some bind_time)) t.pvc in
    (n, record t { pvc = rows })

unfoldable pub bind_tx : String → String → ℕ → String → Tx (Unit {0})
unfolding do_tx_statement_check_rows update_rv
bind_tx pv_uid pvc_uid bind_time rv = do
  rows ← do_tx_statement_check_rows (on_tables (bind_pvc_row pv_uid pvc_uid bind_time))
  if ltb rows 1 || ltb 2 rows
      then raise (plain "Bind affected unexpected number of rows")
      else update_rv pvs pv_namespace rv

unfoldable pub bind_pvc : ℕ → String → String → ℕ → String → Go Conn (Unit {0})
unfolding bind_tx
bind_pvc fuel pv_uid pvc_uid bind_time rv =
    or_exit (run_tx fuel (bind_tx pv_uid pvc_uid bind_time rv))
