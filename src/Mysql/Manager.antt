-- ===== src/Mysql/Manager.antt =====
-- The methods of dbmanager/mysql as the data store of dbmanager/types.go.
use kubevoltracker.Base.{ℕ}
use kubevoltracker.DbManager.{DbManager}
use kubevoltracker.Mysql.Conn.{Conn}
use kubevoltracker.Mysql.Sql.{Server}
use kubevoltracker.Mysql.Rv.{get_rv}
use kubevoltracker.Mysql.Bind.{bind_pvc}
use kubevoltracker.Mysql.Update.{update_pv, update_pvc}
use kubevoltracker.Mysql.Delete.{delete_pod, delete_pv, delete_pvc}
use kubevoltracker.Mysql.Insert.{insert_pod, insert_pv, insert_pvc}
use kubevoltracker.Mysql.Insert.Sources.{insert_nfs, insert_iscsi}

-- Every method has the same fuel for its retries.
abbrev pub manager : Server → ℕ → DbManager Conn
manager server fuel = record {
  insert_pod = insert_pod server fuel;
  insert_pv = insert_pv fuel;
  insert_pvc = insert_pvc server fuel;
  insert_nfs = insert_nfs server;
  insert_iscsi = insert_iscsi server fuel;
  update_pv = update_pv fuel;
  update_pvc = update_pvc fuel;
  bind_pvc = bind_pvc fuel;
  delete_pod = delete_pod fuel;
  delete_pv = delete_pv fuel;
  delete_pvc = delete_pvc fuel;
  get_rv = get_rv server;
}
