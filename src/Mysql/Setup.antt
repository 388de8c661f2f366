-- ===== src/Mysql/Setup.antt =====
-- The start and the end of a mySQLManager: `NewParams`, `ValidateConnection` and `Destroy` of
-- dbmanager/mysql/mysql.go. The statements are in `Statements`.
mod Statements
pub mod Laws
use Prim.Native.String.{◌++◌}
use kubevoltracker.Base.{
  ℕ, zero, suc, ◌+◌, ◌-◌, String, Bool, true, false, List, [], ◌∷◌, Option, none, some, ◌==◌,
  if◌then◌else◌,
}
use kubevoltracker.Go.{Go, Outcome, returned, exited, panicked, hung}
pub use Statements.*

-- `destroyUpdateStatements` is not called, and the last two statements are closed twice.
unfoldable pub destroy : MySqlManager → MySqlManager
destroy m =
    let m1 = destroy_bind_statements (destroy_delete_statements (destroy_insert_statements m)) in
    let m2 = destroy_rv_queries (destroy_existence_queries m1) in
    let m3 =
      close_if m2.fallback_pod_mount
        (close_if m2.late_pvc_pod_mount (close_if m2.last_id_query m2)) in
    let m4 = close_if m3.clear_bad_pod_mount (close_if m3.add_pvc_pod_mount m3) in
    let m5 = close_if m4.get_rv_query (close_if m4.update_rv_query m4) in
    record m5 { db = record m5.db { is_open = false } }

abbrev pub max_tries : ℕ
max_tries = 5

-- `m.db.Ping()`
abbrev pub ping_by : List Bool → Db → Bool × Db
ping_by [] db = (true, db)
ping_by (b ∷ later) db = (b, record db { pings = later })

-- The tries that are left of `max_tries`; the sleep is as long as the number of tries made.
unfoldable pub validate_from : ℕ → Db → Bool × Db
validate_from zero db = (false, db)
validate_from (suc left) db =
    let (answered, d) =
      ping_by db.pings (record db { slept = db.slept + (max_tries - suc left) }) in
    elim answered [ true ↦ (true, d) | false ↦ validate_from left d ]

-- `ValidateConnection`: whether it gives no error
unfoldable pub validate_connection : Db → Bool × Db
unfolding validate_from
validate_connection db = validate_from max_tries db

-- an init function, whose error ends the process
abbrev pub or_end : Init → Go MySqlManager (Unit {0}) → Go MySqlManager (Unit {0})
or_end init rest m = let (ok, d) = init m in elim ok [ true ↦ rest d | false ↦ (exited, d) ]

abbrev pub validate : Init
validate m = let (ok, d) = validate_connection m.db in (ok, record m { db = d })

abbrev pub all_done : Go MySqlManager (Unit {0})
all_done m = (returned tt, m)

-- `m := new(mySQLManager)` with its handle: all maps are nil
abbrev pub unprepared : Db → MySqlManager
unprepared d = record {
  db = d;
  insert_statements = none;
  delete_statements = none;
  bind_statements = none;
  update_statements = none;
  existence_queries = none;
  last_id_query = none;
  late_pvc_pod_mount = none;
  fallback_pod_mount = none;
  add_pvc_pod_mount = none;
  clear_bad_pod_mount = none;
  update_rv_query = none;
  get_rv_query = none;
}

-- what `NewParams` does once the handle is there
unfoldable pub set_up : Go MySqlManager (Unit {0})
unfolding validate_connection
set_up = or_end validate (
    or_end init_insert_statements (
      or_end init_delete_statements (
        or_end init_bind_statements (
          or_end init_update_statements (
            or_end init_existence_queries
              (or_end init_rv_queries (or_end init_last_id_query all_done)))))))

abbrev pub the_manager : Outcome (Unit {0}) × MySqlManager → Outcome MySqlManager
the_manager (returned _, m) = returned m
the_manager (exited, m) = exited
the_manager (panicked, m) = panicked
the_manager (hung, m) = hung

-- the string that sql.Open is called with
unfoldable pub connection_string : String → String → String → String → String → String
connection_string username password db_addr db_name params =
    let connection =
      username ++ (":" ++ (password ++ ("@tcp(" ++ (db_addr ++ (":3306)/" ++ db_name))))) in
    if params == "" then connection else connection ++ ("?" ++ params)

-- an error of sql.Open ends the process
abbrev pub with_handle : Option Db → Outcome MySqlManager
with_handle none = exited
with_handle (some db) = the_manager (set_up (unprepared db))

-- `NewParams`; `open_db` is what sql.Open gives for a string
unfoldable pub new_params :
    (String → Option Db) → String → String → String → String → String → Outcome MySqlManager
unfolding connection_string set_up
new_params open_db username password db_addr db_name params =
    with_handle (open_db (connection_string username password db_addr db_name params))

unfoldable pub new_for_db :
    (String → Option Db) → String → String → String → String → Outcome MySqlManager
unfolding new_params
new_for_db open_db username password db_addr db_name =
    new_params open_db username password db_addr db_name "parseTime=true"

unfoldable pub new : (String → Option Db) → String → String → String → Outcome MySqlManager
unfolding new_for_db
new open_db username password db_addr =
    new_for_db open_db username password db_addr "kubevoltracker"
