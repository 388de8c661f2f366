-- ===== src/Mysql/Setup/Statements.antt =====
-- The handle and the statements of a mySQLManager, and the functions of the files of dbmanager/mysql that
-- prepare and close them. A prepared statement is a number.
use kubevoltracker.Base.{ℕ, suc, Bool, true, false, List, [], ◌∷◌, Option, none, some}
use kubevoltracker.DbManager.{Table}

abbrev pub Statements : Type 0
Statements = List (Table × ℕ)

-- The handle `db`: which of the coming pings and of the coming calls of Prepare succeed (past the end
-- all do), how many statements there are, which were closed, in order, and the seconds slept.
pub record Db : Type 0 where
  pub pings : List Bool
  pub prepares : List Bool
  pub statements : ℕ
  pub closed : List ℕ
  pub is_open : Bool
  pub slept : ℕ

pub record MySqlManager : Type 0 where
  pub db : Db
  -- a map is nil before its init function has made it
  pub insert_statements : Option Statements
  pub delete_statements : Option Statements
  pub bind_statements : Option Statements
  pub update_statements : Option Statements
  pub existence_queries : Option Statements
  pub last_id_query : Option ℕ
  pub late_pvc_pod_mount : Option ℕ
  pub fallback_pod_mount : Option ℕ
  pub add_pvc_pod_mount : Option ℕ
  pub clear_bad_pod_mount : Option ℕ
  pub update_rv_query : Option ℕ
  pub get_rv_query : Option ℕ

-- whether an init function gives no error
abbrev pub Init : Type 0
Init = MySqlManager → Bool × MySqlManager

abbrev pub init_done : Init
init_done m = (true, m)

abbrev pub prepare_by : List Bool → (ℕ → MySqlManager → MySqlManager) → Init → Init
prepare_by [] keep rest m =
    rest (keep m.db.statements (record m { db = record m.db { statements = suc m.db.statements } }))
prepare_by (true ∷ later) keep rest m = rest (
    keep m.db.statements
      (record m { db = record m.db { statements = suc m.db.statements; prepares = later } }))
prepare_by (false ∷ later) keep rest m = (false, record m { db = record m.db { prepares = later } })

-- `x, err = m.db.Prepare(...); if err != nil { return err }`, and what is done with the statement
abbrev pub prepare : (ℕ → MySqlManager → MySqlManager) → Init → Init
prepare keep rest m = prepare_by m.db.prepares keep rest m

-- an entry of a map that has been made
abbrev pub enter : Table → ℕ → Option Statements → Option Statements
enter table id none = none
enter table id (some rows) = some ((table, id) ∷ rows)

abbrev pub keep_insert : Table → ℕ → MySqlManager → MySqlManager
keep_insert table id m = record m { insert_statements = enter table id m.insert_statements }

abbrev pub init_insert_statements : Init
init_insert_statements m =
    prepare (keep_insert "pod")
      (prepare (keep_insert "pvc") (
        prepare (keep_insert "pv") (
          prepare (keep_insert "nfs") (
            prepare (keep_insert "iscsi") (
              prepare (keep_insert "pod_mount") (
                prepare (λ id m. record m { late_pvc_pod_mount = some id })
                  (prepare (λ id m. record m { fallback_pod_mount = some id })
                    (prepare (λ id m. record m { add_pvc_pod_mount = some id })
                      (prepare (keep_insert "container") init_done)))))))))
      (record m { insert_statements = some [] })

abbrev pub keep_delete : Table → ℕ → MySqlManager → MySqlManager
keep_delete table id m = record m { delete_statements = enter table id m.delete_statements }

abbrev pub init_delete_statements : Init
init_delete_statements m =
    prepare (keep_delete "pod")
      (prepare (keep_delete "pvc") (
        prepare (keep_delete "pv")
          (prepare (λ id m. record m { clear_bad_pod_mount = some id }) init_done)))
      (record m { delete_statements = some [] })

abbrev pub init_bind_statements : Init
init_bind_statements m =
    prepare (λ id m. record m { bind_statements = enter "pvc" id m.bind_statements }) init_done
      (record m { bind_statements = some [] })

abbrev pub keep_update : Table → ℕ → MySqlManager → MySqlManager
keep_update table id m = record m { update_statements = enter table id m.update_statements }

abbrev pub init_update_statements : Init
init_update_statements m =
    prepare (keep_update "pv") (prepare (keep_update "pvc") init_done)
      (record m { update_statements = some [] })

abbrev pub keep_existence : Table → ℕ → MySqlManager → MySqlManager
keep_existence table id m = record m { existence_queries = enter table id m.existence_queries }

abbrev pub init_existence_queries : Init
init_existence_queries m =
    prepare (keep_existence "nfs") (prepare (keep_existence "iscsi") init_done)
      (record m { existence_queries = some [] })

abbrev pub init_rv_queries : Init
init_rv_queries =
    prepare (λ id m. record m { update_rv_query = some id })
      (prepare (λ id m. record m { get_rv_query = some id }) init_done)

abbrev pub init_last_id_query : Init
init_last_id_query = prepare (λ id m. record m { last_id_query = some id }) init_done

abbrev pub close_statement : ℕ → MySqlManager → MySqlManager
close_statement id m = record m { db = record m.db { closed = id ∷ m.db.closed } }

abbrev pub close_if : Option ℕ → MySqlManager → MySqlManager
close_if none m = m
close_if (some id) m = close_statement id m

abbrev pub close_rows : Statements → MySqlManager → MySqlManager
close_rows [] m = m
close_rows ((table, id) ∷ rows) m = close_rows rows (close_statement id m)

abbrev pub close_map : Option Statements → MySqlManager → MySqlManager
close_map none m = m
close_map (some rows) m = close_rows rows m

abbrev pub destroy_insert_statements : MySqlManager → MySqlManager
destroy_insert_statements m = close_map m.insert_statements m

abbrev pub destroy_delete_statements : MySqlManager → MySqlManager
destroy_delete_statements m = close_map m.delete_statements m

abbrev pub destroy_bind_statements : MySqlManager → MySqlManager
destroy_bind_statements m = close_map m.bind_statements m

-- no caller
abbrev pub destroy_update_statements : MySqlManager → MySqlManager
destroy_update_statements m = close_map m.update_statements m

abbrev pub destroy_existence_queries : MySqlManager → MySqlManager
destroy_existence_queries m = close_map m.existence_queries m

abbrev pub destroy_rv_queries : MySqlManager → MySqlManager
destroy_rv_queries m = close_if m.get_rv_query (close_if m.update_rv_query m)
