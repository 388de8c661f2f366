-- ===== src/Mysql/Tests/Retries.antt =====
-- The theorems about `runTx`, at concrete transactions.
use kubevoltracker.Base.{◌≢◌, refl, some}
use kubevoltracker.Go.{returned}
use kubevoltracker.Mysql.Tests.{failing}
use kubevoltracker.Mysql.Delete.{delete_pv_rows}
use kubevoltracker.Mysql.Conn.{mysql, Tx, on_tables}
use kubevoltracker.Mysql.Tx.{run_tx_actual, run_tx, do_tx_statement}
use kubevoltracker.Mysql.Tx.Blocks.{changes, do_tx_statement-Refines}
use kubevoltracker.Mysql.Tx.Attempt.{Attempt, run_tx_actual-Attempt}
use kubevoltracker.Mysql.Tx.Retry.{Final, run_tx-Final, run_tx_returns_nil}

abbrev body : Tx (Unit {0})
body = do_tx_statement (on_tables (delete_pv_rows 30 "pv-1"))

run_tx_actual-Attempt_example :
    Attempt ⊥ failing (changes (delete_pv_rows 30 "pv-1")) (run_tx_actual body failing)
run_tx_actual-Attempt_example =
    run_tx_actual-Attempt ⊥ (changes (delete_pv_rows 30 "pv-1")) body failing
      (do_tx_statement-Refines (delete_pv_rows 30 "pv-1")) (refl, refl) (refl, (refl, tt))

run_tx-Final_example :
    Final ⊥ 2 failing (changes (delete_pv_rows 30 "pv-1")) (run_tx 2 body failing)
run_tx-Final_example =
    run_tx-Final ⊥ (changes (delete_pv_rows 30 "pv-1")) 2 body failing
      (do_tx_statement-Refines (delete_pv_rows 30 "pv-1")) (refl, refl) (refl, (refl, tt))

run_tx_returns_nil_example : (run_tx 2 body failing).0 ≢ returned (some (mysql 1213))
run_tx_returns_nil_example = run_tx_returns_nil 2 body failing (mysql 1213)
