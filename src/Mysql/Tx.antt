-- ===== src/Mysql/Tx.antt =====
-- dbmanager/mysql/mysql.go: transactions and their retries, and the helpers that run a statement.
pub mod Refines
pub mod Attempt
pub mod Retry
pub mod Total
pub mod Blocks
pub mod Quiet
use kubevoltracker.Base.{
  ℕ, zero, suc, ◌+◌, String, Bool, true, false, not, ◌&&◌, Option, none, some, if◌then◌else◌,
}
use kubevoltracker.Go.{Outcome, returned, exited, panicked, hung, Go}
use kubevoltracker.Mysql.Conn.{
  Err, Conn, Tx, Result, ok, err, fatal, ◌>>=◌, ◌>>◌, pure, wrap, call, has_number, deadlock_err_no,
  err_duplicate_key,
}

-- `m.db.Begin()`
abbrev pub begin : Tx (Unit {0})
begin = call (λ c. (ok tt, record c { saved = c.tables; in_tx = true }))

-- `tx.Rollback()`, and what the server does for a client that is gone
abbrev pub rollback : Conn → Conn
rollback c = record c { tables = c.saved; in_tx = false }

-- A commit that fails leaves the transaction rolled back.
abbrev pub commit : Tx (Unit {0})
commit c =
    let (r, c') = call (λ d. (ok tt, record d { saved = d.tables; in_tx = false })) c in
    elim r [ ok _ ↦ (ok tt, c') | err e ↦ (err e, rollback c') | fatal ↦ (fatal, c') ]

-- the deferred function of `runTxActual`; `log.Fatal` ends the process in the midst of the
-- transaction, and the server rolls it back
close_tx : Result (Unit {0}) → Tx (Unit {0})
close_tx (ok _) c = commit c
close_tx (err e) c =
    if has_number err_duplicate_key e then (ok tt, rollback c) else (err e, rollback c)
close_tx fatal c = (fatal, rollback c)

unfoldable pub run_tx_actual : Tx (Unit {0}) → Tx (Unit {0})
unfolding close_tx
run_tx_actual tx_func = do begin; λ c. (let (r, c') = tx_func c in close_tx r c')

-- the sleep after a deadlock
abbrev pub pause : Err → Conn → Conn
pause e c = if has_number deadlock_err_no e then record c { slept = c.slept + 50 } else c

-- `for !success && err == nil { err := m.runTxActual(txFunc); ... }`. The `err` that the loop
-- declares hides the result `err`, which keeps the value that it had; it is passed on here as it is.
unfoldable pub run_tx_loop : ℕ → Bool → Option Err → Tx (Unit {0}) → Go Conn (Option Err)
run_tx_loop fuel true outer tx_func c = (returned outer, c)
run_tx_loop fuel false (some e) tx_func c = (returned (some e), c)
run_tx_loop zero false none tx_func c = (hung, c)
run_tx_loop (suc fuel) false none tx_func c =
    let (r, c') = run_tx_actual tx_func c in
    elim r [
      | ok _ ↦ run_tx_loop fuel true none tx_func c'
      | err e ↦ run_tx_loop fuel false none tx_func (pause e c')
      | fatal ↦ (exited, c')
    ]

unfoldable pub run_tx : ℕ → Tx (Unit {0}) → Go Conn (Option Err)
unfolding run_tx_loop
run_tx fuel tx_func c = run_tx_loop fuel false none tx_func c

-- `result.RowsAffected()`
abbrev pub rows_affected : ℕ → Tx ℕ
rows_affected rows = wrap "Unable to retrieve number of rows affected" (call (pure rows))

-- A statement is an action whose result is the number of rows that it affected.
unfoldable pub do_tx_statement_check_rows : Tx ℕ → Tx ℕ
do_tx_statement_check_rows statement = do rows ← call statement; rows_affected rows

unfoldable pub do_tx_statement : Tx ℕ → Tx (Unit {0})
unfolding do_tx_statement_check_rows
do_tx_statement statement = do rows ← do_tx_statement_check_rows statement; pure tt

-- `err = m.runTx(...); if err != nil { log.Fatal(...) }`
abbrev pub or_exit : Go Conn (Option Err) → Go Conn (Unit {0})
or_exit m c =
    let (r, c') = m c in
    elim r [
      | returned none ↦ (returned tt, c')
      | returned (some _) ↦ (exited, c')
      | exited ↦ (exited, c')
      | panicked ↦ (panicked, c')
      | hung ↦ (hung, c')
    ]
