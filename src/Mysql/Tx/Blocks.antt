-- ===== src/Mysql/Tx/Blocks.antt =====
-- The helpers that run a statement, and what they mean for the tables.
use kubevoltracker.Base.{ℕ, String, Bool, true, false, refl, arith, if◌then◌else◌}
use kubevoltracker.Mysql.Schema.{Tables}
use kubevoltracker.Mysql.Conn.{Conn, ok, Tx, ◌>>◌, pure, call, on_tables}
use kubevoltracker.Mysql.Tx.{do_tx_statement, do_tx_statement_check_rows, rows_affected}
use kubevoltracker.Mysql.Rv.{update_rv, set_rv}
use kubevoltracker.Mysql.Tx.Refines.{
  Plain, Refines, IsCalm, runs, gives, then_plain, Refines-pure, Refines-call, Refines-wrap,
  Refines-bind,
}

-- a statement whose count of rows is not read
abbrev pub changes : (Tables → ℕ × Tables) → Plain (Unit {0})
changes f t = (ok tt, (f t).1)

-- a statement that may fail, and whose count of rows is not read
abbrev pub counted : Plain ℕ → Plain (Unit {0})
counted meaning = then_plain (then_plain meaning gives) (λ _. gives tt)

module _ {X : Type 0} where
  on_tables-Refines : (f : Tables → ℕ × Tables) → Refines X (runs f) (on_tables f)
  on_tables-Refines f = record { at = λ c i h. (refl, refl, i, omega arith, h) }

  pub statement-Refines : (f : Tables → ℕ × Tables) → Refines X (runs f) (call (on_tables f))
  statement-Refines f = Refines-call X (runs f) (on_tables f) (on_tables-Refines f) (λ d. tt)

  pub ping-Refines : (rows : ℕ) → Refines X (gives rows) (call (pure rows))
  ping-Refines rows = Refines-call X (gives rows) (pure rows) (Refines-pure rows) (λ d. tt)

  pub rows_affected-Refines : (rows : ℕ) → Refines X (gives rows) (rows_affected rows)
  rows_affected-Refines rows = Refines-wrap X (gives rows) _ (call (pure rows)) (ping-Refines rows)

  -- a statement of any form
  pub do_tx_statement-of :
      (meaning : Plain ℕ) (m : Tx ℕ)
      → Refines X meaning m
      → ((d : Conn) → IsCalm (m d))
      → Refines X (counted meaning) (do_tx_statement m)
  unfolding do_tx_statement do_tx_statement_check_rows
  do_tx_statement-of meaning m r q =
      Refines-bind X (then_plain meaning gives) (λ _. gives tt) (do_tx_statement_check_rows m)
        (λ _. pure tt)
        (Refines-bind X meaning gives (call m) rows_affected (Refines-call X meaning m r q)
          rows_affected-Refines)
        (λ _. Refines-pure tt)

  pub check_rows-Refines :
      (f : Tables → ℕ × Tables) → Refines X (runs f) (do_tx_statement_check_rows (on_tables f))
  unfolding do_tx_statement_check_rows
  check_rows-Refines f =
      Refines-bind X (runs f) gives (call (on_tables f)) rows_affected (statement-Refines f)
        rows_affected-Refines

  pub do_tx_statement-Refines :
      (f : Tables → ℕ × Tables) → Refines X (changes f) (do_tx_statement (on_tables f))
  unfolding do_tx_statement
  do_tx_statement-Refines f =
      Refines-bind X (runs f) (λ _. gives tt) _ (λ _. pure tt) (check_rows-Refines f)
        (λ _. Refines-pure tt)

  pub update_rv-Refines :
      (resource namespace rv : String)
      → Refines X (changes (set_rv resource namespace rv)) (update_rv resource namespace rv)
  unfolding update_rv
  update_rv-Refines resource namespace rv =
      Refines-bind X (runs (set_rv resource namespace rv)) (λ _. gives tt) _ _
        (Refines-wrap X (runs (set_rv resource namespace rv)) _ _
          (statement-Refines (set_rv resource namespace rv)))
        (λ n. Refines-bind X (gives n) (λ _. gives tt) _ _ (ping-Refines n) (λ _. Refines-pure tt))

  pub Refines-if :
      {A : Type 0} (b : Bool) {f g : Plain A} {m n : Tx A}
      → Refines X f m
      → Refines X g n
      → Refines X (if b then f else g) (if b then m else n)
  Refines-if true r s = r
  Refines-if false r s = s

  -- two steps, of which the first gives nothing back
  pub Refines-seq :
      {B : Type 0} {f : Plain (Unit {0})} {g : Plain B} {m : Tx (Unit {0})} {n : Tx B}
      → Refines X f m
      → Refines X g n
      → Refines X (then_plain f (λ _. g)) (m >> n)
  Refines-seq {f = f} {g = g} {m = m} {n = n} r s = Refines-bind X f (λ _. g) m (λ _. n) r (λ _. s)
