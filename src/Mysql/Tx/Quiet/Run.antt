-- ===== src/Mysql/Tx/Quiet/Run.antt =====
-- A whole transaction in which the server fails no call.
use mathlib.Core.Path.{subst}
use kubevoltracker.Base.{ℕ, suc, ◌≡◌, refl, sym, ap, ◌∙◌, true, false, [], none, if◌then◌else◌}
use kubevoltracker.Go.{Outcome, returned, exited}
use kubevoltracker.Mysql.Schema.{Tables}
use kubevoltracker.Mysql.Conn.{
  mysql, err_duplicate_key, Conn, Result, ok, err, fatal, Tx, call, has_number,
}
use kubevoltracker.Mysql.Tx.{run_tx_actual, close_tx, run_tx, run_tx_loop, or_exit, pause}
use kubevoltracker.Mysql.Tx.Refines.{Plain}
use kubevoltracker.Mysql.Tx.Quiet.{Computes, at_tables}

abbrev pub quiet : Conn → Conn
quiet c = record c { faults = [] }

pub quiet_lem : (c : Conn) → c.faults ≡ [] → quiet c ≡ c
quiet_lem c e = ap (λ fs. record c { faults = fs }) (sym e)

-- The connection after a transaction, with the tables `t`.
abbrev pub after_tx : Conn → Tables → Conn
after_tx c t = record c { tables = t; saved = t; in_tx = false; faults = [] }

-- How a quiet transaction ends, by the meaning of its body.
abbrev pub closed : Conn → Result (Unit {0}) × Tables → Result (Unit {0}) × Conn
closed c (ok _, t) = (ok tt, after_tx c t)
closed c (err e, t) =
    if has_number err_duplicate_key e
    then (ok tt, after_tx c c.tables)
    else (err e, after_tx c c.tables)
closed c (fatal, t) = (fatal, after_tx c c.tables)

module _ (meaning : Plain (Unit {0})) (m : Tx (Unit {0})) (computes : Computes meaning m) where
  close_quiet :
      (c : Conn) (out : Result (Unit {0}) × Tables)
      → close_tx out.0 (at_tables (record c { saved = c.tables }) out.1) ≡ closed c out
  unfolding close_tx call
  close_quiet c (ok _, t) = refl
  close_quiet c (err e, t) = refl
  close_quiet c (fatal, t) = refl

  pub run_tx_actual-quiet : (c : Conn) → run_tx_actual m (quiet c) ≡ closed c (meaning c.tables)
  unfolding run_tx_actual call
  run_tx_actual-quiet c =
      ap (λ (out : Result (Unit {0}) × Conn). close_tx out.0 out.1)
        (computes.at (record c { saved = c.tables }) c.tables)
      ∙ close_quiet c (meaning c.tables)

  -- what the loop makes of the first attempt
  abbrev after_first : ℕ → Result (Unit {0}) × Conn → Outcome (Unit {0}) × Conn
  after_first fuel out =
      or_exit
        (λ _.
          (let (r, d) = out in
            elim r [
              | ok _ ↦ run_tx_loop fuel true none m d
              | err e ↦ run_tx_loop fuel false none m (pause e d)
              | fatal ↦ (exited, d)
            ]))
        out.1

  first_attempt :
      (fuel : ℕ) (c : Conn)
      → or_exit (run_tx (suc fuel) m) (quiet c) ≡ after_first fuel (closed c (meaning c.tables))
  unfolding run_tx run_tx_loop
  first_attempt fuel c = ap (after_first fuel) (run_tx_actual-quiet c)

  -- The body succeeds: the method returns with what the body means.
  pub method_quiet :
      (fuel : ℕ) (c : Conn) (t : Tables)
      → c.faults ≡ []
      → meaning c.tables ≡ (ok tt, t)
      → or_exit (run_tx (suc fuel) m) c ≡ (returned tt, after_tx c t)
  unfolding run_tx_loop
  method_quiet fuel c t f e =
      subst (λ (b : Conn). or_exit (run_tx (suc fuel) m) b ≡ (returned tt, after_tx c t))
        (quiet_lem c f) (first_attempt fuel c ∙ ap (λ out. after_first fuel (closed c out)) e)

  -- The body meets a duplicate key: the method returns, and the tables are as they were.
  pub method_quiet_duplicate :
      (fuel : ℕ) (c : Conn) (t : Tables)
      → c.faults ≡ []
      → meaning c.tables ≡ (err (mysql err_duplicate_key), t)
      → or_exit (run_tx (suc fuel) m) c ≡ (returned tt, after_tx c c.tables)
  unfolding run_tx_loop
  method_quiet_duplicate fuel c t f e =
      subst (λ (b : Conn). or_exit (run_tx (suc fuel) m) b ≡ (returned tt, after_tx c c.tables))
        (quiet_lem c f) (first_attempt fuel c ∙ ap (λ out. after_first fuel (closed c out)) e)
