-- ===== src/Mysql/Tx/Retry.antt =====
-- What the retry loop of `runTx` guarantees, whatever calls the server fails.
use kubevoltracker.Base.{
  ◌≢◌, ap, some, ℕ, zero, suc, ◌≤◌, ◌≡◌, refl, ◌⊎◌, inl, true, false, Option, none, arith, length,
}
use kubevoltracker.Go.{Outcome, returned, exited, panicked, hung}
use kubevoltracker.Mysql.Conn.{Err, Conn, Result, ok, err, fatal, Tx, has_number, err_duplicate_key}
use kubevoltracker.Mysql.Tx.{run_tx_actual, run_tx_loop, run_tx, pause}
use kubevoltracker.Mysql.Tx.Refines.{Plain, Refines, IsHonest}
use kubevoltracker.Mysql.Tx.Attempt.{IsIdle, IsDuplicate, Attempt, run_tx_actual-Attempt}

-- The body fails by itself, for another reason than a duplicate key.
abbrev pub IsStuck : Result (Unit {0}) → Type 0
IsStuck (ok _) = ⊥
IsStuck (err e) = has_number err_duplicate_key e ≡ false
IsStuck fatal = ⊥

-- How a call of `runTx` that began at `c` ends.
abbrev pub Final : Type 0 → ℕ → Conn → Plain (Unit {0}) → Outcome (Option Err) × Conn → Type 0
Final X fuel c meaning (returned outer, c') =
    (outer ≡ none)
    × ((meaning c.tables ≡ (ok tt, c'.tables))
        ⊎ (IsDuplicate (meaning c.tables).0 × (c'.tables ≡ c.tables)))
    × IsIdle c'
    × IsHonest c'.faults
Final X fuel c meaning (exited, c') = X × (c'.tables ≡ c.tables)
Final X fuel c meaning (panicked, c') = ⊥
Final X fuel c meaning (hung, c') =
    (c'.tables ≡ c.tables) × IsIdle c' × ((fuel ≤ length c.faults) ⊎ IsStuck (meaning c.tables).0)

module _ (X : Type 0) (meaning : Plain (Unit {0})) where
  -- The rest of the loop after a failed attempt that ended at `d`.
  retried-Final :
      (fuel : ℕ) (c d : Conn) (e : Err) (out : Outcome (Option Err) × Conn)
      → Attempt X c meaning (err e, d)
      → Final X fuel (pause e d) meaning out
      → Final X (suc fuel) c meaning out
  retried-Final fuel c d e (returned o, b) a f = ground (arith, a.0)
  retried-Final fuel c d e (exited, b) a f = ground arith
  retried-Final fuel c d e (panicked, b) a f = f
  retried-Final fuel c d e (hung, b) a f = ground arith

  -- The loop goes on as the attempt's outcome says.
  after-Final :
      (fuel : ℕ) (m : Tx (Unit {0})) (c : Conn) (out : Result (Unit {0}) × Conn)
      → Attempt X c meaning out
      → ((d : Conn)
          → IsIdle d
          → IsHonest d.faults
          → Final X fuel d meaning (run_tx_loop fuel false none m d))
      → Final X (suc fuel) c meaning (
          let (r, d) = out in
          elim r [
            | ok _ ↦ run_tx_loop fuel true none m d
            | err e ↦ run_tx_loop fuel false none m (pause e d)
            | fatal ↦ (exited, d)
          ])
  unfolding run_tx_loop
  after-Final fuel m c (ok _, d) a rest = (refl, a.0, a.1, a.2)
  after-Final fuel m c (err e, d) a rest =
      retried-Final fuel c d e (run_tx_loop fuel false none m (pause e d)) a
        (rest (pause e d) (ground arith) (ground arith))
  after-Final fuel m c (fatal, d) a rest = a

  loop-Final :
      (fuel : ℕ) (m : Tx (Unit {0})) (c : Conn)
      → Refines X meaning m
      → IsIdle c
      → IsHonest c.faults
      → Final X fuel c meaning (run_tx_loop fuel false none m c)
  unfolding run_tx_loop
  loop-Final zero m c r i h = (refl, i, inl (omega arith))
  loop-Final (suc fuel) m c r i h =
      after-Final fuel m c (run_tx_actual m c) (run_tx_actual-Attempt X meaning m c r i h)
        (λ d j k. loop-Final fuel m d r j k)

  -- `runTx`, called with no transaction open, of a body that does what its plain meaning says or
  -- fails, whatever calls fail, of which none pretends to be a duplicate key. If it returns, it gives no
  -- error, and it has done all that the body means, or nothing if the body meets a duplicate key. If
  -- the process ends or the attempts run out, the tables are as they were. They do not run out, given
  -- one attempt more than there are entries on the schedule, unless the body fails by itself.
  pub run_tx-Final :
      (fuel : ℕ) (m : Tx (Unit {0})) (c : Conn)
      → Refines X meaning m
      → IsIdle c
      → IsHonest c.faults
      → Final X fuel c meaning (run_tx fuel m c)
  unfolding run_tx
  run_tx-Final fuel m c r i h = loop-Final fuel m c r i h

after_returns_nil :
    (fuel : ℕ) (m : Tx (Unit {0})) (d : Conn) (outer : Option Err) (out : Result (Unit {0}) × Conn)
    → ((b : Conn) → run_tx_loop fuel false none m b ≡ (returned outer, d) → outer ≡ none)
    → (let (r, b) = out in
        elim r [
          | ok _ ↦ run_tx_loop fuel true none m b
          | err x ↦ run_tx_loop fuel false none m (pause x b)
          | fatal ↦ (exited, b)
        ])
      ≡ (returned outer, d)
    → outer ≡ none
unfolding run_tx_loop
after_returns_nil fuel m d outer (ok _, b) rest p = ground arith
after_returns_nil fuel m d outer (err x, b) rest p = rest (pause x b) p
after_returns_nil fuel m d outer (fatal, b) rest p = ground arith

no_error : (e : Err) → some e ≢ none
no_error e q = ground arith

loop_returns_nil :
    (fuel : ℕ) (m : Tx (Unit {0})) (c d : Conn) (outer : Option Err)
    → run_tx_loop fuel false none m c ≡ (returned outer, d)
    → outer ≡ none
unfolding run_tx_loop
loop_returns_nil zero m c d outer e = ground arith
loop_returns_nil (suc fuel) m c d outer e =
    after_returns_nil fuel m d outer (run_tx_actual m c)
      (λ b p. loop_returns_nil fuel m b d outer p) e

-- Whatever the body does and whatever calls fail, `runTx` returns no error: what its callers do on an
-- error is never reached.
pub run_tx_returns_nil :
    (fuel : ℕ) (m : Tx (Unit {0})) (c : Conn) (e : Err) → (run_tx fuel m c).0 ≢ returned (some e)
unfolding run_tx
run_tx_returns_nil fuel m c e q =
    let d = (run_tx_loop fuel false none m c).1 in
    no_error e (loop_returns_nil fuel m c d (some e) (ap (λ (o : Outcome (Option Err)). (o, d)) q))
