-- ===== src/Mysql/Tx/Attempt.antt =====
-- One attempt of a transaction: all or nothing.
use kubevoltracker.Base.{
  ◌≤◌, ◌<◌, ◌≡◌, refl, ap, ◌⊎◌, true, false, List, [], ◌∷◌, Option, none, some, arith, length,
}
use kubevoltracker.Mysql.Conn.{
  Err, Conn, Result, ok, err, fatal, Tx, has_number, ◌>>◌, err_duplicate_key, call, with_faults,
}
use kubevoltracker.Mysql.Tx.{begin, commit, run_tx_actual, close_tx}
use kubevoltracker.Mysql.Tx.Refines.{Plain, Step, Refines, IsHonest}

-- No transaction is open.
abbrev pub IsIdle : Conn → Type 0
IsIdle c = (c.saved ≡ c.tables) × (c.in_tx ≡ false)

abbrev pub IsDuplicate : Result (Unit {0}) → Type 0
IsDuplicate (ok _) = ⊥
IsDuplicate (err e) = has_number err_duplicate_key e ≡ true
IsDuplicate fatal = ⊥

-- What one attempt that began at `c` leaves: all that the body means, or the tables of `c`.
abbrev pub Attempt : Type 0 → Conn → Plain (Unit {0}) → Result (Unit {0}) × Conn → Type 0
Attempt X c meaning (ok _, c') =
    ((meaning c.tables ≡ (ok tt, c'.tables))
      ⊎ (IsDuplicate (meaning c.tables).0 × (c'.tables ≡ c.tables)))
    × IsIdle c'
    × IsHonest c'.faults
Attempt X c meaning (err e, c') =
    (c'.tables ≡ c.tables)
    × IsIdle c'
    × IsHonest c'.faults
    × (length c'.faults ≤ length c.faults)
    × ((((meaning c.tables).0 ≡ err e) × (has_number err_duplicate_key e ≡ false))
        ⊎ (length c'.faults < length c.faults))
Attempt X c meaning (fatal, c') = X × (c'.tables ≡ c.tables)

-- The start of a transaction: nothing has changed yet.
abbrev Begun : Conn → Result (Unit {0}) × Conn → Type 0
Begun c (ok _, d) =
    (d.tables ≡ c.tables)
    × (d.saved ≡ c.tables)
    × (d.in_tx ≡ true)
    × IsHonest d.faults
    × (length d.faults ≤ length c.faults)
Begun c (err e, d) =
    (d.tables ≡ c.tables) × IsIdle d × IsHonest d.faults × (length d.faults < length c.faults)
Begun c (fatal, d) = ⊥

abbrev start : Tx (Unit {0})
start c = (ok tt, record c { saved = c.tables; in_tx = true })

abbrev finish_commit : Tx (Unit {0})
finish_commit c = (ok tt, record c { saved = c.tables; in_tx = false })

start-Begun :
    (c : Conn) (fs : List (Option Err))
    → IsIdle c
    → IsHonest fs
    → c.faults ≡ fs
    → Begun c (with_faults fs start c)
start-Begun c [] i h e = rw e (refl, refl, refl, tt, omega arith)
start-Begun c (none ∷ fs) i h e = rw e (refl, refl, refl, h, omega arith)
start-Begun c (some f ∷ fs) i h e = ground (arith, ap length e)

begin-Begun : (c : Conn) → IsIdle c → IsHonest c.faults → Begun c (begin c)
unfolding call
begin-Begun c i h = start-Begun c c.faults i h refl

-- The end of a transaction whose body succeeded.
abbrev Committed : Conn → Result (Unit {0}) × Conn → Type 0
Committed c (ok _, d) = (d.tables ≡ c.tables) × IsIdle d × IsHonest d.faults
Committed c (err e, d) =
    (d.tables ≡ c.saved) × IsIdle d × IsHonest d.faults × (length d.faults < length c.faults)
Committed c (fatal, d) = ⊥

abbrev committing : List (Option Err) → Tx (Unit {0})
committing fs c =
    let (r, c') = with_faults fs finish_commit c in
    elim r [
      | ok _ ↦ (ok tt, c')
      | err e ↦ (err e, record c' { tables = c'.saved; in_tx = false })
      | fatal ↦ (fatal, c')
    ]

committing-Committed :
    (c : Conn) (fs : List (Option Err))
    → IsHonest fs
    → c.faults ≡ fs
    → Committed c (committing fs c)
committing-Committed c [] h e = rw e (refl, (refl, refl), tt)
committing-Committed c (none ∷ fs) h e = (refl, (refl, refl), h)
committing-Committed c (some f ∷ fs) h e = ground (arith, ap length e)

commit-Committed : (c : Conn) → IsHonest c.faults → Committed c (commit c)
unfolding call
commit-Committed c h = committing-Committed c c.faults h refl

module _ (X : Type 0) (meaning : Plain (Unit {0})) where
  -- `c` is where the attempt began, `d` where its body began, and `b` where the body ended.
  Committed-Attempt :
      (c d b : Conn) (out : Result (Unit {0}) × Conn)
      → Begun c (ok tt, d)
      → Step X d meaning (ok tt, b)
      → Committed b out
      → Attempt X c meaning out
  Committed-Attempt c d b (ok _, e) g s k = ground (arith, g.0, s.0)
  Committed-Attempt c d b (err x, e) g s k = ground arith
  Committed-Attempt c d b (fatal, e) g s k = absurd k

  close_tx-Attempt :
      (c d : Conn) (out : Result (Unit {0}) × Conn)
      → Begun c (ok tt, d)
      → Step X d meaning out
      → Attempt X c meaning (let (r, b) = out in close_tx r b)
  unfolding close_tx
  close_tx-Attempt c d (ok _, b) g s =
      Committed-Attempt c d b (commit b) g s (commit-Committed b s.4)
  close_tx-Attempt c d (err e, b) g s = ground arith
  close_tx-Attempt c d (fatal, b) g s = ground arith

  run-Attempt :
      (m : Tx (Unit {0})) (c : Conn) (out : Result (Unit {0}) × Conn)
      → Refines X meaning m
      → Begun c out
      → Attempt X c meaning (((λ (_ : Conn). out) >> λ d. (let (r, b) = m d in close_tx r b)) c)
  run-Attempt m c (ok _, d) r g = close_tx-Attempt c d (m d) g (r.at d g.2 g.3)
  run-Attempt m c (err e, d) r g = ground arith
  run-Attempt m c (fatal, d) r g = absurd g

  -- `runTxActual`, called with no transaction open, of a body that does what its plain meaning says or
  -- fails: it has done all that the body means if it gives no error, unless the body meets a duplicate
  -- key, and else has left the tables as they were. No transaction is open after it, if the process
  -- goes on. No failure on the schedule pretends to be a duplicate key.
  pub run_tx_actual-Attempt :
      (m : Tx (Unit {0})) (c : Conn)
      → Refines X meaning m
      → IsIdle c
      → IsHonest c.faults
      → Attempt X c meaning (run_tx_actual m c)
  unfolding run_tx_actual
  run_tx_actual-Attempt m c r i h = run-Attempt m c (begin c) r (begin-Begun c i h)
