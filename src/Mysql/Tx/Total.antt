-- ===== src/Mysql/Tx/Total.antt =====
-- A method whose transaction never fails by itself.
use mathlib.Core.Path.{subst}
use kubevoltracker.Base.{
  ℕ, ◌<◌, ◌≡◌, refl, sym, ◌⊎◌, inl, inr, ◌≤◌, none, some, Option, arith, length,
}
use kubevoltracker.Go.{Outcome, returned, exited, panicked, hung}
use kubevoltracker.Mysql.Schema.{Tables}
use kubevoltracker.Mysql.Conn.{Err, Conn, Result, ok, err, fatal, Tx}
use kubevoltracker.Mysql.Tx.{run_tx, or_exit}
use kubevoltracker.Mysql.Tx.Refines.{Plain, Refines, IsHonest}
use kubevoltracker.Mysql.Tx.Attempt.{IsIdle, IsDuplicate}
use kubevoltracker.Mysql.Tx.Retry.{IsStuck, Final, run_tx-Final}

-- The call has returned, with `t` for the tables and no transaction open.
abbrev pub Does : Outcome (Unit {0}) × Conn → Tables → Type 0
Does out t = (out.0 ≡ returned tt) × (out.1.tables ≡ t) × IsIdle out.1

-- The call has returned, the tables have the property, and no transaction is open.
abbrev pub Settles : Outcome (Unit {0}) × Conn → (Tables → Type 0) → Type 0
Settles out P = (out.0 ≡ returned tt) × P out.1.tables × IsIdle out.1

module _ (meaning : Plain (Unit {0})) where
  Final-Does :
      (fuel : ℕ) (c : Conn) (t : Tables) (out : Outcome (Option Err) × Conn)
      → Final ⊥ fuel c meaning out
      → meaning c.tables ≡ (ok tt, t)
      → length c.faults < fuel
      → Does (or_exit (λ _. out) c) t
  Final-Does fuel c t (returned none, d) f e l = ground (arith, e)
  Final-Does fuel c t (returned (some x), d) f e l = ground (arith, e)
  Final-Does fuel c t (exited, d) f e l = absurd f.0
  Final-Does fuel c t (panicked, d) f e l = absurd f
  Final-Does fuel c t (hung, d) f e l = ground (arith, e)

  -- However many calls fail, the method returns with the tables of its plain meaning.
  pub run_tx-Does :
      (fuel : ℕ) (m : Tx (Unit {0})) (c : Conn) (t : Tables)
      → Refines ⊥ meaning m
      → meaning c.tables ≡ (ok tt, t)
      → IsIdle c
      → IsHonest c.faults
      → length c.faults < fuel
      → Does (or_exit (run_tx fuel m) c) t
  run_tx-Does fuel m c t r e i h l =
      Final-Does fuel c t (run_tx fuel m c) (run_tx-Final ⊥ meaning fuel m c r i h) e l

  -- The same, with a property of the tables.
  pub run_tx_settles :
      (P : Tables → Type 0) (fuel : ℕ) (m : Tx (Unit {0})) (c : Conn) (t : Tables)
      → Refines ⊥ meaning m
      → meaning c.tables ≡ (ok tt, t)
      → P t
      → IsIdle c
      → IsHonest c.faults
      → length c.faults < fuel
      → Settles (or_exit (run_tx fuel m) c) P
  run_tx_settles P fuel m c t r e p i h l =
      let d = run_tx-Does fuel m c t r e i h l in (d.0, subst P (sym d.1) p, d.2)

stuck_is_not_done :
    (r : Result (Unit {0}) × Tables) (t : Tables) {P : Type 0}
    → (r ≡ (ok tt, t)) ⊎ (IsDuplicate r.0 × P)
    → IsStuck r.0
    → ⊥
stuck_is_not_done (ok _, u) t f s = s
stuck_is_not_done (err e, u) t f s = ground arith
stuck_is_not_done (fatal, u) t f s = s

module _ (meaning : Plain (Unit {0})) where
  Final-hangs :
      (fuel : ℕ) (c : Conn) (out : Outcome (Option Err) × Conn)
      → Final ⊥ fuel c meaning out
      → IsStuck (meaning c.tables).0
      → let (r, d) = or_exit (λ _. out) c in (r ≡ hung) × (d.tables ≡ c.tables)
  Final-hangs fuel c (returned o, d) f s =
      absurd (stuck_is_not_done (meaning c.tables) d.tables f.1 s)
  Final-hangs fuel c (exited, d) f s = absurd f.0
  Final-hangs fuel c (panicked, d) f s = absurd f
  Final-hangs fuel c (hung, d) f s = (refl, f.0)

  -- A body that fails by itself is tried again for ever.
  pub run_tx_hangs :
      (fuel : ℕ) (m : Tx (Unit {0})) (c : Conn)
      → Refines ⊥ meaning m
      → IsStuck (meaning c.tables).0
      → IsIdle c
      → IsHonest c.faults
      → let (r, d) = or_exit (run_tx fuel m) c in (r ≡ hung) × (d.tables ≡ c.tables)
  run_tx_hangs fuel m c r s i h =
      Final-hangs fuel c (run_tx fuel m c) (run_tx-Final ⊥ meaning fuel m c r i h) s

duplicate_is_undone :
    (r : Result (Unit {0}) × Tables) (t : Tables) {P : Type 0}
    → (r ≡ (ok tt, t)) ⊎ (IsDuplicate r.0 × P)
    → IsDuplicate r.0
    → P
duplicate_is_undone (ok _, u) t f s = absurd s
duplicate_is_undone (err e, u) t (inl f) s = ground arith
duplicate_is_undone (err e, u) t (inr f) s = f.1
duplicate_is_undone (fatal, u) t f s = absurd s

duplicate_is_not_stuck :
    (fuel : ℕ) (c : Conn) (r : Result (Unit {0}))
    → ((fuel ≤ length c.faults) ⊎ IsStuck r)
    → IsDuplicate r
    → length c.faults < fuel
    → ⊥
duplicate_is_not_stuck fuel c (ok _) f s l = s
duplicate_is_not_stuck fuel c (err e) f s l = ground arith
duplicate_is_not_stuck fuel c fatal f s l = s

fatal_is_not_done :
    (r : Result (Unit {0}) × Tables) (t : Tables) {P : Type 0}
    → (r ≡ (ok tt, t)) ⊎ (IsDuplicate r.0 × P)
    → r.0 ≡ fatal
    → ⊥
fatal_is_not_done (ok _, u) t f s = cc
fatal_is_not_done (err e, u) t f s = cc
fatal_is_not_done (fatal, u) t (inl f) s = ground arith
fatal_is_not_done (fatal, u) t (inr f) s = f.0

fatal_is_not_stuck :
    (fuel : ℕ) (c : Conn) (r : Result (Unit {0}))
    → ((fuel ≤ length c.faults) ⊎ IsStuck r)
    → r ≡ fatal
    → length c.faults < fuel
    → ⊥
fatal_is_not_stuck fuel c (ok _) f s l = cc
fatal_is_not_stuck fuel c (err e) f s l = cc
fatal_is_not_stuck fuel c fatal f s l = ground arith

module _ (X : Type 0) (meaning : Plain (Unit {0})) where
  Final-swallows :
      (fuel : ℕ) (c : Conn) (out : Outcome (Option Err) × Conn)
      → Final X fuel c meaning out
      → IsDuplicate (meaning c.tables).0
      → length c.faults < fuel
      → (X → ⊥)
      → Settles (or_exit (λ _. out) c) (λ t. t ≡ c.tables)
  Final-swallows fuel c (returned none, d) f s l x =
      (refl, duplicate_is_undone (meaning c.tables) d.tables f.1 s, f.2)
  Final-swallows fuel c (returned (some e), d) f s l x = ground arith
  Final-swallows fuel c (exited, d) f s l x = absurd (x f.0)
  Final-swallows fuel c (panicked, d) f s l x = absurd f
  Final-swallows fuel c (hung, d) f s l x =
      absurd (duplicate_is_not_stuck fuel c (meaning c.tables).0 f.2 s l)

  -- A body that meets a duplicate key counts as done, and has changed nothing.
  pub run_tx_swallows :
      (fuel : ℕ) (m : Tx (Unit {0})) (c : Conn)
      → Refines X meaning m
      → IsDuplicate (meaning c.tables).0
      → (X → ⊥)
      → IsIdle c
      → IsHonest c.faults
      → length c.faults < fuel
      → Settles (or_exit (run_tx fuel m) c) (λ t. t ≡ c.tables)
  run_tx_swallows fuel m c r s x i h l =
      Final-swallows fuel c (run_tx fuel m c) (run_tx-Final X meaning fuel m c r i h) s l x

  Final-exits :
      (fuel : ℕ) (c : Conn) (out : Outcome (Option Err) × Conn)
      → Final X fuel c meaning out
      → (meaning c.tables).0 ≡ fatal
      → length c.faults < fuel
      → let (r, d) = or_exit (λ _. out) c in (r ≡ exited) × (d.tables ≡ c.tables)
  Final-exits fuel c (returned o, d) f e l =
      absurd (fatal_is_not_done (meaning c.tables) d.tables f.1 e)
  Final-exits fuel c (exited, d) f e l = (refl, f.1)
  Final-exits fuel c (panicked, d) f e l = absurd f
  Final-exits fuel c (hung, d) f e l =
      absurd (fatal_is_not_stuck fuel c (meaning c.tables).0 f.2 e l)

  -- A body that calls `log.Fatal` ends the process, and has changed nothing.
  pub run_tx_exits :
      (fuel : ℕ) (m : Tx (Unit {0})) (c : Conn)
      → Refines X meaning m
      → (meaning c.tables).0 ≡ fatal
      → IsIdle c
      → IsHonest c.faults
      → length c.faults < fuel
      → let (r, d) = or_exit (run_tx fuel m) c in (r ≡ exited) × (d.tables ≡ c.tables)
  run_tx_exits fuel m c r e i h l =
      Final-exits fuel c (run_tx fuel m c) (run_tx-Final X meaning fuel m c r i h) e l
