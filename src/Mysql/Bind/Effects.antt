-- ===== src/Mysql/Bind/Effects.antt =====
-- What `BindPVC` of dbmanager/mysql/bind.go does, whatever calls the server fails.
use kubevoltracker.Base.{
  ℕ, ◌<◌, String, ◌≡◌, refl, Bool, false, ◌&&◌, ◌||◌, Option, none, some, arith, length, ltb,
  eq_iff, if◌then◌else◌, ◌⊎◌, inl, inr,
}
use kubevoltracker.Go.{hung}
use kubevoltracker.Resources.{pvs, pv_namespace}
use kubevoltracker.Mysql.Schema.{Pvc, Tables}
use kubevoltracker.Mysql.Conn.{Conn, plain}
use kubevoltracker.Mysql.Sql.{same_text, same_number}
use kubevoltracker.Mysql.Bind.{bind_pvc, bind_tx, bind_pvc_row, bound_row}
use kubevoltracker.Mysql.View.{pvc_at, Put, Recorded}
use kubevoltracker.Mysql.View.Laws.{upserted, upsert-Put, rows_of, upsert-rows, set_rv-Recorded}
use kubevoltracker.Mysql.Rv.{set_rv}
use kubevoltracker.Mysql.Tx.Refines.{
  Plain, Refines, IsHonest, runs, fails, then_plain, Refines-raise, Refines-bind,
}
use kubevoltracker.Mysql.Tx.Attempt.{IsIdle}
use kubevoltracker.Mysql.Tx.Total.{Settles, run_tx_settles, run_tx_hangs}
use kubevoltracker.Mysql.Tx.Blocks.{changes, Refines-if, check_rows-Refines, update_rv-Refines}

-- The claim under `uid` is bound, and if it was not known it now has a row.
pub record PvcBound (pv_uid pvc_uid : String) (time : ℕ) (rv : String) (t t' : Tables)
    : Type 0 where
  pub bound : Put (pvc_at t) (pvc_at t') pvc_uid (
      upserted
        (bound_row pv_uid pvc_uid time)
        (λ r. record r { pv_uid = some pv_uid; bind_time = some time }))
  pub recorded : Recorded t t' pvs pv_namespace rv
  pub rest : t' ≡ record t { pvc = t'.pvc; resource_version = t'.resource_version }

module _ (fuel : ℕ) (pv_uid pvc_uid : String) (time : ℕ) (rv : String) where
  -- the row has this volume and this time of binding already
  abbrev pub is_bound_so : Pvc → Bool
  is_bound_so r = same_text r.pv_uid (some pv_uid) && same_number r.bind_time (some time)

  abbrev binds : Tables → ℕ × Tables
  binds = bind_pvc_row pv_uid pvc_uid time

  abbrev checked : ℕ → Plain (Unit {0})
  checked rows =
      if ltb rows 1 || ltb 2 rows
      then fails (plain "Bind affected unexpected number of rows")
      else changes (set_rv pvs pv_namespace rv)

  abbrev meaning : Plain (Unit {0})
  meaning = then_plain (runs binds) checked

  bind_tx-Refines : Refines ⊥ meaning (bind_tx pv_uid pvc_uid time rv)
  unfolding bind_tx
  bind_tx-Refines = Refines-bind ⊥ (runs binds) checked _ _ (check_rows-Refines binds) (λ rows.
      Refines-if (ltb rows 1 || ltb 2 rows) (Refines-raise _)
        (update_rv-Refines pvs pv_namespace rv))

  rows-binds : (t : Tables) → (binds t).0 ≡ rows_of is_bound_so (pvc_at t pvc_uid)
  rows-binds t = upsert-rows (λ (r : Pvc). r.uid) pvc_uid _ _ is_bound_so t.pvc

  rows_of_new :
      (o : Option Pvc)
      → ((r : Pvc) → o ≡ some r → is_bound_so r ≡ false)
      → (rows_of is_bound_so o ≡ 1) ⊎ (rows_of is_bound_so o ≡ 2)
  rows_of_new none h = inl refl
  rows_of_new (some r) h = ground (arith, h r)

  -- `BindPVC`, called with no transaction open for a claim that does not have this very volume and
  -- time of binding already, returns if the fuel exceeds the number of entries on the schedule of
  -- failures, none of which pretends to be a duplicate key. The claim has the volume and the time
  -- of binding, with all its other values kept, or empty if the claim was not known; the version is
  -- recorded for volumes; nothing else has changed.
  pub bind_pvc_effect :
      (c : Conn)
      → ((r : Pvc) → pvc_at c.tables pvc_uid ≡ some r → is_bound_so r ≡ false)
      → IsIdle c
      → IsHonest c.faults
      → length c.faults < fuel
      → Settles (bind_pvc fuel pv_uid pvc_uid time rv c) (PvcBound pv_uid pvc_uid time rv c.tables)
  unfolding bind_pvc
  bind_pvc_effect c new i h l =
      run_tx_settles meaning (PvcBound pv_uid pvc_uid time rv c.tables) fuel _ c
        (set_rv pvs pv_namespace rv (binds c.tables).1).1 bind_tx-Refines
        (elim (rows_of_new (pvc_at c.tables pvc_uid) new) [
          | inl e ↦ rw (rows-binds c.tables, e)
          | inr e ↦ rw (rows-binds c.tables, e)
        ])
        (record {
          bound =
              upsert-Put (λ (r : Pvc). r.uid) pvc_uid _ _ is_bound_so c.tables.pvc refl (λ _. refl);
          recorded = set_rv-Recorded pvs pv_namespace rv (binds c.tables).1;
          rest = refl;
        })
        i h l

  -- A claim that has this very volume and time of binding already makes `BindPVC` run for ever, if it
  -- is called with no transaction open: with any fuel and any failures, of which none pretends to be
  -- a duplicate key, it does not return, and the tables are as they were.
  pub bind_pvc_again_hangs :
      (c : Conn) (r : Pvc)
      → pvc_at c.tables pvc_uid ≡ some r
      → r.pv_uid ≡ some pv_uid
      → r.bind_time ≡ some time
      → IsIdle c
      → IsHonest c.faults
      → let (out, d) = bind_pvc fuel pv_uid pvc_uid time rv c in
        (out ≡ hung) × (d.tables ≡ c.tables)
  unfolding bind_pvc
  bind_pvc_again_hangs c r e p q i h =
      run_tx_hangs meaning fuel _ c bind_tx-Refines
        (rw (rows-binds c.tables, e) (ground (arith, p, q, eq_iff pv_uid pv_uid))) i h
