-- ===== src/Mysql/Insert/Volumes.antt =====
-- What `InsertPV` of dbmanager/mysql/insert.go leaves in the tables, whatever calls the server
-- fails.
use kubevoltracker.Base.{
  ℕ, ℤ, pos, ◌<◌, String, ◌≡◌, ◌≢◌, refl, ap, ◌∙◌, ◌⊎◌, inl, inr, Bool, true, false, not, List, [],
  ◌∷◌, ◌++◌, Option, none, some, arith, length, any, ◌==◌, if◌then◌else◌, Bool-cases, ne_false,
}
use kubevoltracker.Go.{exited}
use kubevoltracker.DbManager.{Table, nfs, iscsi}
use kubevoltracker.Resources.{pvs, pv_namespace}
use kubevoltracker.Mysql.Schema.{Pv, Tables}
use kubevoltracker.Mysql.Conn.{Conn, Result, ok, err, mysql, err_duplicate_key, Tx, ◌>>◌}
use kubevoltracker.Mysql.Sql.{is_null}
use kubevoltracker.Mysql.Util.{get_access_mode_string}
use kubevoltracker.Mysql.Insert.{insert_pv, insert_pv_tx, new_pv, insert_pv_row}
use kubevoltracker.Mysql.View.{pv_at, Put, Recorded}
use kubevoltracker.Mysql.View.Laws.{any-row_at, append-Put, set_rv-Recorded}
use kubevoltracker.Mysql.Rv.{set_rv, update_rv}
use kubevoltracker.Mysql.Tx.{do_tx_statement}
use kubevoltracker.Mysql.Tx.Refines.{
  Plain, Refines, IsHonest, Step, IsCalm, then_plain, dies, Refines-fatal,
}
use kubevoltracker.Mysql.Tx.Attempt.{IsIdle}
use kubevoltracker.Mysql.Tx.Total.{Settles, run_tx_settles, run_tx_swallows, run_tx_exits}
use kubevoltracker.Mysql.Tx.Blocks.{
  changes, Refines-seq, do_tx_statement-of, counted, update_rv-Refines,
}

-- A volume that was not known has a row, and nothing else changed but the version of volumes.
pub record PvInserted (row : Pv) (rv : String) (t t' : Tables) : Type 0 where
  pub inserted : Put (pv_at t) (pv_at t') row.uid (λ _. row)
  pub recorded : Recorded t t' pvs pv_namespace rv
  pub rest : t' ≡ record t { pv = t'.pv; resource_version = t'.resource_version }

-- the meaning of INSERT INTO pv
abbrev row_outcome : Bool → Pv → Plain ℕ
row_outcome known row t =
    if known then (err (mysql err_duplicate_key), t) else (ok 1, record t { pv = t.pv ++ row ∷ [] })

abbrev row_meaning : String → Pv → Plain ℕ
row_meaning uid row t = row_outcome (any (λ (r : Pv). r.uid == uid) t.pv) row t

-- the values of the row that `InsertPV` adds for a backend
abbrev pub row_for : String → String → ℕ → ℤ → Table → ℕ → List String → String → Pv
row_for uid name time id backend storage modes json =
    new_pv uid name time storage (get_access_mode_string modes) json
      (if backend == nfs then id else pos 0) (if backend == nfs then pos 0 else id)

module _ (uid name : String) (time storage : ℕ) (modes json rv : String) (nfs_id iscsi_id : ℤ) where
  abbrev row : Pv
  row = new_pv uid name time storage modes json nfs_id iscsi_id

  abbrev insert_row : Tx ℕ
  insert_row = insert_pv_row uid name time storage modes json nfs_id iscsi_id

  row-Step :
      (b : Bool) (c : Conn)
      → c.in_tx ≡ true
      → IsHonest c.faults
      → any (λ (r : Pv). r.uid == uid) c.tables.pv ≡ b
      → Step ⊥ c (row_meaning uid row) (insert_row c)
  row-Step true c i h e = ground arith
  row-Step false c i h e = ground arith

  insert_row-Refines : Refines ⊥ (row_meaning uid row) insert_row
  insert_row-Refines = record {
    at = λ c i h. row-Step (any (λ (r : Pv). r.uid == uid) c.tables.pv) c i h refl;
  }

  insert_row-IsCalm : (d : Conn) → IsCalm (insert_row d)
  insert_row-IsCalm d = elim (Bool-cases (any (λ (r : Pv). r.uid == uid) d.tables.pv)) [
    | inl e ↦ rw e refl
    | inr e ↦ rw e tt
  ]

  abbrev after : Bool → Plain (Unit {0})
  after known =
      then_plain (counted (row_outcome known row)) (λ _. changes (set_rv pvs pv_namespace rv))

  abbrev meaning : Plain (Unit {0})
  meaning = then_plain (counted (row_meaning uid row)) (λ _. changes (set_rv pvs pv_namespace rv))

  row_tx-Refines : Refines ⊥ meaning (do_tx_statement insert_row >> update_rv pvs pv_namespace rv)
  row_tx-Refines =
      Refines-seq
        (do_tx_statement-of (row_meaning uid row) insert_row insert_row-Refines insert_row-IsCalm)
        (update_rv-Refines pvs pv_namespace rv)

  any_uid : (t : Tables) → any (λ (r : Pv). r.uid == uid) t.pv ≡ not (is_null (pv_at t uid))
  any_uid t = any-row_at (λ (r : Pv). r.uid) uid t.pv

  abbrev inserted : Tables → Tables
  inserted t = (set_rv pvs pv_namespace rv (record t { pv = t.pv ++ row ∷ [] })).1

  after_case :
      (known : Bool) (t : Tables)
      → after known t ≡ (if known then (err (mysql err_duplicate_key), t) else (ok tt, inserted t))
  after_case true t = refl
  after_case false t = refl

  meaning_by :
      (t : Tables) (o : Option Pv) → pv_at t uid ≡ o → meaning t ≡ after (not (is_null o)) t
  meaning_by t o e = ap (λ known. after known t) (any_uid t ∙ ap (λ o. not (is_null o)) e)

  meaning_new : (t : Tables) → pv_at t uid ≡ none → meaning t ≡ (ok tt, inserted t)
  meaning_new t e = meaning_by t none e ∙ after_case false t

  meaning_known :
      (t : Tables) (r : Pv) → pv_at t uid ≡ some r → (meaning t).0 ≡ err (mysql err_duplicate_key)
  meaning_known t r e =
      ap (λ (x : Result (Unit {0}) × Tables). x.0) (meaning_by t (some r) e ∙ after_case true t)

  PvInserted-inserted : (t : Tables) → pv_at t uid ≡ none → PvInserted row rv t (inserted t)
  PvInserted-inserted t e = record {
    inserted = append-Put (λ (r : Pv). r.uid) uid row t.pv refl e;
    recorded = set_rv-Recorded pvs pv_namespace rv (record t { pv = t.pv ++ row ∷ [] });
    rest = refl;
  }

module _ (fuel : ℕ) (uid name : String) (time : ℕ) (id : ℤ) (backend : Table) (storage : ℕ)
    (modes : List String) (json rv : String) (c : Conn) (idle : IsIdle c)
    (honest : IsHonest c.faults) (fueled : length c.faults < fuel) where
  -- `InsertPV` of an NFS or ISCSI volume that is not known, called with no transaction open,
  -- returns if the fuel exceeds the number of entries on the schedule of failures, none of which
  -- pretends to be a duplicate key. The volume has a row, with the id of its source in the column
  -- of the backend and 0 in the other; the version is recorded; nothing else has changed.
  pub insert_pv_effect :
      (backend ≡ nfs) ⊎ (backend ≡ iscsi)
      → pv_at c.tables uid ≡ none
      → Settles
          (insert_pv fuel uid name time id backend storage modes json rv c)
          (PvInserted (row_for uid name time id backend storage modes json) rv c.tables)
  unfolding insert_pv insert_pv_tx
  insert_pv_effect b new =
      let text = get_access_mode_string modes in
      elim b [
        | inl e ↦ rw e (
            run_tx_settles _
              (PvInserted (row uid name time storage text json rv id (pos 0)) rv c.tables) fuel _ c
              _ (row_tx-Refines uid name time storage text json rv id (pos 0))
              (meaning_new uid name time storage text json rv id (pos 0) c.tables new)
              (PvInserted-inserted uid name time storage text json rv id (pos 0) c.tables new) idle
              honest fueled)
        | inr e ↦ rw e (
            run_tx_settles _
              (PvInserted (row uid name time storage text json rv (pos 0) id) rv c.tables) fuel _ c
              _ (row_tx-Refines uid name time storage text json rv (pos 0) id)
              (meaning_new uid name time storage text json rv (pos 0) id c.tables new)
              (PvInserted-inserted uid name time storage text json rv (pos 0) id c.tables new) idle
              honest fueled)
      ]

  -- `InsertPV` of a volume that is known returns under the same conditions, and has changed
  -- nothing: neither the row of the volume nor the recorded version.
  pub insert_pv_known :
      (r : Pv)
      → (backend ≡ nfs) ⊎ (backend ≡ iscsi)
      → pv_at c.tables uid ≡ some r
      → Settles
          (insert_pv fuel uid name time id backend storage modes json rv c)
          (λ t. t ≡ c.tables)
  unfolding insert_pv insert_pv_tx
  insert_pv_known r b known =
      let text = get_access_mode_string modes in
      elim b [
        | inl e ↦ rw e (
            run_tx_swallows ⊥ _ fuel _ c
              (row_tx-Refines uid name time storage text json rv id (pos 0))
              (rw (meaning_known uid name time storage text json rv id (pos 0) c.tables r known)
                refl)
              (λ x. x) idle honest fueled)
        | inr e ↦ rw e (
            run_tx_swallows ⊥ _ fuel _ c
              (row_tx-Refines uid name time storage text json rv (pos 0) id)
              (rw (meaning_known uid name time storage text json rv (pos 0) id c.tables r known)
                refl)
              (λ x. x) idle honest fueled)
      ]

  -- For a volume of any other kind `InsertPV` ends the process, and has changed nothing.
  pub insert_pv_unknown_backend :
      backend ≢ nfs
      → backend ≢ iscsi
      → let (out, d) = insert_pv fuel uid name time id backend storage modes json rv c in
        (out ≡ exited) × (d.tables ≡ c.tables)
  unfolding insert_pv insert_pv_tx
  insert_pv_unknown_backend n m =
      run_tx_exits Unit (then_plain {A = Unit {0}} dies (λ _. changes (set_rv pvs pv_namespace rv)))
        fuel _ c
        (rw (ne_false backend nfs n, ne_false backend iscsi m)
          (Refines-seq Refines-fatal (update_rv-Refines pvs pv_namespace rv)))
        refl idle honest fueled
