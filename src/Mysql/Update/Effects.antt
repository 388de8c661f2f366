-- ===== src/Mysql/Update/Effects.antt =====
-- What the updates of dbmanager/mysql/update.go leave in the tables, whatever calls the server
-- fails.
use kubevoltracker.Base.{
  ℕ, ℤ, pos, ◌<◌, String, ◌≡◌, ◌≢◌, ◌⊎◌, inl, inr, refl, some, List, length, ◌==◌, if◌then◌else◌,
  arith, eq_iff,
}
use kubevoltracker.Go.{returned, exited}
use kubevoltracker.DbManager.{Table, nfs, iscsi}
use kubevoltracker.Resources.{pvs, pvcs, pv_namespace}
use kubevoltracker.Mysql.Schema.{Pv, Pvc, Tables}
use kubevoltracker.Mysql.Conn.{Conn}
use kubevoltracker.Mysql.Util.{get_access_mode_string}
use kubevoltracker.Mysql.Update.{
  update_pv, update_pv_tx, update_pv_rows, update_pvc, update_pvc_tx, update_pvc_rows,
}
use kubevoltracker.Mysql.View.{pv_at, pvc_at, Changed, Recorded}
use kubevoltracker.Mysql.View.Laws.{update_where-Changed, set_rv-Recorded}
use kubevoltracker.Mysql.Tx.{run_tx, or_exit}
use kubevoltracker.Mysql.Tx.Refines.{IsHonest}
use kubevoltracker.Mysql.Tx.Attempt.{IsIdle}
use kubevoltracker.Mysql.Tx.Total.{Settles, run_tx_settles}
use kubevoltracker.Mysql.Tx.Blocks.{Refines-seq, do_tx_statement-Refines, update_rv-Refines}

-- the volume with the new values; the source is either an NFS or an ISCSI record
abbrev pub updated_pv : ℤ → ℤ → ℕ → List String → String → Pv → Pv
updated_pv nfs_id iscsi_id storage modes json r = record r {
  nfs_id = nfs_id;
  iscsi_id = iscsi_id;
  storage = storage;
  access_modes = get_access_mode_string modes;
  json = json;
}

abbrev pub updated_pvc : ℕ → List String → String → Pvc → Pvc
updated_pvc storage modes json r = record r {
  storage = some storage;
  access_modes = some (get_access_mode_string modes);
  json = some json;
}

pub record PvUpdated (uid : String) (f : Pv → Pv) (rv : String) (t t' : Tables) : Type 0 where
  pub changed : Changed (pv_at t) (pv_at t') uid f
  pub recorded : Recorded t t' pvs pv_namespace rv
  pub rest : t' ≡ record t { pv = t'.pv; resource_version = t'.resource_version }

pub record PvcUpdated (uid : String) (f : Pvc → Pvc) (watcher_ns rv : String) (t t' : Tables)
    : Type 0 where
  pub changed : Changed (pvc_at t) (pvc_at t') uid f
  pub recorded : Recorded t t' pvcs watcher_ns rv
  pub rest : t' ≡ record t { pvc = t'.pvc; resource_version = t'.resource_version }

-- the columns `nfs_id` and `iscsi_id` for a backend: the other one is 0
abbrev pub nfs_column : Table → ℤ → ℤ
nfs_column backend id = if backend == nfs then id else pos 0

abbrev pub iscsi_column : Table → ℤ → ℤ
iscsi_column backend id = if backend == nfs then pos 0 else id

module _ (fuel : ℕ) (uid : String) (storage : ℕ) (modes : List String) (json : String) where
  update_pv_tx-Does :
      (nfs_id iscsi_id : ℤ) (rv : String) (c : Conn)
      → IsIdle c
      → IsHonest c.faults
      → length c.faults < fuel
      → let out =
          or_exit (run_tx fuel (update_pv_tx nfs_id iscsi_id storage modes json uid rv)) c in
        (out.0 ≡ returned tt)
        × PvUpdated uid (updated_pv nfs_id iscsi_id storage modes json) rv c.tables out.1.tables
        × IsIdle out.1
  unfolding update_pv_tx
  update_pv_tx-Does nfs_id iscsi_id rv c i h l =
      let f = update_pv_rows nfs_id iscsi_id storage (get_access_mode_string modes) json uid in
      run_tx_settles _ (PvUpdated uid (updated_pv nfs_id iscsi_id storage modes json) rv c.tables)
        fuel _ c _ (Refines-seq (do_tx_statement-Refines f) (update_rv-Refines pvs pv_namespace rv))
        refl
        (record {
          changed = update_where-Changed (λ r. r.uid) uid _ c.tables.pv (λ _. refl);
          recorded = set_rv-Recorded pvs pv_namespace rv (f c.tables).1;
          rest = refl;
        })
        i h l

  -- `UpdatePV` alone: for an NFS or ISCSI backend, called with no transaction open, returns if the fuel
  -- exceeds the number of entries on the schedule of failures, none of which pretends to be a
  -- duplicate key. It has replaced the values of the volume, with the id of the source in the
  -- column of its backend and 0 in the other, recorded the resource version under the volumes'
  -- namespace, and changed nothing else.
  pub update_pv_effect :
      (backend_id : ℤ) (backend : Table) (rv : String) (c : Conn)
      → (backend ≡ nfs) ⊎ (backend ≡ iscsi)
      → IsIdle c
      → IsHonest c.faults
      → length c.faults < fuel
      → Settles (update_pv fuel uid backend_id backend storage modes json rv c) (
          PvUpdated uid
            (updated_pv
              (nfs_column backend backend_id)
              (iscsi_column backend backend_id)
              storage
              modes
              json)
            rv
            c.tables)
  unfolding update_pv
  update_pv_effect backend_id backend rv c b i h l = elim b [
    | inl e ↦ rw e (update_pv_tx-Does backend_id (pos 0) rv c i h l)
    | inr e ↦ rw e (update_pv_tx-Does (pos 0) backend_id rv c i h l)
  ]

  -- For any other backend `UpdatePV` exits and has changed nothing.
  pub update_pv_unknown :
      (backend_id : ℤ) (backend : Table) (rv : String) (c : Conn)
      → backend ≢ nfs
      → backend ≢ iscsi
      → update_pv fuel uid backend_id backend storage modes json rv c ≡ (exited, c)
  unfolding update_pv
  update_pv_unknown backend_id backend rv c n m =
      ground (arith, eq_iff backend nfs, eq_iff backend iscsi)

  -- `UpdatePVC` alone: called with no transaction open, returns if the fuel exceeds the number of entries
  -- on the schedule of failures, none of which pretends to be a duplicate key. It has replaced the
  -- size, the access modes and the JSON of the claim, recorded the resource version under the
  -- watcher's namespace, and changed nothing else.
  pub update_pvc_effect :
      (watcher_ns rv : String) (c : Conn)
      → IsIdle c
      → IsHonest c.faults
      → length c.faults < fuel
      → Settles
          (update_pvc fuel uid storage modes json watcher_ns rv c)
          (PvcUpdated uid (updated_pvc storage modes json) watcher_ns rv c.tables)
  unfolding update_pvc update_pvc_tx
  update_pvc_effect watcher_ns rv c i h l =
      let f = update_pvc_rows storage (get_access_mode_string modes) json uid in
      run_tx_settles _ (PvcUpdated uid (updated_pvc storage modes json) watcher_ns rv c.tables) fuel
        _ c _ (Refines-seq (do_tx_statement-Refines f) (update_rv-Refines pvcs watcher_ns rv)) refl
        (record {
          changed = update_where-Changed (λ r. r.uid) uid _ c.tables.pvc (λ _. refl);
          recorded = set_rv-Recorded pvcs watcher_ns rv (f c.tables).1;
          rest = refl;
        })
        i h l

  -- `UpdatePV` for an NFS or ISCSI backend and `UpdatePVC`, called with no transaction open, return if
  -- the fuel exceeds the number of entries on the schedule of failures, none of which pretends to be a
  -- duplicate key. `UpdatePV` has replaced the values of the volume, with the id of the source in the
  -- column of its backend and 0 in the other; `UpdatePVC` has replaced the size, the access modes and
  -- the JSON of the claim. Both have recorded the resource version, that of a volume under the
  -- volumes' namespace and that of a claim under the watcher's, and changed nothing else.
  pub updates_effect :
      (backend_id : ℤ) (backend : Table) (watcher_ns rv : String) (c : Conn)
      → (backend ≡ nfs) ⊎ (backend ≡ iscsi)
      → IsIdle c
      → IsHonest c.faults
      → length c.faults < fuel
      → Settles (update_pv fuel uid backend_id backend storage modes json rv c) (
          PvUpdated uid
            (updated_pv
              (nfs_column backend backend_id)
              (iscsi_column backend backend_id)
              storage
              modes
              json)
            rv
            c.tables)
        × Settles
            (update_pvc fuel uid storage modes json watcher_ns rv c)
            (PvcUpdated uid (updated_pvc storage modes json) watcher_ns rv c.tables)
  updates_effect backend_id backend watcher_ns rv c b i h l =
      (update_pv_effect backend_id backend rv c b i h l, update_pvc_effect watcher_ns rv c i h l)
