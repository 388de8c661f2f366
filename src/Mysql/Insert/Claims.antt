-- ===== src/Mysql/Insert/Claims.antt =====
-- What `InsertPVC` of dbmanager/mysql/insert.go leaves in the tables, whatever calls the server
-- fails.
use kubevoltracker.Base.{
  ℕ, ◌<◌, String, ◌≡◌, refl, List, [], ◌∷◌, map, some, length, any, ◌==◌, ◌&&◌, Bool, if◌then◌else◌,
}
use kubevoltracker.Resources.{pvcs}
use kubevoltracker.Mysql.Schema.{Pvc, Pod, PodMount, Tables}
use kubevoltracker.Mysql.Conn.{Conn}
use kubevoltracker.Mysql.Sql.{Server, is_null, update_where}
use kubevoltracker.Mysql.Util.{get_access_mode_string}
use kubevoltracker.Mysql.Insert.{
  insert_pvc, insert_pvc_tx, new_pvc, refresh_pvc, is_fresh_pvc, insert_pvc_row, add_pvc_pod_mount,
  awaits_claim,
}
use kubevoltracker.Mysql.View.{pvc_at, Put, Recorded}
use kubevoltracker.Mysql.View.Laws.{upserted, upsert-Put, set_rv-Recorded}
use kubevoltracker.Mysql.Rv.{set_rv}
use kubevoltracker.Mysql.Tx.Refines.{
  Plain, Refines, IsHonest, runs, wraps, then_plain, Refines-wrap, Refines-bind,
}
use kubevoltracker.Mysql.Tx.Attempt.{IsIdle}
use kubevoltracker.Mysql.Tx.Total.{Settles, run_tx_settles, run_tx-Does}
use kubevoltracker.Mysql.Tx.Blocks.{
  changes, check_rows-Refines, statement-Refines, update_rv-Refines,
}

-- The mount belongs to a pod that is not deleted.
abbrev pub is_mount_of_live_pod : Tables → PodMount → Bool
is_mount_of_live_pod t m = any (λ (p : Pod). m.pod_uid == p.uid && is_null p.delete_time) t.pod

-- The claim has a row with the new values, which keeps what a binding or a deletion has left. Every
-- mount of that name, of a pod that is not deleted, names the claim; every other is as it was.
pub record PvcInserted (server : Server) (uid name : String) (row : Pvc) (refresh : Pvc → Pvc)
    (watcher_ns rv : String) (t t' : Tables) : Type 0 where
  pub inserted : Put (pvc_at t) (pvc_at t') uid (upserted row refresh)
  pub mounts :
      t'.pod_mount
      ≡ map
          (λ m.
            if server.like m.pvc_name name && is_mount_of_live_pod t m
            then record m { pvc_uid = some uid }
            else m)
          t.pod_mount
  pub recorded : Recorded t t' pvcs watcher_ns rv
  pub rest :
      t'
      ≡ record t { pvc = t'.pvc; pod_mount = t'.pod_mount; resource_version = t'.resource_version }

pub update_where-map {ℓ} :
    {A : Type ℓ} (p : A → Bool) (f : A → A) (xs : List A)
    → update_where p f xs ≡ map (λ x. if p x then f x else x) xs
update_where-map p f [] = refl
update_where-map p f (x ∷ xs) = rw (update_where-map p f xs)

module _ (server : Server) (fuel : ℕ) (uid name : String) (time : ℕ) (namespace : String)
    (storage : ℕ) (modes : List String) (json watcher_ns rv : String) where
  abbrev text : String
  text = get_access_mode_string modes

  abbrev inserts : Tables → ℕ × Tables
  inserts = insert_pvc_row uid name time namespace storage text json

  abbrev attaches : Tables → ℕ × Tables
  attaches = add_pvc_pod_mount server uid name

  abbrev meaning : Plain (Unit {0})
  meaning = then_plain (runs inserts) (λ rows.
      then_plain (wraps "Unable to update PVC mount table" (runs attaches))
        (λ mounts. changes (set_rv pvcs watcher_ns rv)))

  insert_pvc_tx-Refines :
      Refines ⊥ meaning
        (insert_pvc_tx server uid name time namespace storage modes json watcher_ns rv)
  unfolding insert_pvc_tx
  insert_pvc_tx-Refines = Refines-bind ⊥ (runs inserts) _ _ _ (check_rows-Refines inserts) (λ rows.
      Refines-bind ⊥ (wraps "Unable to update PVC mount table" (runs attaches)) _ _ _
        (Refines-wrap ⊥ (runs attaches) _ _ (statement-Refines attaches))
        (λ mounts. update_rv-Refines pvcs watcher_ns rv))

  -- the tables after the event of a claim
  abbrev pub claim_inserted : Tables → Tables
  claim_inserted t = (set_rv pvcs watcher_ns rv (attaches (inserts t).1).1).1

  pub insert_pvc_tables :
      (c : Conn)
      → IsIdle c
      → IsHonest c.faults
      → length c.faults < fuel
      → (insert_pvc server fuel uid name time namespace storage modes json watcher_ns rv c).1.tables
        ≡ claim_inserted c.tables
  unfolding insert_pvc
  insert_pvc_tables c i h l =
      (run_tx-Does meaning fuel _ c (claim_inserted c.tables) insert_pvc_tx-Refines refl i h l).1

  -- `InsertPVC`, called with no transaction open, returns if the fuel exceeds the number of entries
  -- on the schedule of failures, none of which pretends to be a duplicate key. The claim has a row
  -- with the given values, in which the volume, the time of binding and the time of deletion are
  -- those of the row that was there; the mounts of that name of all pods that are not deleted name
  -- the claim; the version is recorded under the watcher's namespace; nothing else has changed.
  pub insert_pvc_effect :
      (c : Conn)
      → IsIdle c
      → IsHonest c.faults
      → length c.faults < fuel
      → Settles
          (insert_pvc server fuel uid name time namespace storage modes json watcher_ns rv c)
          (PvcInserted server uid name
            (new_pvc uid name time namespace storage text json)
            (refresh_pvc name time namespace storage text json)
            watcher_ns
            rv
            c.tables)
  unfolding insert_pvc
  insert_pvc_effect c i h l =
      let t1 = (attaches (inserts c.tables).1).1 in
      run_tx_settles meaning
        (PvcInserted server uid name (new_pvc uid name time namespace storage text json)
          (refresh_pvc name time namespace storage text json) watcher_ns rv c.tables)
        fuel _ c (set_rv pvcs watcher_ns rv t1).1 insert_pvc_tx-Refines refl
        (record {
          inserted =
              upsert-Put (λ (r : Pvc). r.uid) uid _ _
                (is_fresh_pvc name time namespace storage text json) c.tables.pvc refl (λ _. refl);
          mounts =
              update_where-map (awaits_claim server name c.tables)
                (λ m. record m { pvc_uid = some uid }) c.tables.pod_mount;
          recorded = set_rv-Recorded pvcs watcher_ns rv t1;
          rest = refl;
        })
        i h l
