-- ===== src/Mysql/Insert/Pods/Containers.antt =====
-- `insertMounts` and `insertContainers` of dbmanager/mysql/insert.go as functions of the tables, when
-- the server fails no call.
use kubevoltracker.Base.{
  append-nil, append_assoc, ℕ, String, ◌≡◌, ap, sym, ◌∙◌, List, [], ◌∷◌, ◌++◌, map,
}
use kubevoltracker.Resources.{VolumeMount, ContainerDesc}
use kubevoltracker.Mysql.Schema.{Tables}
use kubevoltracker.Mysql.Conn.{ok}
use kubevoltracker.Mysql.Sql.{Server}
use kubevoltracker.Mysql.Insert.{insert_mounts, insert_containers, new_container}
use kubevoltracker.Mysql.Tx.Refines.{Plain, gives, then_plain}
use kubevoltracker.Mysql.Tx.Quiet.{
  Computes, drops, Computes-pure, Computes-bind, Computes-drop, Computes-do,
}
use kubevoltracker.Mysql.Tx.Blocks.{changes}
use kubevoltracker.Mysql.Insert.Pods.{mounts_for, mounts_of, mounts_of_all, add_rows}
use kubevoltracker.Mysql.Insert.Pods.Mount.{one_mount, one_mount-Computes, drops-one_mount}

module _ (server : Server) (uid : String) (time : ℕ) where
  abbrev all_mounts : String → List VolumeMount → Plain (Unit {0})
  all_mounts container_name [] = gives tt
  all_mounts container_name (mount ∷ mounts) =
      then_plain (drops (one_mount server uid container_name mount time))
        (λ _. all_mounts container_name mounts)

  abbrev adds_container : ContainerDesc → Tables → ℕ × Tables
  adds_container desc t = (1, record t { container = t.container ++ new_container uid desc ∷ [] })

  abbrev pub all_containers : List ContainerDesc → Plain (Unit {0})
  all_containers [] = gives tt
  all_containers (desc ∷ containers) =
      then_plain (changes (adds_container desc))
        (λ _. then_plain (all_mounts desc.name desc.pvc_mounts) (λ _. all_containers containers))

  insert_mounts-Computes :
      (container_name : String) (mounts : List VolumeMount)
      → Computes
          (all_mounts container_name mounts)
          (insert_mounts server uid container_name mounts time)
  unfolding insert_mounts
  insert_mounts-Computes container_name [] = Computes-pure tt
  insert_mounts-Computes container_name (mount ∷ mounts) =
      Computes-bind _ _ _ _
        (Computes-drop (one_mount server uid container_name mount time) _
          (one_mount-Computes server uid container_name mount time))
        (λ _. insert_mounts-Computes container_name mounts)

  pub insert_containers-Computes :
      (containers : List ContainerDesc)
      → Computes (all_containers containers) (insert_containers server uid containers time)
  unfolding insert_containers
  insert_containers-Computes [] = Computes-pure tt
  insert_containers-Computes (desc ∷ containers) =
      Computes-bind _ _ _ _ (Computes-do (adds_container desc)) (λ _.
        Computes-bind _ _ _ _ (insert_mounts-Computes desc.name desc.pvc_mounts)
          (λ _. insert_containers-Computes containers))

  all_mounts_lem :
      (container_name : String) (mounts : List VolumeMount) (t : Tables)
      → all_mounts container_name mounts t
        ≡ (ok tt, add_rows (mounts_of server uid container_name mounts time t.pvc) t)
  all_mounts_lem container_name [] t = rw (append-nil t.pod_mount)
  all_mounts_lem container_name (mount ∷ mounts) t =
      let first = mounts_for server uid container_name mount time t.pvc in
      ap (λ out. then_plain (λ _. out) (λ _. all_mounts container_name mounts) t)
        (drops-one_mount server uid container_name mount time t)
      ∙ all_mounts_lem container_name mounts (add_rows first t)
      ∙ ap (λ rows. (ok tt, record t { pod_mount = rows }))
          (append_assoc t.pod_mount first (mounts_of server uid container_name mounts time t.pvc))

  -- the tables with the rows of all containers
  abbrev pub with_containers : List ContainerDesc → Tables → Tables
  with_containers containers t = record t {
    container = t.container ++ map (new_container uid) containers;
    pod_mount = t.pod_mount ++ mounts_of_all server uid containers time t.pvc;
  }

  pub all_containers_lem :
      (containers : List ContainerDesc) (t : Tables)
      → all_containers containers t ≡ (ok tt, with_containers containers t)
  all_containers_lem [] t =
      rw (append-nil t.pod_mount)
        (ap (λ rows. (ok tt, record t { container = rows })) (sym (append-nil t.container)))
  all_containers_lem (desc ∷ containers) t =
      let t1 = (adds_container desc t).1 in
      let first = mounts_of server uid desc.name desc.pvc_mounts time t.pvc in
      let last = mounts_of_all server uid containers time t.pvc in
      ap (λ out. then_plain (λ _. out) (λ _. all_containers containers) t)
        (all_mounts_lem desc.name desc.pvc_mounts t1)
      ∙ all_containers_lem containers (add_rows first t1)
      ∙ ap
          (λ rows. (
            ok tt,
            record t1 {
              container = t1.container ++ map (new_container uid) containers;
              pod_mount = rows;
            },
          ))
          (append_assoc t.pod_mount first last)
      ∙ ap
          (λ rows.
            (ok tt, record t { container = rows; pod_mount = t.pod_mount ++ (first ++ last) }))
          (append_assoc t.container (new_container uid desc ∷ [])
            (map (new_container uid) containers))
