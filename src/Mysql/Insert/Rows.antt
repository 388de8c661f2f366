-- ===== src/Mysql/Insert/Rows.antt =====
-- The statements that `initInsertStatements` of dbmanager/mysql/insert.go prepares.
use kubevoltracker.Base.{
  ℕ, ℤ, String, Bool, ◌&&◌, List, [], ◌∷◌, ◌++◌, map, Option, none, some, ltb, leb, nat_eq, length,
  select, any, ◌==◌, if◌then◌else◌,
}
use kubevoltracker.Resources.{VolumeMount, ContainerDesc}
use kubevoltracker.Mysql.Schema.{Pv, Pvc, Pod, PodMount, Container, Tables}
use kubevoltracker.Mysql.Conn.{Tx, mysql, raise, err_duplicate_key, on_tables}
use kubevoltracker.Mysql.Sql.{
  Server, holds, null_or, is_null, same_text, same_number, count, update_where, upsert,
}

-- INSERT INTO pod (uid, name, create_time, namespace, json) VALUES (?, ?, ?, ?, ?)
abbrev pub new_pod : String → String → ℕ → String → String → Pod
new_pod uid name create_time namespace json = record {
  uid = uid;
  name = name;
  create_time = create_time;
  delete_time = none;
  namespace = namespace;
  json = json;
}

abbrev pub insert_pod_row : String → String → ℕ → String → String → Tx ℕ
insert_pod_row uid name create_time namespace json c =
    if any (λ (r : Pod). r.uid == uid) c.tables.pod
    then raise (mysql err_duplicate_key) c
    else on_tables
        (λ t. (1, record t { pod = t.pod ++ new_pod uid name create_time namespace json ∷ [] })) c

-- INSERT INTO pvc ... ON DUPLICATE KEY UPDATE name=?, create_time = ?, namespace = ?, storage = ?,
--   access_modes = ?, json = ?
abbrev pub new_pvc : String → String → ℕ → String → ℕ → String → String → Pvc
new_pvc uid name create_time namespace storage modes json = record {
  uid = uid;
  name = some name;
  create_time = some create_time;
  delete_time = none;
  bind_time = none;
  namespace = some namespace;
  storage = some storage;
  access_modes = some modes;
  json = some json;
  pv_uid = none;
}

abbrev pub refresh_pvc : String → ℕ → String → ℕ → String → String → Pvc → Pvc
refresh_pvc name create_time namespace storage modes json r = record r {
  name = some name;
  create_time = some create_time;
  namespace = some namespace;
  storage = some storage;
  access_modes = some modes;
  json = some json;
}

abbrev pub is_fresh_pvc : String → ℕ → String → ℕ → String → String → Pvc → Bool
is_fresh_pvc name create_time namespace storage modes json r =
    same_text r.name (some name)
    && (same_number r.create_time (some create_time)
        && (same_text r.namespace (some namespace)
            && (same_number r.storage (some storage)
                && (same_text r.access_modes (some modes) && same_text r.json (some json)))))

abbrev pub insert_pvc_row : String → String → ℕ → String → ℕ → String → String → Tables → ℕ × Tables
insert_pvc_row uid name create_time namespace storage modes json t =
    let (n, rows) =
      upsert (λ r. r.uid == uid) (new_pvc uid name create_time namespace storage modes json)
        (refresh_pvc name create_time namespace storage modes json)
        (is_fresh_pvc name create_time namespace storage modes json) t.pvc in
    (n, record t { pvc = rows })

-- INSERT INTO pv (uid, name, create_time, storage, access_modes, json, nfs_id, iscsi_id) VALUES ...
abbrev pub new_pv : String → String → ℕ → ℕ → String → String → ℤ → ℤ → Pv
new_pv uid name create_time storage modes json nfs_id iscsi_id = record {
  uid = uid;
  name = name;
  create_time = create_time;
  delete_time = none;
  storage = storage;
  access_modes = modes;
  json = json;
  nfs_id = nfs_id;
  iscsi_id = iscsi_id;
}

abbrev pub insert_pv_row : String → String → ℕ → ℕ → String → String → ℤ → ℤ → Tx ℕ
insert_pv_row uid name create_time storage modes json nfs_id iscsi_id c =
    if any (λ (r : Pv). r.uid == uid) c.tables.pv
    then raise (mysql err_duplicate_key) c
    else on_tables
        (λ t. (
          1,
          record t {
            pv = t.pv ++ new_pv uid name create_time storage modes json nfs_id iscsi_id ∷ [];
          },
        ))
        c

-- INSERT INTO container (pod_uid, name, image, command) VALUES (?, ?, ?, ?)
abbrev pub new_container : String → ContainerDesc → Container
new_container uid desc = record {
  pod_uid = uid;
  name = desc.name;
  image = desc.image;
  command = desc.command;
}

abbrev pub insert_container : String → ContainerDesc → Tx ℕ
insert_container uid desc =
    on_tables (λ t. (1, record t { container = t.container ++ new_container uid desc ∷ [] }))

-- the later of two times, and the earlier; MAX and MIN pass over NULL
abbrev pub later : Option ℕ → Option ℕ → Option ℕ
later none b = b
later (some a) none = some a
later (some a) (some b) = some (if ltb a b then b else a)

abbrev pub earlier : Option ℕ → Option ℕ → Option ℕ
earlier none b = b
earlier (some a) none = some a
earlier (some a) (some b) = some (if ltb b a then b else a)

abbrev pub max_create_time : List Pvc → Option ℕ
max_create_time [] = none
max_create_time (r ∷ rows) = later r.create_time (max_create_time rows)

abbrev pub min_create_time : List Pvc → Option ℕ
min_create_time [] = none
min_create_time (r ∷ rows) = earlier r.create_time (min_create_time rows)

-- the new rows of `INSERT INTO pod_mount ... SELECT ?, uid, ?, ?, ? FROM pvc WHERE ...`
abbrev pub mount_of : String → String → VolumeMount → Option String → PodMount
mount_of uid container_name pvc_mount pvc_uid = record {
  pod_uid = uid;
  pvc_uid = pvc_uid;
  container_name = container_name;
  pvc_name = pvc_mount.name;
  read_only = pvc_mount.read_only;
}

abbrev pub add_mounts : String → String → VolumeMount → List Pvc → Tables → ℕ × Tables
add_mounts uid container_name pvc_mount claims t = (
  length claims,
  record t {
    pod_mount =
        t.pod_mount ++ map (λ (r : Pvc). mount_of uid container_name pvc_mount (some r.uid)) claims;
  },
)

module _ (server : Server) where
  abbrev pub is_named : String → Pvc → Bool
  is_named name r = holds (λ n. server.like n name) r.name

  -- WHERE create_time = (...) AND name LIKE ?
  abbrev pub created_at : Option ℕ → String → Pvc → Bool
  created_at time name r = holds (λ m. holds (nat_eq m) r.create_time) time && is_named name r

  -- WHERE create_time <= ? AND (delete_time IS NULL OR delete_time >= ?) AND name LIKE ?
  abbrev pub is_early : ℕ → String → Pvc → Bool
  is_early time name r =
      holds (λ u. leb u time) r.create_time && null_or (leb time) r.delete_time && is_named name r

  -- WHERE create_time >= ? AND (delete_time IS NULL OR delete_time > ?) AND name LIKE ?
  abbrev pub is_late : ℕ → String → Pvc → Bool
  is_late time name r =
      holds (leb time) r.create_time && null_or (ltb time) r.delete_time && is_named name r

  abbrev pub early_claims : String → ℕ → List Pvc → List Pvc
  early_claims name time rows =
      select (created_at (max_create_time (select (is_early time name) rows)) name) rows

  abbrev pub late_claims : String → ℕ → List Pvc → List Pvc
  late_claims name time rows =
      select (created_at (min_create_time (select (is_late time name) rows)) name) rows

  -- the statement under `dbmanager.PodMount`
  abbrev pub early_mount : String → String → VolumeMount → ℕ → Tables → ℕ × Tables
  early_mount uid container_name pvc_mount time t =
      add_mounts uid container_name pvc_mount (early_claims pvc_mount.name time t.pvc) t

  -- `latePVCPodMount`
  abbrev pub late_mount : String → String → VolumeMount → ℕ → Tables → ℕ × Tables
  late_mount uid container_name pvc_mount time t =
      add_mounts uid container_name pvc_mount (late_claims pvc_mount.name time t.pvc) t

  -- `addPVCPodMount`: UPDATE pod_mount m, pod p SET m.pvc_uid = ?
  --   WHERE m.pvc_name LIKE ? and m.pod_uid = p.uid AND p.delete_time IS NULL
  abbrev pub awaits_claim : String → Tables → PodMount → Bool
  awaits_claim name t m =
      server.like m.pvc_name name
      && any (λ (p : Pod). m.pod_uid == p.uid && is_null p.delete_time) t.pod

  abbrev pub add_pvc_pod_mount : String → String → Tables → ℕ × Tables
  add_pvc_pod_mount pvc_uid name t = (
    count (awaits_claim name t) t.pod_mount,
    record t {
      pod_mount =
          update_where (awaits_claim name t) (λ m. record m { pvc_uid = some pvc_uid }) t.pod_mount;
    },
  )

-- `fallbackPodMount`: INSERT INTO pod_mount (pod_uid, container_name, pvc_name, read_only) VALUES ...
abbrev pub fallback_mount : String → String → VolumeMount → Tables → ℕ × Tables
fallback_mount uid container_name pvc_mount t =
    (1, record t { pod_mount = t.pod_mount ++ mount_of uid container_name pvc_mount none ∷ [] })
