-- ===== src/Mock.antt =====
-- dbmanager/mock/mock.go: a data store that keeps the resources in maps, for tests. The maps are in
-- `Data`.
mod Data
pub mod Laws
use kubevoltracker.Base.{
  ℕ, suc, ℤ, pos, String, Bool, ◌&&◌, List, [], ◌∷◌, Option, none, some, ◌==◌, int_eq,
  if◌then◌else◌,
}
use kubevoltracker.Go.{Go, Outcome, returned, exited, panicked, give, done, exit, panic}
use kubevoltracker.DbManager.{DbManager, Table, nfs, iscsi}
use kubevoltracker.Resources.{ResourceType, ContainerDesc}
pub use Data.*

abbrev pub insert_pod :
    String
    → String
    → ℕ
    → String
    → List ContainerDesc
    → String
    → String
    → String
    → Go MockManager (Unit {0})
insert_pod uid name create_time namespace containers json watcher_ns rv m = (
  returned tt,
  record m {
    pod_for_uid =
        put ◌==◌ uid
          (record {
            name = name;
            create_time = create_time;
            namespace = namespace;
            uid = uid;
            containers = containers;
          })
          m.pod_for_uid;
  },
)

abbrev pub put_pv : String → String → ℕ → ℤ → ℤ → ℕ → Go MockManager (Unit {0})
put_pv uid name create_time nfs_id iscsi_id storage m = (
  returned tt,
  record m {
    pv_for_uid =
        put ◌==◌ uid
          (record {
            name = name;
            create_time = create_time;
            nfs_id = nfs_id;
            iscsi_id = iscsi_id;
            uid = uid;
            storage = storage;
          })
          m.pv_for_uid;
  },
)

unfoldable pub insert_pv :
    String → String → ℕ → ℤ → Table → ℕ → List String → String → String → Go MockManager (Unit {0})
insert_pv uid name create_time backend_id backend_type storage access_modes json rv =
    if backend_type == nfs
    then put_pv uid name create_time backend_id (pos 0) storage
    else if backend_type == iscsi
    then put_pv uid name create_time (pos 0) backend_id storage
    else exit

abbrev pub insert_pvc :
    String
    → String
    → ℕ
    → String
    → ℕ
    → List String
    → String
    → String
    → String
    → Go MockManager (Unit {0})
insert_pvc uid name create_time namespace storage access_modes json watcher_ns rv m = (
  returned tt,
  record m {
    pvc_for_uid =
        put ◌==◌ uid
          (record {
            name = name;
            create_time = create_time;
            namespace = namespace;
            uid = uid;
            storage = storage;
          })
          m.pvc_for_uid;
  },
)

abbrev pub nfs_or_new : Option ℕ → NfsId → Go MockManager ℤ
nfs_or_new (some id) key m = (returned (pos id), m)
nfs_or_new none key m = (
  returned (pos (suc m.last_nfs_id)),
  record m {
    last_nfs_id = suc m.last_nfs_id;
    nfs_id_map = put same_nfs key (suc m.last_nfs_id) m.nfs_id_map;
  },
)

unfoldable pub insert_nfs : String → String → Go MockManager ℤ
insert_nfs ip_addr path m =
    let key : NfsId = record { ip_addr = ip_addr; path = path } in
    nfs_or_new (lookup same_nfs key m.nfs_id_map) key m

abbrev pub iscsi_or_new : Option ℕ → IscsiId → Go MockManager ℤ
iscsi_or_new (some id) key m = (returned (pos id), m)
iscsi_or_new none key m = (
  returned (pos (suc m.last_iscsi_id)),
  record m {
    last_iscsi_id = suc m.last_iscsi_id;
    iscsi_id_map = put same_iscsi key (suc m.last_iscsi_id) m.iscsi_id_map;
  },
)

unfoldable pub insert_iscsi : String → String → ℤ → String → Go MockManager ℤ
insert_iscsi target_portal iqn lun fs_type m =
    let key : IscsiId = record {
      target_portal = target_portal;
      iqn = iqn;
      lun = lun;
      fs_type = fs_type;
    } in
    iscsi_or_new (lookup same_iscsi key m.iscsi_id_map) key m

abbrev pub bind_pvc : String → String → ℕ → String → Go MockManager (Unit {0})
bind_pvc pv_uid pvc_uid bind_time rv = done

abbrev pub delete_pod : String → ℕ → String → String → Go MockManager (Unit {0})
delete_pod uid delete_time watcher_ns rv m = (
  returned tt,
  record m { pod_for_uid = remove ◌==◌ uid m.pod_for_uid; deletions = suc m.deletions },
)

abbrev pub delete_pv : String → ℕ → String → Go MockManager (Unit {0})
delete_pv uid delete_time rv m = (
  returned tt,
  record m { pv_for_uid = remove ◌==◌ uid m.pv_for_uid; deletions = suc m.deletions },
)

abbrev pub delete_pvc : String → ℕ → String → String → Go MockManager (Unit {0})
delete_pvc uid delete_time watcher_ns rv m = (
  returned tt,
  record m { pvc_for_uid = remove ◌==◌ uid m.pvc_for_uid; deletions = suc m.deletions },
)

-- The type assertion fails for a missing key.
abbrev pub set_pv : Option PvAttrs → String → ℤ → ℤ → ℕ → Go MockManager (Unit {0})
set_pv none uid nfs_id iscsi_id storage m = (panicked, m)
set_pv (some pv) uid nfs_id iscsi_id storage m = (
  returned tt,
  record m {
    pv_for_uid =
        put ◌==◌ uid (record pv { nfs_id = nfs_id; iscsi_id = iscsi_id; storage = storage })
          m.pv_for_uid;
  },
)

unfoldable pub update_pv :
    String → ℤ → Table → ℕ → List String → String → String → Go MockManager (Unit {0})
update_pv uid backend_id backend_type storage access_modes json rv m =
    if backend_type == nfs
    then set_pv (lookup ◌==◌ uid m.pv_for_uid) uid backend_id (pos 0) storage m
    else if backend_type == iscsi
    then set_pv (lookup ◌==◌ uid m.pv_for_uid) uid (pos 0) backend_id storage m
    else (exited, m)

abbrev pub set_pvc : Option PvcAttrs → String → ℕ → Go MockManager (Unit {0})
set_pvc none uid storage m = (panicked, m)
set_pvc (some pvc) uid storage m = (
  returned tt,
  record m { pvc_for_uid = put ◌==◌ uid (record pvc { storage = storage }) m.pvc_for_uid },
)

unfoldable pub update_pvc :
    String → ℕ → List String → String → String → String → Go MockManager (Unit {0})
update_pvc uid storage access_modes json watcher_ns rv m =
    set_pvc (lookup ◌==◌ uid m.pvc_for_uid) uid storage m

abbrev pub get_rv : ResourceType → String → Go MockManager String
get_rv resource namespace m = (returned (if m.invalid_rvs then "1" else ""), m)

abbrev pub new : Bool → MockManager
new invalid_rvs = record {
  nfs_id_map = [];
  iscsi_id_map = [];
  last_nfs_id = 0;
  last_iscsi_id = 0;
  pod_for_uid = [];
  pv_for_uid = [];
  pvc_for_uid = [];
  deletions = 0;
  invalid_rvs = invalid_rvs;
}

-- the mock as a data store
abbrev pub manager : DbManager MockManager
manager = record {
  insert_pod = insert_pod;
  insert_pv = insert_pv;
  insert_pvc = insert_pvc;
  insert_nfs = insert_nfs;
  insert_iscsi = insert_iscsi;
  update_pv = update_pv;
  update_pvc = update_pvc;
  bind_pvc = bind_pvc;
  delete_pod = delete_pod;
  delete_pv = delete_pv;
  delete_pvc = delete_pvc;
  get_rv = get_rv;
}
