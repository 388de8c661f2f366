-- ===== src/DbManager.antt =====
-- dbmanager/types.go: what the watcher asks of a data store. `S` is the state of the store; time
-- values are numbers. The clock, the fuel and the failures are those of the implementation.
use kubevoltracker.Base.{ℕ, ℤ, String, List}
use kubevoltracker.Go.{Go}
use kubevoltracker.Resources.{ResourceType, ContainerDesc}

abbrev pub Table : Type 0
Table = String

abbrev pub nfs : Table
nfs = "nfs"

abbrev pub iscsi : Table
iscsi = "iscsi"

pub record DbManager (S : Type 0) : Type 0 where
  -- uid, name, create time, namespace, containers, JSON, namespace of the watcher, resource version
  pub insert_pod :
      String → String → ℕ → String → List ContainerDesc → String → String → String → Go S (Unit {0})
  -- uid, name, create time, backend id, backend type, storage, access modes, JSON, resource version
  pub insert_pv :
      String → String → ℕ → ℤ → Table → ℕ → List String → String → String → Go S (Unit {0})
  -- uid, name, create time, namespace, storage, access modes, JSON, namespace of the watcher,
  -- resource version
  pub insert_pvc :
      String → String → ℕ → String → ℕ → List String → String → String → String → Go S (Unit {0})
  pub insert_nfs : String → String → Go S ℤ
  pub insert_iscsi : String → String → ℤ → String → Go S ℤ
  pub update_pv : String → ℤ → Table → ℕ → List String → String → String → Go S (Unit {0})
  pub update_pvc : String → ℕ → List String → String → String → String → Go S (Unit {0})
  pub bind_pvc : String → String → ℕ → String → Go S (Unit {0})
  pub delete_pod : String → ℕ → String → String → Go S (Unit {0})
  pub delete_pv : String → ℕ → String → Go S (Unit {0})
  pub delete_pvc : String → ℕ → String → String → Go S (Unit {0})
  pub get_rv : ResourceType → String → Go S String
