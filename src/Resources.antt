-- ===== src/Resources.antt =====
-- resources/resources.go: the resource types that are watched, and the descriptions of containers
-- that the watcher hands to the data store.
pub mod Objects
use kubevoltracker.Base.{String, Bool, List}

abbrev pub ResourceType : Type 0
ResourceType = String

abbrev pub pods : ResourceType
pods = "pods"

abbrev pub pvs : ResourceType
pvs = "persistentvolumes"

abbrev pub pvcs : ResourceType
pvcs = "persistentvolumeclaims"

-- Persistent volumes are not namespaced, so the code records them under this namespace.
abbrev pub pv_namespace : String
pv_namespace = "default"

pub record VolumeMount : Type 0 where
  pub name : String
  pub read_only : Bool

pub record ContainerDesc : Type 0 where
  pub name : String
  pub image : String
  pub command : String
  pub pvc_mounts : List VolumeMount
