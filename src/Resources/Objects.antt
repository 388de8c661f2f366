-- ===== src/Resources/Objects.antt =====
-- The objects of the Kubernetes API, as far as this repository reads them, and the interface Resource
-- of resources/methods.go. Quantities are numbers, and times too.
use kubevoltracker.Base.{ℕ, ℤ, String, Bool, List, Option, ◌==◌, if◌then◌else◌}
use Prim.Native.String.{◌++◌}

pub record Volume : Type 0 where
  pub name : String
  -- `PersistentVolumeClaim`, which may be nil; its `ClaimName`
  pub claim_name : Option String

pub record MountSpec : Type 0 where
  pub name : String
  pub mount_path : String
  pub read_only : Bool

pub record ContainerSpec : Type 0 where
  pub name : String
  pub image : String
  pub command : List String
  pub volume_mounts : List MountSpec

pub record PodResource : Type 0 where
  pub uid : String
  pub name : String
  pub namespace : String
  pub resource_version : String
  pub creation_timestamp : ℕ
  pub deletion_timestamp : Option ℕ
  pub volumes : List Volume
  pub containers : List ContainerSpec
  pub host_ip : String
  pub phase : String
  pub message : String
  pub reason : String

pub record NfsSource : Type 0 where
  pub server : String
  pub path : String

pub record IscsiSource : Type 0 where
  pub target_portal : String
  pub iqn : String
  pub lun : ℤ
  pub fs_type : String

pub record PvResource : Type 0 where
  pub uid : String
  pub name : String
  pub resource_version : String
  pub creation_timestamp : ℕ
  pub deletion_timestamp : Option ℕ
  pub nfs : Option NfsSource
  pub iscsi : Option IscsiSource
  pub capacity : List (String × ℕ)
  pub access_modes : List String
  -- `ClaimRef`, which may be nil; its `UID`
  pub claim_ref : Option String
  pub phase : String

pub record PvcResource : Type 0 where
  pub uid : String
  pub name : String
  pub namespace : String
  pub resource_version : String
  pub creation_timestamp : ℕ
  pub deletion_timestamp : Option ℕ
  pub requests : List (String × ℕ)
  pub access_modes : List String
  pub phase : String

pub data Resource : Type 0 where
  pod : PodResource → Resource
  pv : PvResource → Resource
  pvc : PvcResource → Resource

abbrev pub get_uid : Resource → String
get_uid (pod p) = p.uid
get_uid (pv p) = p.uid
get_uid (pvc p) = p.uid

abbrev pub get_rv : Resource → String
get_rv (pod p) = p.resource_version
get_rv (pv p) = p.resource_version
get_rv (pvc p) = p.resource_version

-- `ret += ...` under a test that a field is not empty
abbrev pub unless_empty : String → String → String → String
unless_empty field label ret = if field == "" then ret else ret ++ (label ++ field)

abbrev pub pod_string : PodResource → String
pod_string p = unless_empty p.reason "\n\tReason:  " (
    unless_empty p.message ", status " (
      unless_empty p.phase ", phase "
        ("Pod " ++ (p.name ++ (", host " ++ (p.host_ip ++ (", RV " ++ p.resource_version)))))))

abbrev pub to_string : Resource → String
to_string (pod p) = pod_string p
to_string (pv p) = "PV " ++ (p.name ++ (", RV " ++ p.resource_version))
to_string (pvc p) = "PVC " ++ (p.name ++ (", RV " ++ (p.resource_version ++ "\n")))
