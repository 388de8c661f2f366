-- ===== src/Kubectl/Write.antt =====
-- resource_writer.go: the files that describe a pod, a claim or a volume.
use Prim.Native.String.{◌++◌}
use kubevoltracker.Base.{
  ℕ, suc, ℤ, String, Bool, List, [], ◌∷◌, Option, none, some, ◌==◌, any, if◌then◌else◌,
}
use kubevoltracker.Go.{Go, ◌>>=◌, give, panic}
use kubevoltracker.Strings.{split, decimal}
use kubevoltracker.Resources.{VolumeMount, ContainerDesc}
use kubevoltracker.Resources.Objects.{Volume, MountSpec, ContainerSpec, NfsSource, IscsiSource}
use kubevoltracker.Kubectl.Host.{Failure, Host, write_file}
use kubevoltracker.Kubectl.Config.{get_filename}
use kubevoltracker.Kubectl.Utils.{get_storage_value}

-- `TypeMeta` and the fields of `ObjectMeta` that are set
pub record Meta : Type 0 where
  pub kind : String
  pub api_version : String
  pub name : String
  pub namespace : String

pub record PodManifest : Type 0 where
  pub containers : List ContainerSpec
  pub volumes : List Volume

pub record ClaimManifest : Type 0 where
  pub access_modes : List String
  pub requests : List (String × ℤ)

pub record VolumeManifest : Type 0 where
  pub access_modes : List String
  pub capacity : List (String × ℤ)
  pub nfs : Option NfsSource
  pub iscsi : Option IscsiSource

-- The objects that are written, with the fields that the code sets; the others are zero.
pub data Manifest : Type 0 where
  pod_manifest : Meta → PodManifest → Manifest
  claim_manifest : Meta → ClaimManifest → Manifest
  volume_manifest : Meta → VolumeManifest → Manifest

-- `volumeMap`: its entry for a claim that has none yet
abbrev pub is_named : String → Volume → Bool
is_named name v = v.name == name

abbrev pub note_volume : String → List Volume → List Volume
note_volume name volumes =
    if any (is_named name) volumes
    then volumes
    else record { name = name; claim_name = some name } ∷ volumes

abbrev pub note_volumes : List VolumeMount → List Volume → List Volume
note_volumes [] volumes = volumes
note_volumes (pvc ∷ pvcs) volumes = note_volumes pvcs (note_volume pvc.name volumes)

-- the mounts of a container from the one with number `j` on
unfoldable pub mounts_from : ℕ → List VolumeMount → List MountSpec
unfolding decimal
mounts_from j [] = []
mounts_from j (pvc ∷ pvcs) =
    record { name = pvc.name; mount_path = "/mnt/nfs-" ++ decimal j; read_only = pvc.read_only }
    ∷ mounts_from (suc j) pvcs

unfoldable pub container_of : ContainerDesc → ContainerSpec
unfolding mounts_from split
container_of desc = record {
  name = desc.name;
  image = desc.image;
  command = split b' ' desc.command;
  volume_mounts = mounts_from 0 desc.pvc_mounts;
}

-- the loop over the containers: what it has made of `volumeMap`, and the containers
unfoldable pub fill_pod : List ContainerDesc → List Volume → List ContainerSpec × List Volume
unfolding container_of
fill_pod [] volumes = ([], volumes)
fill_pod (desc ∷ descs) volumes =
    let (containers, all) = fill_pod descs (note_volumes desc.pvc_mounts volumes) in
    (container_of desc ∷ containers, all)

-- The iteration over `volumeMap` has no fixed order: `order` is the one that it takes.
unfoldable pub pod_of :
    (List Volume → List Volume) → String → String → List ContainerDesc → Manifest
unfolding fill_pod
pod_of order name namespace descs =
    let (containers, volumes) = fill_pod descs [] in
    pod_manifest (record { kind = "Pod"; api_version = "v1"; name = name; namespace = namespace })
      (record { containers = containers; volumes = order volumes })

unfoldable pub claim_of : String → String → ℤ → List String → Manifest
unfolding get_storage_value
claim_of name namespace mb access_modes =
    claim_manifest
      (record {
        kind = "PersistentVolumeClaim";
        api_version = "v1";
        name = name;
        namespace = namespace;
      })
      (record { access_modes = access_modes; requests = ("storage", get_storage_value mb) ∷ [] })

unfoldable pub volume_of :
    String → Option NfsSource → Option IscsiSource → ℤ → List String → Manifest
unfolding get_storage_value
volume_of name nfs iscsi mb access_modes =
    volume_manifest
      (record { kind = "PersistentVolume"; api_version = "v1"; name = name; namespace = "" })
      (record {
        access_modes = access_modes;
        capacity = ("storage", get_storage_value mb) ∷ [];
        nfs = nfs;
        iscsi = iscsi;
      })

-- `json.Marshal`, which is a parameter; `none` is an error.
abbrev pub Marshal : Type 0
Marshal = Manifest → Option String

module _ {C : Type 0} (marshal : Marshal) where
  abbrev pub write_text : String → Option String → Go (Host C) (String × Option Failure)
  write_text filename none = panic
  write_text filename (some json) = write_file filename json >>= λ err. give (filename, err)

  -- `writeResource` of the object in JSON; a failed json.Marshal panics
  unfoldable pub write_manifest : String → Manifest → Go (Host C) (String × Option Failure)
  write_manifest filename m = write_text filename (marshal m)

  unfoldable pub write_pod :
      (List Volume → List Volume)
      → String
      → String
      → List ContainerDesc
      → Go (Host C) (String × Option Failure)
  unfolding write_manifest get_filename pod_of
  write_pod order name namespace descs =
      write_manifest (get_filename name "pod") (pod_of order name namespace descs)

  unfoldable pub write_pvc :
      String → String → ℤ → List String → Go (Host C) (String × Option Failure)
  unfolding write_manifest get_filename claim_of
  write_pvc name namespace mb access_modes =
      write_manifest (get_filename name "pvc") (claim_of name namespace mb access_modes)

  unfoldable pub write_pv :
      String
      → Option NfsSource
      → Option IscsiSource
      → ℤ
      → List String
      → Go (Host C) (String × Option Failure)
  unfolding write_manifest get_filename volume_of
  write_pv name nfs iscsi mb access_modes =
      write_manifest (get_filename name "pv") (volume_of name nfs iscsi mb access_modes)
