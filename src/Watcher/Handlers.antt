-- ===== src/Watcher/Handlers.antt =====
-- The handlers of watcher.go.
use kubevoltracker.Base.{
  ℕ, ℤ, pos, String, Bool, List, [], ◌∷◌, map, Option, none, some, ◌==◌, if◌then◌else◌,
}
use kubevoltracker.Go.{Go, ◌>>=◌, ◌>>◌, give, done, panic}
use kubevoltracker.Util.{get_command_string}
use kubevoltracker.DbManager.{DbManager, Table, nfs, iscsi}
use kubevoltracker.Resources.{ResourceType, pods, pvs, pvcs, VolumeMount, ContainerDesc}
use kubevoltracker.Resources.Objects.{
  Volume, MountSpec, ContainerSpec, PodResource, PvResource, PvcResource, Resource, pod, pv, pvc,
}
use kubevoltracker.Events.{EventType, added, modified, deleted}

-- `pvcNames[name]`: a later volume of the same name takes the place of an earlier one
abbrev pub pvc_name : List Volume → String → Option String
pvc_name [] name = none
pvc_name (v ∷ volumes) name = elim (pvc_name volumes name) [
  | some claim ↦ some claim
  | none ↦ if v.name == name then v.claim_name else none
]

abbrev pub add_mount : Option String → Bool → List VolumeMount → List VolumeMount
add_mount none read_only rest = rest
add_mount (some claim) read_only rest = record { name = claim; read_only = read_only } ∷ rest

abbrev pub pvc_mounts : List Volume → List MountSpec → List VolumeMount
pvc_mounts volumes [] = []
pvc_mounts volumes (mount ∷ mounts) =
    add_mount (pvc_name volumes mount.name) mount.read_only (pvc_mounts volumes mounts)

abbrev pub describe : List Volume → ContainerSpec → ContainerDesc
describe volumes container = record {
  name = container.name;
  image = container.image;
  command = get_command_string container.command;
  pvc_mounts = pvc_mounts volumes container.volume_mounts;
}

-- `resources[api.ResourceStorage]`, whose value is 0 if it is missing
abbrev pub storage_of : List (String × ℕ) → ℕ
storage_of [] = 0
storage_of ((name, value) ∷ rest) = if name == "storage" then value else storage_of rest

module _ {S : Type 0} (dbm : DbManager S) (watcher_ns : String) (now : ℕ) where
  abbrev pub pod_event : EventType → PodResource → String → Go S (Unit {0})
  pod_event event_type p json =
      if event_type == added
      then dbm.insert_pod p.uid p.name p.creation_timestamp p.namespace
          (map (describe p.volumes) p.containers) json watcher_ns p.resource_version
      else if event_type == deleted
      then elim p.deletion_timestamp [
        | some time ↦ dbm.delete_pod p.uid time watcher_ns p.resource_version
        -- a nil pointer
        | none ↦ panic
      ]
      else done

  -- The source of a volume; `""` and 0 if it is of no known kind.
  abbrev pub backend_of : PvResource → Go S (Table × ℤ)
  backend_of p = elim p.nfs [
    | some source ↦ dbm.insert_nfs source.server source.path >>= λ id. give (nfs, id)
    | none ↦ elim p.iscsi [
      | some source ↦
          dbm.insert_iscsi source.target_portal source.iqn source.lun source.fs_type >>= λ id.
          give (iscsi, id)
      | none ↦ give ("", pos 0)
    ]
  ]

  abbrev pub bind_if : PvResource → Go S (Unit {0})
  bind_if p = elim p.claim_ref [
    | some claim ↦ dbm.bind_pvc p.uid claim now p.resource_version
    | none ↦ done
  ]

  abbrev pub pv_added : PvResource → String → Go S (Unit {0})
  pv_added p json = backend_of p >>= λ (backend, id).
      (dbm.insert_pv p.uid p.name p.creation_timestamp id backend (storage_of p.capacity)
          p.access_modes json p.resource_version
        >> bind_if p)

  abbrev pub pv_modified : PvResource → String → Go S (Unit {0})
  pv_modified p json =
      if p.phase == "Bound"
      then elim p.claim_ref [
        | some claim ↦ dbm.bind_pvc p.uid claim now p.resource_version
        | none ↦ panic
      ]
      else if p.phase == "Available"
      then (backend_of p >>= λ (backend, id).
          dbm.update_pv p.uid id backend (storage_of p.capacity) p.access_modes json
            p.resource_version)
      else done

  -- the time that the API server gives, or else that of the clock
  abbrev pub time_or_now : Option ℕ → ℕ
  time_or_now none = now
  time_or_now (some time) = time

  abbrev pub pv_event : EventType → PvResource → String → Go S (Unit {0})
  pv_event event_type p json =
      if event_type == added
      then pv_added p json
      else if event_type == modified
      then pv_modified p json
      else if event_type == deleted
      then dbm.delete_pv p.uid (time_or_now p.deletion_timestamp) p.resource_version
      else done

  abbrev pub pvc_event : EventType → PvcResource → String → Go S (Unit {0})
  pvc_event event_type p json =
      if event_type == added
      then dbm.insert_pvc p.uid p.name p.creation_timestamp p.namespace (storage_of p.requests)
          p.access_modes json watcher_ns p.resource_version
      else if event_type == modified
      then (if p.phase == "Pending"
          then dbm.update_pvc p.uid (storage_of p.requests) p.access_modes json watcher_ns
              p.resource_version
          else done)
      else if event_type == deleted
      then dbm.delete_pvc p.uid (time_or_now p.deletion_timestamp) watcher_ns p.resource_version
      else done

  -- The handlers take any resource; one of another type fails the assertion `r.(*PodResource)`.
  unfoldable pub handle_pods : EventType → Resource → String → Go S (Unit {0})
  handle_pods event_type (pod p) json = pod_event event_type p json
  handle_pods event_type (pv p) json = panic
  handle_pods event_type (pvc p) json = panic

  unfoldable pub handle_pvs : EventType → Resource → String → Go S (Unit {0})
  handle_pvs event_type (pv p) json = pv_event event_type p json
  handle_pvs event_type (pod p) json = panic
  handle_pvs event_type (pvc p) json = panic

  unfoldable pub handle_pvcs : EventType → Resource → String → Go S (Unit {0})
  handle_pvcs event_type (pvc p) json = pvc_event event_type p json
  handle_pvcs event_type (pod p) json = panic
  handle_pvcs event_type (pv p) json = panic

  -- `getHandler`; the clock is read while the handler runs
  abbrev pub get_handler : ResourceType → Option (EventType → Resource → String → Go S (Unit {0}))
  get_handler resource =
      if resource == pods
      then some handle_pods
      else if resource == pvs
      then some handle_pvs
      else if resource == pvcs
      then some handle_pvcs
      else none
