-- ===== src/Events.antt =====
-- events.go: the events that the API server sends.
use kubevoltracker.Base.{ℕ, String, Option, none, some, ◌==◌, if◌then◌else◌}
use Prim.Native.String.{◌++◌}
use kubevoltracker.Resources.{ResourceType, pods, pvs, pvcs}
use kubevoltracker.Resources.Objects.{Resource, to_string}

abbrev pub EventType : Type 0
EventType = String

abbrev pub added : EventType
added = "ADDED"

abbrev pub modified : EventType
modified = "MODIFIED"

abbrev pub deleted : EventType
deleted = "DELETED"

abbrev pub error : EventType
error = "ERROR"

abbrev pub status_too_old : ℕ
status_too_old = 410

-- `ResourceEvent`; which of `PodEvent`, `PVEvent` and `PVCEvent` it is, its resource says
pub record ResourceEvent : Type 0 where
  pub type : EventType
  pub resource : Resource

pub data Kind : Type 0 where
  pod_event : Kind
  pv_event : Kind
  pvc_event : Kind

-- `resourceFactoryMap[resource]`; for other types the factory is nil
abbrev pub resource_factory : ResourceType → Option Kind
resource_factory resource =
    if resource == pods
    then some pod_event
    else if resource == pvs
    then some pv_event
    else if resource == pvcs
    then some pvc_event
    else none

abbrev pub event_string : ResourceEvent → String
event_string e = e.type ++ (", Resource:  " ++ to_string e.resource)
