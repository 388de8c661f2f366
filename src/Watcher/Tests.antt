-- ===== src/Watcher/Tests.antt =====
-- The theorems about watcher.go, apiclient.go and the mock, at concrete events.
use kubevoltracker.Base.{
  ℕ, String, ◌≡◌, refl, inl, inr, true, false, List, [], ◌∷◌, ◌++◌, map, none, some, arith, any,
  nat_eq, ◌==◌, if◌then◌else◌,
}
use kubevoltracker.Go.{Go, returned, panicked, ◌>>=◌}
use kubevoltracker.Resources.{pods, pvs, pvcs}
use kubevoltracker.Resources.Objects.{PodResource, PvcResource, Resource, pod, pvc}
use kubevoltracker.Events.{EventType, modified, pod_event}
use kubevoltracker.ApiClient.{Json, line, at_end, closed, serve, end_of_file}
use kubevoltracker.ApiClient.Laws.{sent, serve-sent, serve_undecodable}
use kubevoltracker.Mock.{NfsId, MockManager, manager, new, insert_nfs}
use kubevoltracker.Mock.Laws.{MockIdsValid, insert_nfs_apart}
use kubevoltracker.Mysql.Conn.{Conn}
use kubevoltracker.Mysql.Tests.{server, calm}
use kubevoltracker.Mysql.Manager
use kubevoltracker.Watcher.Mounts.{ComesFrom, pvc_mounts-ComesFrom}
use kubevoltracker.Resources.Objects.{MountSpec}
use kubevoltracker.Watcher.Handlers.{handle_pods, handle_pvcs}
use kubevoltracker.Watcher.Loop.{
  status, resource_event, eof, received, stop, Session, loop, request, watch_loop,
}
use kubevoltracker.Watcher.Loop.Laws.{Arrival, AskForAll, too_old_forgets}
use kubevoltracker.Watcher.Connection.{Connection, all_signals}
use kubevoltracker.Watcher.Connection.Delivery.{deliver_all, connections_deliver}
use kubevoltracker.Watcher.Resume.{fresh_session, claim_event_resumes}
use kubevoltracker.Watcher.Channels.{Watcher, Watch, new_watcher, watch, destroy}
use kubevoltracker.Watcher.Channels.Laws.{Reachable, begun, watched}
use kubevoltracker.Watcher.Channels.Running.{running_once, destroy_stops_all, destroy_again_panics}

abbrev web : PodResource
web = record {
  uid = "pod-1";
  name = "web";
  namespace = "default";
  resource_version = "40";
  creation_timestamp = 7;
  deletion_timestamp = some 9;
  volumes = record { name = "v"; claim_name = some "data" } ∷ [];
  containers =
      record {
        name = "nginx";
        image = "nginx:1";
        command = "run" ∷ [];
        volume_mounts = record { name = "v"; mount_path = "/v"; read_only = false } ∷ [];
      }
      ∷ [];
  host_ip = "10.0.0.9";
  phase = "";
  message = "";
  reason = "";
}

abbrev claim : PvcResource
claim = record {
  uid = "pvc-2";
  name = "data";
  namespace = "default";
  resource_version = "41";
  creation_timestamp = 8;
  deletion_timestamp = none;
  requests = ("storage", 70) ∷ [];
  access_modes = "ReadWriteOnce" ∷ [];
  phase = "Pending";
}

abbrev on_claim : ℕ → EventType → Resource → String → Go Conn (Unit {0})
on_claim now = handle_pvcs (Manager.manager server 9) "default" now

claim_event_resumes_example :
    (watch_loop (Manager.manager server 9) "default" pvcs on_claim [] false (
      fresh_session
        (handle_pvcs
          (Manager.manager server 9)
          "default"
          50
          modified
          (pvc claim)
          "{}"
          calm).1)).1.requests
    ≡ "41" ∷ []
unfolding handle_pvcs kubevoltracker.Mysql.Update.update_pvc kubevoltracker.Mysql.Tx.run_tx
    kubevoltracker.Mysql.Tx.run_tx_actual kubevoltracker.Mysql.Conn.call
claim_event_resumes_example =
    claim_event_resumes server 9 "default" 50 "{}" calm (refl, refl) tt (omega arith) (λ v. refl)
      modified claim on_claim (inr (inr (refl, refl))) (λ v. refl) refl

abbrev on_pod : ℕ → EventType → Resource → String → Go MockManager (Unit {0})
on_pod now = handle_pods manager "default" now

abbrev arrivals : List Arrival
arrivals =
    record { now = 50; event = record { type = "ADDED"; resource = pod web }; json = "1" }
    ∷ (record { now = 51; event = record { type = "DELETED"; resource = pod web }; json = "2" }
        ∷ [])

abbrev session : Session MockManager
session = record { store = new false; requests = "39" ∷ []; closed = 0 }

too_old_forgets_example : AskForAll ("39" ∷ []) (
    loop manager "default" pods on_pod
      (received 50 (record { json_event = some (status 410); json = "gone"; err = some eof })
        ∷ (received 51 end_of_file ∷ []))
      false
      "39"
      session)
too_old_forgets_example =
    too_old_forgets manager "default" pods on_pod 50 "gone" (received 51 end_of_file ∷ []) false
      "39" session

-- a decoder that knows a few lines
abbrev json : Json
json = record {
  event = λ kind text. (
    if text == "gone" then false else true,
    record {
      type = (if text == "2" then "DELETED" else if text == "old" then "" else "ADDED");
      resource = pod web;
    },
  );
  status_message = λ text. if text == "gone" then some 410 else none;
  status = λ text. if text == "old" then some 410 else none;
}

-- a connection that ends since the version is too old, and the next
abbrev two_connections : List Connection
two_connections =
    record { arrivals = arrivals; last = 52; message = some (410, "old") }
    ∷ (record { arrivals = arrivals; last = 60; message = none } ∷ [])

connections_deliver_example :
    watch_loop manager "default" pods on_pod
      (all_signals json pod_event two_connections ++ stop ∷ [])
      false
      session
    ≡ (request manager "default" pods false >>= λ rv.
          deliver_all manager "default" pods on_pod two_connections (stop ∷ []) false rv)
        session
connections_deliver_example =
    connections_deliver manager "default" pods on_pod json pod_event two_connections (stop ∷ [])
      false session
      (
        (((refl, refl), ((refl, refl), tt)), (refl, refl, refl)),
        ((((refl, refl), ((refl, refl), tt)), tt), tt),
      )

serve-sent_example : serve json (some pod_event) (map line ("1" ∷ ("2" ∷ [])) ++ at_end ∷ []) ≡ (
  sent ("1" ∷ ("2" ∷ [])) (
        record { type = "ADDED"; resource = pod web }
        ∷ (record { type = "DELETED"; resource = pod web } ∷ []))
      ++ end_of_file ∷ [],
  closed,
)
serve-sent_example =
    serve-sent json pod_event ("1" ∷ ("2" ∷ []))
      (record { type = "ADDED"; resource = pod web }
        ∷ (record { type = "DELETED"; resource = pod web } ∷ []))
      ((refl, refl), ((refl, refl), tt))

serve_undecodable_example :
    (serve json (some pod_event) (line "gone" ∷ [])).0
    ≡ record { json_event = some (status 410); json = "gone"; err = some eof }
      ∷ (record {
        json_event = some (resource_event (record { type = "ADDED"; resource = pod web }));
        json = "gone";
        err = none;
      }
          ∷ [])
serve_undecodable_example =
    serve_undecodable json pod_event "gone" (record { type = "ADDED"; resource = pod web }) 410 refl
      refl refl

-- a watcher after two calls of `Watch`
abbrev watching : Watcher
watching = (watch pvs false (watch pods false (new_watcher "")).1).1

reachable : Reachable "" watching
reachable = watched pvs false (watched pods false begun)

abbrev first : Watch
first = record { resource = "pods"; initialize = false; stop = 0 }

running_once_example : first ≡ first
unfolding watch
running_once_example =
    running_once "" watching first first reachable (inl refl, refl) (inl refl, refl) refl

destroy_stops_all_example :
    ((destroy watching).0 ≡ returned tt) × (any (nat_eq 0) (destroy watching).1.closed ≡ true)
unfolding watch
destroy_stops_all_example = destroy_stops_all "" watching first reachable (inl refl)

destroy_again_panics_example : (destroy (destroy watching).1).0 ≡ panicked
unfolding watch
destroy_again_panics_example = destroy_again_panics "" watching pods 0 reachable refl

abbrev source : NfsId
source = record { ip_addr = "10.0.0.1"; path = "/exports" }

insert_nfs_apart_example :
    MockIdsValid (insert_nfs "10.0.0.1" "/exports" (new false)).1
    × (source.ip_addr ≡ source.ip_addr)
    × (source.path ≡ source.path)
unfolding insert_nfs
insert_nfs_apart_example =
    insert_nfs_apart "10.0.0.1" "/exports" source source 1 (new false) tt refl refl

abbrev specs : List MountSpec
specs = record { name = "v"; mount_path = "/v"; read_only = true } ∷ []

pvc_mounts-ComesFrom_example :
    ComesFrom web.volumes specs (record { name = "data"; read_only = true })
pvc_mounts-ComesFrom_example =
    pvc_mounts-ComesFrom web.volumes specs (record { name = "data"; read_only = true }) (inl refl)
