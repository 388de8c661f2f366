-- ===== src/Watcher/Resume.antt =====
-- The watcher of watcher.go over the data store of dbmanager/mysql: after an event, a watch that
-- starts anew goes on from its version.
use kubevoltracker.Base.{
  ℕ, arith, ◌<◌, String, ◌≡◌, refl, ◌∙◌, ◌⊎◌, inl, inr, false, List, [], ◌∷◌, ◌++◌, none, some,
  length, eq_refl,
}
use kubevoltracker.Go.{Go, Outcome, returned, exited, panicked, hung, ◌>>=◌}
use kubevoltracker.Resources.{ResourceType, pvcs}
use kubevoltracker.Resources.Objects.{PvcResource, Resource, pvc}
use kubevoltracker.Events.{EventType, added, modified, deleted}
use kubevoltracker.Mysql.Schema.{Tables}
use kubevoltracker.Mysql.Conn.{Conn}
use kubevoltracker.Mysql.Conn.Laws.{next_fault}
use kubevoltracker.Mysql.Sql.{Server, IsLiteral}
use kubevoltracker.Mysql.View.{version_at, Recorded}
use kubevoltracker.Mysql.Rv.{get_rv}
use kubevoltracker.Mysql.Rv.Laws.{get_rv-version_at}
use kubevoltracker.Mysql.Manager.{manager}
use kubevoltracker.Mysql.Tx.Refines.{IsHonest}
use kubevoltracker.Mysql.Tx.Attempt.{IsIdle}
use kubevoltracker.Mysql.Insert.{insert_pvc}
use kubevoltracker.Mysql.Update.{update_pvc}
use kubevoltracker.Mysql.Delete.{delete_pvc}
use kubevoltracker.Mysql.Insert.Claims.{insert_pvc_effect}
use kubevoltracker.Mysql.Update.Effects.{update_pvc_effect}
use kubevoltracker.Mysql.Delete.Effects.{delete_pvc_effect}
use kubevoltracker.Watcher.Handlers.{handle_pvcs, storage_of, time_or_now}
use kubevoltracker.Watcher.Loop.{Session, watch_loop, loop}

-- a session that begins with what the server holds
abbrev pub fresh_session : Conn → Session Conn
fresh_session c = record { store = c; requests = []; closed = 0 }

Recorded-version :
    (t t' : Tables) (resource namespace rv : String)
    → Recorded t t' resource namespace rv
    → version_at t' resource namespace ≡ some rv
Recorded-version t t' resource namespace rv r =
    r resource namespace ∙ rw (eq_refl resource, eq_refl namespace) refl

module _ (server : Server) (fuel : ℕ) (namespace : String) where
  abbrev Handler : Type 0
  Handler = ℕ → EventType → Resource → String → Go Conn (Unit {0})

  -- what the session has asked for, by how `GetRV` ends
  abbrev asked : ResourceType → Handler → Conn → Outcome String × Conn → List String
  asked resource handler d out =
      ((((λ (s : Session Conn). (out.0, record s { store = out.1 })) >>= λ rv s.
      (returned rv, record s { requests = s.requests ++ rv ∷ [] }))
          >>= λ rv. loop (manager server fuel) namespace resource handler [] false rv)
        (fresh_session d)).1.requests

  asked_lem :
      (resource : ResourceType) (handler : Handler) (rv : String) (d : Conn)
      (out : Outcome String × Conn)
      → out.0 ≡ returned rv
      → asked resource handler d out ≡ rv ∷ []
  unfolding loop
  asked_lem resource handler rv d (returned v, b) e = ground arith
  asked_lem resource handler rv d (exited, b) e = ground arith
  asked_lem resource handler rv d (panicked, b) e = ground arith
  asked_lem resource handler rv d (hung, b) e = ground arith

  -- `GetRV` gives the version that is recorded, if the server answers.
  found :
      (resource ns rv : String) (d : Conn)
      → IsLiteral server resource
      → IsLiteral server ns
      → version_at d.tables resource ns ≡ some rv
      → next_fault d.faults ≡ none
      → (get_rv server resource ns d).0 ≡ returned rv
  found resource ns rv d l m e f = get_rv-version_at server resource ns l m d ∙ rw (e, f) refl

  module _ (now : ℕ) (json : String) (c : Conn) (idle : IsIdle c) (honest : IsHonest c.faults)
      (fueled : length c.faults < fuel) (literal_namespace : IsLiteral server namespace) where
    -- A claim's event that is recorded.
    abbrev pub IsClaimEvent : EventType → PvcResource → Type 0
    IsClaimEvent event_type p =
        (event_type ≡ added)
        ⊎ ((event_type ≡ deleted) ⊎ ((event_type ≡ modified) × (p.phase ≡ "Pending")))

    claim_recorded :
        (event_type : EventType) (p : PvcResource)
        → IsClaimEvent event_type p
        → version_at
            (handle_pvcs (manager server fuel) namespace now event_type (pvc p) json c).1.tables
            pvcs
            namespace
          ≡ some p.resource_version
    unfolding handle_pvcs
    claim_recorded event_type p (inl e) = rw e (
        let d =
          (insert_pvc server fuel p.uid p.name p.creation_timestamp p.namespace
            (storage_of p.requests) p.access_modes json namespace p.resource_version c).1 in
        let settled =
          insert_pvc_effect server fuel p.uid p.name p.creation_timestamp p.namespace
            (storage_of p.requests) p.access_modes json namespace p.resource_version c idle honest
            fueled in
        Recorded-version c.tables d.tables pvcs namespace p.resource_version settled.1.recorded)
    claim_recorded event_type p (inr (inl e)) = rw e (
        let d =
          (delete_pvc fuel p.uid
            (time_or_now (manager server fuel) namespace now p.deletion_timestamp) namespace
            p.resource_version c).1 in
        let settled =
          delete_pvc_effect fuel p.uid
            (time_or_now (manager server fuel) namespace now p.deletion_timestamp) namespace
            p.resource_version c idle honest fueled in
        Recorded-version c.tables d.tables pvcs namespace p.resource_version settled.1.recorded)
    claim_recorded event_type p (inr (inr (e, q))) =
        rw (e, q)
          (let d =
              (update_pvc fuel p.uid (storage_of p.requests) p.access_modes json namespace
                p.resource_version c).1 in
            let settled =
              update_pvc_effect fuel p.uid (storage_of p.requests) p.access_modes json namespace
                p.resource_version c idle honest fueled in
            Recorded-version c.tables d.tables pvcs namespace p.resource_version settled.1.recorded)

    -- The server may fail any calls while an event of a claim is handled that adds it, deletes it or
    -- changes it while it is pending; no failure pretends to be a duplicate key, the fuel exceeds
    -- their number, and no transaction was open. If the server answers again, a new watch of claims
    -- asks for the events from that event's version on. The names of the resource type and of the
    -- namespace have no wildcard.
    pub claim_event_resumes :
        (event_type : EventType) (p : PvcResource) (handler : Handler)
        → IsClaimEvent event_type p
        → IsLiteral server pvcs
        → next_fault
            (handle_pvcs (manager server fuel) namespace now event_type (pvc p) json c).1.faults
          ≡ none
        → (watch_loop (manager server fuel) namespace pvcs handler [] false (
            fresh_session
              (handle_pvcs
                (manager server fuel)
                namespace
                now
                event_type
                (pvc p)
                json
                c).1)).1.requests
          ≡ p.resource_version ∷ []
    unfolding watch_loop
    claim_event_resumes event_type p handler h l f =
        let d = (handle_pvcs (manager server fuel) namespace now event_type (pvc p) json c).1 in
        asked_lem pvcs handler p.resource_version d (get_rv server pvcs namespace d) (
          found pvcs namespace p.resource_version d l literal_namespace
            (claim_recorded event_type p h) f)
