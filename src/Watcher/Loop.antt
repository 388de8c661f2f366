-- ===== src/Watcher/Loop.antt =====
-- The goroutine that `Watch` of watcher.go starts: it asks the API server for the events of a
-- resource type and hands each to the handler. What its `select` receives is a list of signals, in
-- the order in which it receives them.
pub mod Laws
use kubevoltracker.Base.{
  ℕ, suc, String, Bool, true, false, List, [], ◌∷◌, ◌++◌, Option, none, some, nat_eq, ◌==◌,
  if◌then◌else◌,
}
use kubevoltracker.Go.{
  Go, Outcome, returned, exited, panicked, hung, ◌>>=◌, ◌>>◌, give, exit, panic,
}
use kubevoltracker.DbManager.{DbManager}
use kubevoltracker.Resources.{ResourceType, pvs, pv_namespace}
use kubevoltracker.Resources.Objects.{Resource, get_rv}
use kubevoltracker.Events.{EventType, ResourceEvent, status_too_old}

-- the errors of a `WatchEvent`
pub data WatchError : Type 0 where
  eof : WatchError
  broken : WatchError

-- `JSONEvent`: an `unversioned.Status`, by its code, or a `ResourceEvent`
pub data JsonEvent : Type 0 where
  status : ℕ → JsonEvent
  resource_event : ResourceEvent → JsonEvent

pub record WatchEvent : Type 0 where
  pub json_event : Option JsonEvent
  pub json : String
  pub err : Option WatchError

-- `received now e`: the event `e`, at a time when the clock says `now`
pub data Signal : Type 0 where
  received : ℕ → WatchEvent → Signal
  stop : Signal

-- The data store, the resource versions of the requests made so far, and how many of the channels
-- `done` are closed.
pub record Session (S : Type 0) : Type 0 where
  pub store : S
  pub requests : List String
  pub closed : ℕ

-- The goroutine has returned, or it waits for a signal, with its `initialize` and `rv`.
pub data Ending : Type 0 where
  stopped : Ending
  waiting : Bool → String → Ending

abbrev pub lift : {S A : Type 0} → Go S A → Go (Session S) A
lift m s = let (r, t) = m s.store in (r, record s { store = t })

abbrev pub close_done : {S : Type 0} → Session S → Session S
close_done s = record s { closed = suc s.closed }

module _ {S : Type 0} (dbm : DbManager S) (namespace : String) where
  -- `getRV`
  abbrev pub get_rv_of : ResourceType → Bool → Go S String
  get_rv_of resource initialize =
      if initialize
      then give ""
      else dbm.get_rv resource (if resource == pvs then pv_namespace else namespace)

  -- `rv = w.getRV(...)` and `w.client.Watch(...)`
  abbrev pub request : ResourceType → Bool → Go (Session S) String
  request resource initialize = lift (get_rv_of resource initialize) >>= λ rv s.
      (returned rv, record s { requests = s.requests ++ rv ∷ [] })

  module _ (resource : ResourceType)
      (handler : ℕ → EventType → Resource → String → Go S (Unit {0})) where
    -- what the status at the end of a connection says about the next one
    abbrev pub next_initialize : Option JsonEvent → Bool → Option Bool
    next_initialize none initialize = some initialize
    next_initialize (some (status code)) initialize =
        some (if nat_eq code status_too_old then true else initialize)
    next_initialize (some (resource_event e)) initialize = none

    -- an event of the resource, unless its version is the one that was asked for
    abbrev pub handle : ℕ → Option JsonEvent → String → String → Go S (Unit {0})
    handle now (some (resource_event e)) json rv =
        if get_rv e.resource == rv then give tt else handler now e.type e.resource json
    handle now (some (status code)) json rv = panic
    handle now none json rv = panic

    -- `getRV` and a request follow the end of a connection, or a type assertion has failed
    abbrev pub reconnect :
        (Bool → String → Go (Session S) Ending) → Option Bool → Go (Session S) Ending
    reconnect next (some again) = request resource again >>= λ rv. next again rv
    reconnect next none = panic

    -- one event, by its error; `next` goes on with the loop
    abbrev pub react :
        (Bool → String → Go (Session S) Ending)
        → Option WatchError
        → ℕ
        → Option JsonEvent
        → String
        → Bool
        → String
        → Go (Session S) Ending
    react next (some eof) now json_event json initialize rv s =
        reconnect next (next_initialize json_event initialize) (close_done s)
    react next (some broken) now json_event json initialize rv s = (exited, close_done s)
    react next none now json_event json initialize rv s =
        (lift (handle now json_event json rv) >>= λ _. next initialize rv) s

    unfoldable pub loop : List Signal → Bool → String → Go (Session S) Ending
    loop [] initialize rv s = (returned (waiting initialize rv), s)
    loop (stop ∷ signals) initialize rv s = (returned stopped, close_done s)
    loop (received now e ∷ signals) initialize rv s =
        react (λ again rv'. loop signals again rv') e.err now e.json_event e.json initialize rv s

    unfoldable pub watch_loop : List Signal → Bool → Go (Session S) Ending
    unfolding loop
    watch_loop signals initialize = request resource initialize >>= λ rv. loop signals initialize rv
