-- ===== src/Watcher/Connection.antt =====
-- A connection of apiclient.go from its start to its end, as the loop of watcher.go hears it.
pub mod Delivery
use kubevoltracker.Base.{
  true, Option, none, ◌==◌, nat_eq, if◌then◌else◌, ℕ, String, ◌≡◌, refl, ap, ◌∙◌, Bool, List, [],
  ◌∷◌, ◌++◌, map, some,
}
use kubevoltracker.Go.{Go, Outcome, returned, exited, panicked, hung, ◌>>=◌}
use kubevoltracker.DbManager.{DbManager}
use kubevoltracker.Resources.{ResourceType}
use kubevoltracker.Resources.Objects.{Resource}
use kubevoltracker.Events.{EventType, ResourceEvent, Kind, status_too_old}
use kubevoltracker.ApiClient.{Json, Read, line, at_end, serve, end_of_file, status_event}
use kubevoltracker.ApiClient.Laws.{AreEvents, sent, serve_lines}
use kubevoltracker.Watcher.Loop.{
  Ending, watch_loop, WatchEvent, Signal, received, Session, lift, loop, request, close_done,
}
use kubevoltracker.Watcher.Loop.Laws.{Arrival, signal_of, fresh, deliver, loop-deliver}

-- the events, each with the time at which it is heard
abbrev pub hear : List ℕ → List WatchEvent → List Signal
hear (now ∷ times) (e ∷ events) = received now e ∷ hear times events
hear _ _ = []

abbrev pub times_of : List Arrival → List ℕ
times_of = map (λ (a : Arrival). a.now)

abbrev pub texts_of : List Arrival → List String
texts_of = map (λ (a : Arrival). a.json)

abbrev pub events_of : List Arrival → List ResourceEvent
events_of = map (λ (a : Arrival). a.event)

hear-sent :
    (arrivals : List Arrival) (last : ℕ) (e : WatchEvent)
    → hear
        (times_of arrivals ++ last ∷ [])
        (sent (texts_of arrivals) (events_of arrivals) ++ e ∷ [])
      ≡ map signal_of arrivals ++ received last e ∷ []
hear-sent [] last e = refl
hear-sent (a ∷ arrivals) last e =
    ap (λ (xs : List Signal). signal_of a ∷ xs) (hear-sent arrivals last e)

-- A connection: its events, when its end is heard, and how it ends: at the end of file, or by the
-- message of a status, with its code and its text.
pub record Connection : Type 0 where
  pub arrivals : List Arrival
  pub last : ℕ
  pub message : Option (ℕ × String)

abbrev pub end_event : Option (ℕ × String) → WatchEvent
end_event none = end_of_file
end_event (some (code, text)) = status_event (some code) text

abbrev pub end_reads : Option (ℕ × String) → List Read
end_reads none = at_end ∷ []
end_reads (some (code, text)) = line text ∷ []

-- The message has no type of an event, and is the status.
abbrev pub IsMessage : Json → Kind → Option (ℕ × String) → Type 0
IsMessage json kind none = Unit
IsMessage json kind (some (code, text)) =
    ((json.event kind text).0 ≡ true)
    × (((json.event kind text).1.type == "") ≡ true)
    × (json.status text ≡ some code)

abbrev pub IsConnection : Json → Kind → Connection → Type 0
IsConnection json kind c =
    AreEvents json kind (texts_of c.arrivals) (events_of c.arrivals) × IsMessage json kind c.message

abbrev pub AreConnections : Json → Kind → List Connection → Type 0
AreConnections json kind [] = Unit
AreConnections json kind (c ∷ cs) = IsConnection json kind c × AreConnections json kind cs

-- what the watcher hears of a connection, and of several, one after the other
abbrev pub signals_of : Json → Kind → Connection → List Signal
signals_of json kind c =
    hear (times_of c.arrivals ++ c.last ∷ [])
      (serve json (some kind) (map line (texts_of c.arrivals) ++ end_reads c.message)).0

abbrev pub all_signals : Json → Kind → List Connection → List Signal
all_signals json kind [] = []
all_signals json kind (c ∷ cs) = signals_of json kind c ++ all_signals json kind cs

-- whether the next connection starts anew
abbrev pub starts_anew : Option (ℕ × String) → Bool → Bool
starts_anew none initialize = initialize
starts_anew (some (code, text)) initialize = if nat_eq code status_too_old then true else initialize

serve_end :
    (json : Json) (kind : Kind) (m : Option (ℕ × String))
    → IsMessage json kind m
    → (serve json (some kind) (end_reads m)).0 ≡ end_event m ∷ []
unfolding serve
serve_end json kind none i = refl
serve_end json kind (some (code, text)) (d, t, c) = rw (d, t, c) refl

pub heard :
    (json : Json) (kind : Kind) (c : Connection)
    → IsConnection json kind c
    → signals_of json kind c
      ≡ map signal_of c.arrivals ++ received c.last (end_event c.message) ∷ []
heard json kind c (a, m) =
    ap (hear (times_of c.arrivals ++ c.last ∷ [])) (
      serve_lines json kind _ _ (end_reads c.message) a
      ∙ ap (λ ws. sent (texts_of c.arrivals) (events_of c.arrivals) ++ ws)
          (serve_end json kind c.message m))
    ∙ hear-sent c.arrivals c.last (end_event c.message)
