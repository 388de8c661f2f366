-- ===== src/ApiClient/Laws.antt =====
-- What apiclient.go sends for the lines that it reads.
use kubevoltracker.Base.{
  ℕ, String, ◌≡◌, refl, ap, ◌∙◌, Bool, true, false, List, [], ◌∷◌, ◌++◌, map, Option, none, some,
  ◌==◌, if◌then◌else◌,
}
use kubevoltracker.Events.{ResourceEvent, Kind}
use kubevoltracker.Watcher.Loop.{WatchEvent, resource_event, eof, status}
use kubevoltracker.ApiClient.{
  Json, Read, line, at_end, Reader, closed, serve, line_events, end_of_file, decode_failure,
  line_event, status_event,
}

-- The line is an event of the kind with a type.
abbrev pub IsEvent : Json → Kind → String → ResourceEvent → Type 0
IsEvent json kind text event = (json.event kind text ≡ (true, event)) × ((event.type == "") ≡ false)

abbrev pub AreEvents : Json → Kind → List String → List ResourceEvent → Type 0
AreEvents json kind [] [] = Unit
AreEvents json kind (text ∷ texts) (event ∷ events) =
    IsEvent json kind text event × AreEvents json kind texts events
AreEvents json kind _ _ = ⊥

abbrev pub sent : List String → List ResourceEvent → List WatchEvent
sent (text ∷ texts) (event ∷ events) =
    record { json_event = some (resource_event event); json = text; err = none } ∷ sent texts events
sent _ _ = []

one_event :
    (json : Json) (kind : Kind) (text : String) (event : ResourceEvent) (rest : List WatchEvent)
    → IsEvent json kind text event
    → line_events json kind text rest
      ≡ record { json_event = some (resource_event event); json = text; err = none } ∷ rest
one_event json kind text event rest (e, t) =
    ap
      (λ (p : Bool × ResourceEvent). decode_failure json p.0 text (line_event json p.1 text ∷ rest))
      e
    ∙ ap
        (λ (b : Bool).
          (if b
            then status_event (json.status text) text
            else record { json_event = some (resource_event event); json = text; err = none })
          ∷ rest)
        t

-- the events of some lines, before those of the others
pub serve_lines :
    (json : Json) (kind : Kind) (texts : List String) (events : List ResourceEvent)
    (reads : List Read)
    → AreEvents json kind texts events
    → (serve json (some kind) (map line texts ++ reads)).0
      ≡ sent texts events ++ (serve json (some kind) reads).0
unfolding serve
serve_lines json kind [] [] reads a = refl
serve_lines json kind [] (event ∷ events) reads a = absurd a
serve_lines json kind (text ∷ texts) [] reads a = absurd a
serve_lines json kind (text ∷ texts) (event ∷ events) reads (i, a) =
    ap (λ (ws : List WatchEvent). line_events json kind text ws)
      (serve_lines json kind texts events reads a)
    ∙ one_event json kind text event (sent texts events ++ (serve json (some kind) reads).0) i

-- If every line is an event with a type, exactly these events are sent, in the order of the lines and
-- each with its text, then the end of file, and the channel is closed.
pub serve-sent :
    (json : Json) (kind : Kind) (texts : List String) (events : List ResourceEvent)
    → AreEvents json kind texts events
    → serve json (some kind) (map line texts ++ at_end ∷ [])
      ≡ (sent texts events ++ end_of_file ∷ [], closed)
unfolding serve
serve-sent json kind [] [] a = refl
serve-sent json kind [] (event ∷ events) a = absurd a
serve-sent json kind (text ∷ texts) [] a = absurd a
serve-sent json kind (text ∷ texts) (event ∷ events) (i, a) =
    ap (λ (p : List WatchEvent × Reader). (line_events json kind text p.0, p.1))
      (serve-sent json kind texts events a)
    ∙ ap (λ (ws : List WatchEvent). (ws, closed))
        (one_event json kind text event (sent texts events ++ end_of_file ∷ []) i)

-- A line that cannot be decoded as an event, but as a message with a status, is answered by two
-- events: the end of the connection with that status, and the event that could not be decoded, if
-- its type has been read.
pub serve_undecodable :
    (json : Json) (kind : Kind) (text : String) (event : ResourceEvent) (code : ℕ)
    → json.event kind text ≡ (false, event)
    → json.status_message text ≡ some code
    → (event.type == "") ≡ false
    → (serve json (some kind) (line text ∷ [])).0
      ≡ record { json_event = some (status code); json = text; err = some eof }
        ∷ (record { json_event = some (resource_event event); json = text; err = none } ∷ [])
unfolding serve
serve_undecodable json kind text event code e m t =
    ap (λ (p : Bool × ResourceEvent). decode_failure json p.0 text (line_event json p.1 text ∷ []))
      e
    ∙ ap
        (λ (b : Bool).
          status_event (json.status_message text) text
          ∷ ((if b
                then status_event (json.status text) text
                else record { json_event = some (resource_event event); json = text; err = none })
              ∷ []))
        t
    ∙ ap
        (λ (c : Option ℕ).
          status_event c text
          ∷ (record { json_event = some (resource_event event); json = text; err = none } ∷ []))
        m
