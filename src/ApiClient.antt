-- ===== src/ApiClient.antt =====
-- apiclient.go: the client that reads the events of a resource type from the API server, a line for
-- each. What json.Unmarshal makes of a line is a parameter.
pub mod Laws
use Prim.Native.String.{◌++◌}
use kubevoltracker.Base.{
  ℕ, String, Bool, true, false, not, ◌&&◌, List, [], ◌∷◌, Option, none, some, ◌==◌, if◌then◌else◌,
}
use kubevoltracker.Resources.{ResourceType, pvs}
use kubevoltracker.Events.{ResourceEvent, Kind, resource_factory}
use kubevoltracker.Watcher.Loop.{
  WatchError, eof, broken, JsonEvent, status, resource_event, WatchEvent,
}

-- json.Unmarshal, for each type that it is called with. For an event it says whether the line could
-- be decoded, and what stands in the event then, decoded or not; a status is its code.
pub record Json : Type 0 where
  pub event : Kind → String → Bool × ResourceEvent
  pub status_message : String → Option ℕ
  pub status : String → Option ℕ

-- what `reader.ReadBytes` gives
pub data Read : Type 0 where
  line : String → Read
  at_end : Read
  failed : Read

-- How the goroutine stands: it has closed the channel, it has panicked, or it reads on.
pub data Reader : Type 0 where
  closed : Reader
  panicked : Reader
  reading : Reader

abbrev pub failure : WatchEvent
failure = record { json_event = none; json = ""; err = some broken }

abbrev pub end_of_file : WatchEvent
end_of_file = record { json_event = none; json = ""; err = some eof }

abbrev pub status_event : Option ℕ → String → WatchEvent
status_event (some code) text = record {
  json_event = some (status code);
  json = text;
  err = some eof;
}
status_event none text = failure

-- what is sent for a line that could not be decoded, before the type of the event is looked at
abbrev pub decode_failure : Json → Bool → String → List WatchEvent → List WatchEvent
decode_failure json true text rest = rest
decode_failure json false text rest = status_event (json.status_message text) text ∷ rest

abbrev pub line_event : Json → ResourceEvent → String → WatchEvent
line_event json event text =
    if event.type == ""
    then status_event (json.status text) text
    else record { json_event = some (resource_event event); json = text; err = none }

abbrev pub line_events : Json → Kind → String → List WatchEvent → List WatchEvent
line_events json kind text rest =
    let (decoded, event) = json.event kind text in
    decode_failure json decoded text (line_event json event text ∷ rest)

-- The events that are sent for what is read; `createEvent` is nil for an unknown resource type.
unfoldable pub serve : Json → Option Kind → List Read → List WatchEvent × Reader
serve json kind [] = ([], reading)
serve json kind (at_end ∷ reads) = (end_of_file ∷ [], closed)
serve json kind (failed ∷ reads) = (failure ∷ [], closed)
serve json none (line text ∷ reads) = ([], panicked)
serve json (some kind) (line text ∷ reads) =
    let (events, state) = serve json (some kind) reads in (line_events json kind text events, state)

-- `http.Get` fails, or its body is read
abbrev pub answer : Json → Option Kind → Option (List Read) → List WatchEvent × Reader
answer json kind none = (failure ∷ [], closed)
answer json kind (some reads) = serve json kind reads

abbrev pub namespace_component : String → ResourceType → String
namespace_component namespace resource =
    if not (namespace == "") && not (resource == pvs) then "namespaces/" ++ namespace else ""

abbrev pub version_component : String → String
version_component version = if version == "" then "" else "?resourceVersion=" ++ version

unfoldable pub watch_url : String → ResourceType → String → String → String
watch_url api_url resource namespace version =
    api_url
    ++ ("/watch/"
        ++ (namespace_component namespace resource
            ++ ("/" ++ (resource ++ version_component version))))

-- the client, by the URL of the API
pub record ApiClient : Type 0 where
  pub api_url : String

-- `Watch`: what is sent, and how the goroutine stands; `get` is what `http.Get` gives for a URL
unfoldable pub watch :
    Json
    → (String → Option (List Read))
    → ApiClient
    → ResourceType
    → String
    → String
    → List WatchEvent × Reader
unfolding watch_url serve
watch json get client resource namespace version =
    answer json (resource_factory resource)
      (get (watch_url client.api_url resource namespace version))

-- `NewAPIClient`: the client, unless the address is empty
unfoldable pub new_api_client : String → Option ApiClient
new_api_client master =
    if master == "" then none else some (record { api_url = "http://" ++ (master ++ "/api/v1/") })
