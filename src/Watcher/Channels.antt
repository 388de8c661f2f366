-- ===== src/Watcher/Channels.antt =====
-- `Watch`, `Stop`, `Destroy` and `NewWatcher` of watcher.go: the channels that end the goroutines.
-- A channel is a number.
pub mod Entries
pub mod Started
pub mod Laws
pub mod Running
use kubevoltracker.Base.{
  ℕ, suc, String, Bool, true, false, List, [], ◌∷◌, ◌++◌, Option, none, some, nat_eq, any, ◌==◌,
  if◌then◌else◌,
}
use kubevoltracker.Go.{Go, Outcome, returned, panicked, ◌>>=◌, give}
use kubevoltracker.Resources.{ResourceType}
use kubevoltracker.Events.{Kind, resource_factory}

-- a goroutine, and the channel that it listens to
pub record Watch : Type 0 where
  pub resource : ResourceType
  pub initialize : Bool
  pub stop : ℕ

pub record Watcher : Type 0 where
  pub namespace : String
  -- `stopChannels`
  pub stop_channels : List (ResourceType × ℕ)
  -- how many channels there are, which of them are closed, and the goroutines that were started
  pub channels : ℕ
  pub closed : List ℕ
  pub watches : List Watch

abbrev pub channel_of : ResourceType → List (ResourceType × ℕ) → Option ℕ
channel_of resource [] = none
channel_of resource ((r, ch) ∷ rest) = if r == resource then some ch else channel_of resource rest

abbrev pub without : ResourceType → List (ResourceType × ℕ) → List (ResourceType × ℕ)
without resource [] = []
without resource ((r, ch) ∷ rest) =
    if r == resource then without resource rest else (r, ch) ∷ without resource rest

-- `close(ch)`, which panics if the channel is closed
abbrev pub close_unless : Bool → ℕ → Go Watcher (Unit {0})
close_unless true ch w = (panicked, w)
close_unless false ch w = (returned tt, record w { closed = ch ∷ w.closed })

abbrev pub close : ℕ → Go Watcher (Unit {0})
close ch w = close_unless (any (nat_eq ch) w.closed) ch w

-- the channel is entered before the resource type is looked up
abbrev pub with_channel : ResourceType → Watcher → Watcher
with_channel resource w = record w {
  stop_channels = (resource, w.channels) ∷ w.stop_channels;
  channels = suc w.channels;
}

-- `getHandler` gives an error, or a goroutine is started
abbrev pub start : Option Kind → ResourceType → Bool → Watcher → Option String × Watcher
start none resource initialize w = (some "Unable to handle resource type", with_channel resource w)
start (some kind) resource initialize w = (
  none,
  record (with_channel resource w) {
    watches =
        w.watches
        ++ record { resource = resource; initialize = initialize; stop = w.channels } ∷ [];
  },
)

abbrev pub watch_unless : Option ℕ → ResourceType → Bool → Watcher → Option String × Watcher
watch_unless (some ch) resource initialize w = (none, w)
watch_unless none resource initialize w = start (resource_factory resource) resource initialize w

-- the error, if any, and the watcher
unfoldable pub watch : ResourceType → Bool → Watcher → Option String × Watcher
watch resource initialize w =
    watch_unless (channel_of resource w.stop_channels) resource initialize w

abbrev pub stop_channel : ResourceType → Option ℕ → Go Watcher (Option String)
stop_channel resource none w = (returned (some "Attempted to stop nonexistent watch"), w)
stop_channel resource (some ch) w =
    (close ch >>= λ _ v.
    (returned none, record v { stop_channels = without resource v.stop_channels }))
      w

unfoldable pub stop : ResourceType → Go Watcher (Option String)
stop resource w = stop_channel resource (channel_of resource w.stop_channels) w

abbrev pub close_all : List (ResourceType × ℕ) → Go Watcher (Unit {0})
close_all [] = give tt
close_all ((r, ch) ∷ rest) = close ch >>= λ _. close_all rest

-- `Destroy`, before it calls `Destroy` of the data store
unfoldable pub destroy : Go Watcher (Unit {0})
destroy w = close_all w.stop_channels w

abbrev pub new_watcher : String → Watcher
new_watcher namespace = record {
  namespace = namespace;
  stop_channels = [];
  channels = 0;
  closed = [];
  watches = [];
}
