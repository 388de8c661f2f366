-- ===== src/Watcher/Channels/Laws.antt =====
-- `Watch` and `Stop` keep the channels apart.
use mathlib.Core.Path.{subst}
use kubevoltracker.Base.{
  ℕ, String, ◌≡◌, refl, sym, ap, ◌∙◌, Bool, true, false, ◌∷◌, Option, none, some, nat_eq, any,
  arith, eq_refl,
}
use kubevoltracker.Go.{Outcome, returned, panicked, ◌>>=◌}
use kubevoltracker.Resources.{ResourceType}
use kubevoltracker.Events.{Kind, resource_factory}
use kubevoltracker.Watcher.Channels.{
  Watcher, channel_of, without, with_channel, start, watch_unless, close_unless, watch, stop,
  stop_channel, new_watcher,
}
use kubevoltracker.Watcher.Channels.Entries.{
  AreOpen, AreBelow, AreKnown, not_closed, AreBelow-suc, channel_of-below, AreOpen-without,
  closed_all_below, AreKnown-without, AreKnown-append,
}
use kubevoltracker.Watcher.Channels.Started.{
  StartedBelow, AreApart, StartedBelow-suc, StartedBelow-append, AreApart-append,
}

pub record IsValid (w : Watcher) : Type 0 where
  pub entries : AreOpen w.closed w.channels w.stop_channels
  pub below : AreBelow w.channels w.closed
  pub known : AreKnown w.closed w.stop_channels w.watches
  pub started : StartedBelow w.channels w.watches
  pub apart : AreApart w.watches

IsValid-with_channel :
    (w : Watcher) (resource : ResourceType)
    → IsValid w
    → channel_of resource w.stop_channels ≡ none
    → IsValid (with_channel resource w)
IsValid-with_channel w resource v e = record {
  entries = (omega arith, not_closed w.channels w.closed v.below, e, v.entries);
  below = AreBelow-suc w.channels w.closed v.below;
  known = closed_all_below w.closed w.stop_channels w.watches resource w.channels e v.known;
  started = StartedBelow-suc w.channels w.watches v.started;
  apart = v.apart;
}

start-Valid :
    (kind : Option Kind) (w : Watcher) (resource : ResourceType) (initialize : Bool)
    → IsValid w
    → channel_of resource w.stop_channels ≡ none
    → IsValid (start kind resource initialize w).1
start-Valid none w resource initialize v e = IsValid-with_channel w resource v e
start-Valid (some kind) w resource initialize v e =
    let u = with_channel resource w in
    let valid = IsValid-with_channel w resource v e in
    record {
      entries = valid.entries;
      below = valid.below;
      known =
          AreKnown-append u.closed u.stop_channels w.watches
            (record { resource = resource; initialize = initialize; stop = w.channels }) valid.known
            (rw (eq_refl resource) refl);
      started =
          StartedBelow-append u.channels w.watches
            (record { resource = resource; initialize = initialize; stop = w.channels })
            valid.started (omega arith);
      apart =
          AreApart-append w.watches
            (record { resource = resource; initialize = initialize; stop = w.channels }) v.apart
            v.started;
    }

watch_unless-Valid :
    (ch : Option ℕ) (w : Watcher) (resource : ResourceType) (initialize : Bool)
    → IsValid w
    → channel_of resource w.stop_channels ≡ ch
    → IsValid (watch_unless ch resource initialize w).1
watch_unless-Valid (some ch) w resource initialize v e = v
watch_unless-Valid none w resource initialize v e =
    start-Valid (resource_factory resource) w resource initialize v e

-- `Watch` keeps the channels apart.
pub watch-Valid :
    (w : Watcher) (resource : ResourceType) (initialize : Bool)
    → IsValid w
    → IsValid (watch resource initialize w).1
unfolding watch
watch-Valid w resource initialize v =
    watch_unless-Valid (channel_of resource w.stop_channels) w resource initialize v refl

-- the watcher without the entry of `resource`, whose channel is closed
abbrev stopped : ResourceType → ℕ → Watcher → Watcher
stopped resource ch w = record w {
  closed = ch ∷ w.closed;
  stop_channels = without resource w.stop_channels;
}

-- how `Stop` ends, by whether the channel that it closes is closed already
abbrev stop_by : Bool → ResourceType → ℕ → Watcher → Outcome (Option String) × Watcher
stop_by true resource ch w = (panicked, w)
stop_by false resource ch w = (returned none, stopped resource ch w)

stop_by_lem :
    (b : Bool) (resource : ResourceType) (ch : ℕ) (w : Watcher)
    → ((λ (v : Watcher). close_unless b ch v) >>= λ _ v.
          (returned none, record v { stop_channels = without resource v.stop_channels }))
        w
      ≡ stop_by b resource ch w
stop_by_lem true resource ch w = refl
stop_by_lem false resource ch w = refl

Stops : Outcome (Option String) × Watcher → Type 0
Stops out = ((e : Option String) × (out.0 ≡ returned e)) × IsValid out.1

stop_channel-Valid :
    (ch : Option ℕ) (w : Watcher) (resource : ResourceType)
    → IsValid w
    → channel_of resource w.stop_channels ≡ ch
    → Stops (stop_channel resource ch w)
unfolding Stops
stop_channel-Valid none w resource v e = ((some "Attempted to stop nonexistent watch", refl), v)
stop_channel-Valid (some ch) w resource v e =
    let (below, unclosed) =
      channel_of-below w.closed w.channels ch resource w.stop_channels v.entries e in
    subst Stops
      (sym (
        stop_by_lem (any (nat_eq ch) w.closed) resource ch w
        ∙ ap (λ b. stop_by b resource ch w) unclosed))
      (
        (none, refl),
        record {
          entries = AreOpen-without w.closed w.channels ch resource w.stop_channels v.entries e;
          below = (below, v.below);
          known = AreKnown-without w.closed w.stop_channels w.watches resource ch e v.known;
          started = v.started;
          apart = v.apart;
        },
      )

-- `Stop` of a watcher whose channels are kept apart returns, with an error or none, and they are kept
-- apart after it: no channel is closed twice.
pub stop-Valid :
    (w : Watcher) (resource : ResourceType)
    → IsValid w
    → ((e : Option String) × ((stop resource w).0 ≡ returned e)) × IsValid (stop resource w).1
unfolding stop Stops
stop-Valid w resource v = stop_channel-Valid (channel_of resource w.stop_channels) w resource v refl

-- A watcher as calls of `Watch` and `Stop` can make it.
pub data Reachable (namespace : String) : Watcher → Type 0 where
  begun : Reachable namespace (new_watcher namespace)
  watched :
      {w : Watcher} (resource : ResourceType) (initialize : Bool)
      → Reachable namespace w
      → Reachable namespace (watch resource initialize w).1
  ended :
      {w : Watcher} (resource : ResourceType)
      → Reachable namespace w
      → Reachable namespace (stop resource w).1

pub Reachable-Valid : {namespace : String} {w : Watcher} → Reachable namespace w → IsValid w
Reachable-Valid begun = record { entries = tt; below = tt; known = tt; started = tt; apart = tt }
Reachable-Valid (watched resource initialize r) =
    watch-Valid _ resource initialize (Reachable-Valid r)
Reachable-Valid (ended resource r) = (stop-Valid _ resource (Reachable-Valid r)).1
