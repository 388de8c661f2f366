-- ===== src/Watcher/Channels/Running.antt =====
-- At most one goroutine watches a resource type, and `Destroy` ends all.
use mathlib.Core.Path.{subst}
use kubevoltracker.Base.{
  Among, ℕ, String, ◌≡◌, refl, ap, ◌∙◌, ◌⊎◌, inl, inr, true, false, Bool-cases, List, [], ◌∷◌, some,
  nat_eq, any, arith, ◌==◌,
}
use kubevoltracker.Go.{returned, panicked, ◌>>=◌}
use kubevoltracker.Resources.{ResourceType}
use kubevoltracker.Watcher.Channels.{Watch, Watcher, channel_of, close_unless, close_all, destroy}
use kubevoltracker.Watcher.Channels.Entries.{Chans, AreOpen, AreKnown, close_other}
use kubevoltracker.Watcher.Channels.Started.{one_watch}
use kubevoltracker.Watcher.Channels.Laws.{IsValid, Reachable, Reachable-Valid}

-- The goroutine listens to a channel that is not closed.
abbrev pub IsRunning : Watcher → Watch → Type 0
IsRunning w g = Among g w.watches × (any (nat_eq g.stop) w.closed ≡ false)

known_of :
    (closed : List ℕ) (chans : Chans) (watches : List Watch) (g : Watch)
    → AreKnown closed chans watches
    → Among g watches
    → (any (nat_eq g.stop) closed ≡ true) ⊎ (channel_of g.resource chans ≡ some g.stop)
known_of closed chans [] g k m = absurd m
known_of closed chans (h ∷ rest) g k (inl e) =
    subst
      (λ (x : Watch).
        (any (nat_eq x.stop) closed ≡ true) ⊎ (channel_of x.resource chans ≡ some x.stop))
      e k.0
known_of closed chans (h ∷ rest) g k (inr m) = known_of closed chans rest g k.1 m

known_channel :
    (w : Watcher) (g : Watch)
    → IsValid w
    → IsRunning w g
    → channel_of g.resource w.stop_channels ≡ some g.stop
known_channel w g v i = elim (known_of w.closed w.stop_channels w.watches g v.known i.0) [
  | inl e ↦ ground (arith, i.1)
  | inr e ↦ e
]

-- However `Watch` and `Stop` have been called, at most one goroutine runs for a resource type: two
-- that have not been told to stop are the same.
pub running_once :
    (namespace : String) (w : Watcher) (g h : Watch)
    → Reachable namespace w
    → IsRunning w g
    → IsRunning w h
    → g.resource ≡ h.resource
    → g ≡ h
running_once namespace w g h r i j e =
    let v = Reachable-Valid r in
    let first = known_channel w g v i in
    let second = known_channel w h v j in
    let same : channel_of h.resource w.stop_channels ≡ some g.stop =
      subst (λ (s : ResourceType). channel_of s w.stop_channels ≡ some g.stop) e first in
    one_watch w.watches g h v.apart i.0 j.0 (ground arith)

-- the channels that are closed after those of the entries
abbrev pub closed_by : Chans → List ℕ → List ℕ
closed_by [] closed = closed
closed_by ((r, ch) ∷ rest) closed = closed_by rest (ch ∷ closed)

close_all_lem :
    (chans : Chans) (n : ℕ) (w : Watcher)
    → AreOpen w.closed n chans
    → close_all chans w ≡ (returned tt, record w { closed = closed_by chans w.closed })
close_all_lem [] n w o = refl
close_all_lem ((r, ch) ∷ rest) n w o =
    ap (λ b. ((λ (v : Watcher). close_unless b ch v) >>= λ _. close_all rest) w) o.1
    ∙ close_all_lem rest ch (record w { closed = ch ∷ w.closed })
        (close_other w.closed ch ch rest o.3 (omega arith))

stays_closed :
    (chans : Chans) (closed : List ℕ) (ch : ℕ)
    → any (nat_eq ch) closed ≡ true
    → any (nat_eq ch) (closed_by chans closed) ≡ true
stays_closed [] closed ch e = e
stays_closed ((r, c) ∷ rest) closed ch e = stays_closed rest (c ∷ closed) ch (ground arith)

gets_closed :
    (chans : Chans) (closed : List ℕ) (r : ResourceType) (ch : ℕ)
    → channel_of r chans ≡ some ch
    → any (nat_eq ch) (closed_by chans closed) ≡ true
gets_closed [] closed r ch e = ground arith
gets_closed ((s, c) ∷ rest) closed r ch e = elim (Bool-cases (s == r)) [
  | inl q ↦ stays_closed rest (c ∷ closed) ch (ground arith)
  | inr q ↦ gets_closed rest (c ∷ closed) r ch (ground arith)
]

-- However `Watch` and `Stop` have been called, `Destroy` closes the channels without a panic, and
-- after it the channel of every goroutine that was started is closed.
pub destroy_stops_all :
    (namespace : String) (w : Watcher) (g : Watch)
    → Reachable namespace w
    → Among g w.watches
    → ((destroy w).0 ≡ returned tt) × (any (nat_eq g.stop) (destroy w).1.closed ≡ true)
unfolding destroy
destroy_stops_all namespace w g r m =
    let v = Reachable-Valid r in
    rw (close_all_lem w.stop_channels w.channels w v.entries) (
      refl,
      elim (known_of w.closed w.stop_channels w.watches g v.known m) [
        | inl e ↦ stays_closed w.stop_channels w.closed g.stop e
        | inr e ↦ gets_closed w.stop_channels w.closed g.resource g.stop e
      ],
    )

again_panics :
    (chans : Chans) (closed : List ℕ) (w : Watcher) (resource : ResourceType) (ch : ℕ)
    → channel_of resource chans ≡ some ch
    → (close_all chans (record w { closed = closed_by chans closed })).0 ≡ panicked
again_panics [] closed w resource ch e = ground arith
again_panics ((r, c) ∷ rest) closed w resource ch e =
    let u : Watcher = record w { closed = closed_by rest (c ∷ closed) } in
    ap (λ b. (((λ (v : Watcher). close_unless b c v) >>= λ _. close_all rest) u).0)
      (stays_closed rest (c ∷ closed) c (ground arith))

-- A second `Destroy` panics if a resource type is entered, however `Watch` and `Stop` have been
-- called before the first.
pub destroy_again_panics :
    (namespace : String) (w : Watcher) (resource : ResourceType) (ch : ℕ)
    → Reachable namespace w
    → channel_of resource w.stop_channels ≡ some ch
    → (destroy (destroy w).1).0 ≡ panicked
unfolding destroy
destroy_again_panics namespace w resource ch r e =
    let v = Reachable-Valid r in
    rw (close_all_lem w.stop_channels w.channels w v.entries)
      (again_panics w.stop_channels w.closed w resource ch e)
