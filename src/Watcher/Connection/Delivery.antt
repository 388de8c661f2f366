-- ===== src/Watcher/Connection/Delivery.antt =====
-- The goroutine of a watch in watcher.go, over the connections that apiclient.go makes for it.
use kubevoltracker.Base.{
  append_assoc, Option, none, ℕ, String, ◌≡◌, refl, ap, ◌∙◌, Bool, List, [], ◌∷◌, ◌++◌, map, some,
}
use kubevoltracker.Go.{Go, returned, exited, panicked, hung, ◌>>=◌}
use kubevoltracker.DbManager.{DbManager}
use kubevoltracker.Resources.{ResourceType}
use kubevoltracker.Resources.Objects.{Resource}
use kubevoltracker.Events.{EventType, Kind}
use kubevoltracker.ApiClient.{Json, line, at_end, serve}
use kubevoltracker.ApiClient.Laws.{AreEvents}
use kubevoltracker.Watcher.Loop.{
  Ending, watch_loop, Signal, received, Session, lift, loop, request, close_done,
}
use kubevoltracker.Watcher.Loop.Laws.{Arrival, signal_of, fresh, deliver, loop-deliver}
use kubevoltracker.Watcher.Connection.{
  Connection, hear, times_of, texts_of, events_of, end_event, IsConnection, AreConnections,
  signals_of, all_signals, starts_anew, heard,
}

bind_same :
    {S A B : Type 0} (m : Go S A) (k k' : A → Go S B) (s : S)
    → ((a : A) (d : S) → k a d ≡ k' a d)
    → (m >>= k) s ≡ (m >>= k') s
bind_same m k k' s h = by_out (m s)
  where
    by_out : (out : _) → ((λ _. out) >>= k) s ≡ ((λ _. out) >>= k') s
    by_out (returned a, d) = h a d
    by_out (exited, d) = refl
    by_out (panicked, d) = refl
    by_out (hung, d) = refl

module _ {S : Type 0} (dbm : DbManager S) (namespace : String) (resource : ResourceType)
    (handler : ℕ → EventType → Resource → String → Go S (Unit {0})) where
  -- The connections in turn: the handler gets the events of each, but for those of the version that
  -- was asked for; its channel is closed, and the next is requested, from the start if this one or an
  -- earlier one has ended with the status that the version is too old. `rest` comes last.
  abbrev pub deliver_all : List Connection → List Signal → Bool → String → Go (Session S) Ending
  deliver_all [] rest initialize rv = loop dbm namespace resource handler rest initialize rv
  deliver_all (c ∷ cs) rest initialize rv = lift (deliver handler (fresh rv c.arrivals)) >>= λ _ d.
      (request dbm namespace resource (starts_anew c.message initialize) >>= λ rv'.
      deliver_all cs rest (starts_anew c.message initialize) rv')
        (close_done d)

  ended :
      (m : Option (ℕ × String)) (last : ℕ) (signals : List Signal) (initialize : Bool) (rv : String)
      (d : Session S)
      → loop dbm namespace resource handler (received last (end_event m) ∷ signals) initialize rv d
        ≡ (request dbm namespace resource (starts_anew m initialize) >>= λ rv'.
              loop dbm namespace resource handler signals (starts_anew m initialize) rv')
            (close_done d)
  unfolding loop
  ended none last signals initialize rv d = refl
  ended (some (code, text)) last signals initialize rv d = refl

  module _ (json : Json) (kind : Kind) where
    one_delivered :
        (c : Connection) (signals : List Signal) (initialize : Bool) (rv : String) (s : Session S)
        → IsConnection json kind c
        → loop dbm namespace resource handler (signals_of json kind c ++ signals) initialize rv s
          ≡ (lift (deliver handler (fresh rv c.arrivals)) >>= λ _ d.
                (request dbm namespace resource (starts_anew c.message initialize) >>= λ rv'.
                loop dbm namespace resource handler signals (starts_anew c.message initialize) rv')
                  (close_done d))
              s
    one_delivered c signals initialize rv s i =
        ap (λ xs. loop dbm namespace resource handler xs initialize rv s)
          (ap (λ xs. xs ++ signals) (heard json kind c i)
            ∙ append_assoc (map signal_of c.arrivals) (received c.last (end_event c.message) ∷ [])
                signals)
        ∙ loop-deliver dbm namespace resource handler c.arrivals
            (received c.last (end_event c.message) ∷ signals) initialize rv s
        ∙ bind_same (lift (deliver handler (fresh rv c.arrivals))) _ _ s
            (λ _ d. ended c.message c.last signals initialize rv d)

    -- A connection on which every line is an event with a type, up to the end of file.
    connection_delivers :
        (arrivals : List Arrival) (last : ℕ) (signals : List Signal) (initialize : Bool)
        (rv : String) (s : Session S)
        → AreEvents json kind (texts_of arrivals) (events_of arrivals)
        → loop dbm namespace resource handler
            (hear
                (times_of arrivals ++ last ∷ [])
                (serve json (some kind) (map line (texts_of arrivals) ++ at_end ∷ [])).0
              ++ signals)
            initialize
            rv
            s
          ≡ (lift (deliver handler (fresh rv arrivals)) >>= λ _ d.
                (request dbm namespace resource initialize >>= λ rv'.
                loop dbm namespace resource handler signals initialize rv')
                  (close_done d))
              s
    connection_delivers arrivals last signals initialize rv s a =
        one_delivered (record { arrivals = arrivals; last = last; message = none }) signals
          initialize rv s (a, tt)

    delivered :
        (cs : List Connection) (rest : List Signal) (initialize : Bool) (rv : String)
        (s : Session S)
        → AreConnections json kind cs
        → loop dbm namespace resource handler (all_signals json kind cs ++ rest) initialize rv s
          ≡ deliver_all cs rest initialize rv s
    delivered [] rest initialize rv s a = refl
    delivered (c ∷ cs) rest initialize rv s (i, a) =
        ap (λ xs. loop dbm namespace resource handler xs initialize rv s)
          (append_assoc (signals_of json kind c) (all_signals json kind cs) rest)
        ∙ one_delivered c (all_signals json kind cs ++ rest) initialize rv s i
        ∙ bind_same (lift (deliver handler (fresh rv c.arrivals))) _ _ s (λ _ d.
          bind_same (request dbm namespace resource (starts_anew c.message initialize)) _ _
            (close_done d) (λ rv' e. delivered cs rest (starts_anew c.message initialize) rv' e a))

    -- The goroutine of a watch, over any number of connections whose lines are events with a type and which
    -- end with the end of file or with the message of a status: it requests the first, gives the
    -- handler the events of each in the order of the lines, each with its text, up to the first at which
    -- it does not return, and but for those of the version that was asked for; it closes the
    -- connection and requests the next, on the same terms, but from the start once a connection has ended
    -- with status 410; then it goes on with the other signals.
    pub connections_deliver :
        (cs : List Connection) (rest : List Signal) (initialize : Bool) (s : Session S)
        → AreConnections json kind cs
        → watch_loop dbm namespace resource handler (all_signals json kind cs ++ rest) initialize s
          ≡ (request dbm namespace resource initialize >>= λ rv. deliver_all cs rest initialize rv)
              s
    unfolding watch_loop
    connections_deliver cs rest initialize s a =
        bind_same (request dbm namespace resource initialize) _ _ s
          (λ rv d. delivered cs rest initialize rv d a)
