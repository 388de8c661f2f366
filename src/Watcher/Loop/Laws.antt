-- ===== src/Watcher/Loop/Laws.antt =====
-- What the goroutine of `Watch` in watcher.go makes of the signals that it receives.
use kubevoltracker.Base.{
  ℕ, zero, suc, String, ◌≡◌, ◌⊎◌, arith, refl, ap, ◌∙◌, Bool, true, false, not, Bool-cases, inl,
  inr, List, [], ◌∷◌, ◌++◌, map, Option, none, some, nat_eq, select, ◌==◌, if◌then◌else◌,
}
use kubevoltracker.Go.{Go, Outcome, returned, exited, panicked, hung, ◌>>=◌, done}
use kubevoltracker.DbManager.{DbManager}
use kubevoltracker.Resources.{ResourceType}
use kubevoltracker.Resources.Objects.{Resource, get_rv}
use kubevoltracker.Events.{EventType, ResourceEvent, status_too_old}
use kubevoltracker.Watcher.Loop.{
  WatchError, eof, broken, JsonEvent, status, resource_event, Signal, received, stop, Session,
  Ending, lift, loop, handle, close_done, react, reconnect, next_initialize,
}

-- an event of a resource, with the clock's time and the text that it came as
pub record Arrival : Type 0 where
  pub now : ℕ
  pub event : ResourceEvent
  pub json : String

abbrev pub signal_of : Arrival → Signal
signal_of a =
    received a.now
      (record { json_event = some (resource_event a.event); json = a.json; err = none })

-- the events whose version is not the one that was asked for
abbrev pub fresh : String → List Arrival → List Arrival
fresh rv = select (λ (a : Arrival). not (get_rv a.event.resource == rv))

abbrev pub deliver :
    {S : Type 0}
    → (ℕ → EventType → Resource → String → Go S (Unit {0}))
    → List Arrival
    → Go S (Unit {0})
deliver handler [] = done
deliver handler (a ∷ rest) =
    handler a.now a.event.type a.event.resource a.json >>= λ _. deliver handler rest

module _ {S : Type 0} (dbm : DbManager S) (namespace : String) (resource : ResourceType)
    (handler : ℕ → EventType → Resource → String → Go S (Unit {0})) where
  abbrev run : List Signal → Bool → String → Go (Session S) Ending
  run = loop dbm namespace resource handler

  -- what is left to do after a part of the events, which ended as `out`
  abbrev then_run :
      List Signal → Bool → String → Session S → Outcome (Unit {0}) × S → Outcome Ending × Session S
  then_run signals initialize rv s out =
      ((λ (_ : Session S). (out.0, record s { store = out.1 })) >>= λ _. run signals initialize rv)
        s

  after_handler :
      (rest : List Arrival) (signals : List Signal) (initialize : Bool) (rv : String)
      (s : Session S) (out : Outcome (Unit {0}) × S)
      → ((d : Session S)
          → run (map signal_of rest ++ signals) initialize rv d
            ≡ then_run signals initialize rv d (deliver handler (fresh rv rest) d.store))
      → then_run (map signal_of rest ++ signals) initialize rv s out
        ≡ then_run signals initialize rv s
            (((λ (_ : S). out) >>= λ _. deliver handler (fresh rv rest)) s.store)
  after_handler rest signals initialize rv s (returned u, t) h = h (record s { store = t })
  after_handler rest signals initialize rv s (exited, t) h = refl
  after_handler rest signals initialize rv s (panicked, t) h = refl
  after_handler rest signals initialize rv s (hung, t) h = refl

  -- one event, by whether it has the version that was asked for
  by_version :
      (same : Bool) (a : Arrival) (rest : List Arrival) (signals : List Signal) (initialize : Bool)
      (rv : String) (s : Session S)
      → ((d : Session S)
          → run (map signal_of rest ++ signals) initialize rv d
            ≡ then_run signals initialize rv d (deliver handler (fresh rv rest) d.store))
      → then_run
          (map signal_of rest ++ signals)
          initialize
          rv
          s
          ((if same then done else handler a.now a.event.type a.event.resource a.json) s.store)
        ≡ then_run signals initialize rv s
            (deliver handler (if not same then a ∷ fresh rv rest else fresh rv rest) s.store)
  by_version true a rest signals initialize rv s h = h s
  by_version false a rest signals initialize rv s h =
      after_handler rest signals initialize rv s
        (handler a.now a.event.type a.event.resource a.json s.store) h

  -- Events that come in on one connection are handed to the handler one by one, in their order, up
  -- to the first at which it does not return, and but for those whose version is the one that was
  -- asked for; then the loop goes on with the next signals.
  pub loop-deliver :
      (arrivals : List Arrival) (signals : List Signal) (initialize : Bool) (rv : String)
      (s : Session S)
      → loop dbm namespace resource handler (map signal_of arrivals ++ signals) initialize rv s
        ≡ (lift (deliver handler (fresh rv arrivals)) >>= λ _.
              loop dbm namespace resource handler signals initialize rv)
            s
  unfolding loop
  loop-deliver [] signals initialize rv s = refl
  loop-deliver (a ∷ rest) signals initialize rv s =
      by_version (get_rv a.event.resource == rv) a rest signals initialize rv s
        (λ d. loop-deliver rest signals initialize rv d)

-- so many requests without a version
abbrev pub blanks : ℕ → List String
blanks zero = []
blanks (suc n) = "" ∷ blanks n

-- The requests that come after those of `before` ask for no version.
abbrev pub AskForAll : {S A : Type 0} → List String → Outcome A × Session S → Type 0
AskForAll before out = (n : ℕ) × (out.1.requests ≡ before ++ blanks n)

blanks-next :
    (before : List String) (n : ℕ) → (before ++ "" ∷ []) ++ blanks n ≡ before ++ blanks (suc n)
blanks-next [] n = refl
blanks-next (x ∷ xs) n = ap (λ (ys : List String). x ∷ ys) (blanks-next xs n)

blanks-none : (before : List String) → before ≡ before ++ blanks 0
blanks-none [] = refl
blanks-none (x ∷ xs) = ap (λ (ys : List String). x ∷ ys) (blanks-none xs)

module _ {S : Type 0} (dbm : DbManager S) (namespace : String) (resource : ResourceType)
    (handler : ℕ → EventType → Resource → String → Go S (Unit {0})) where
  handled_asks :
      (signals : List Signal) (rv : String) (s : Session S) (out : Outcome (Unit {0}) × S)
      → ((d : Session S)
          → AskForAll d.requests (loop dbm namespace resource handler signals true rv d))
      → AskForAll s.requests (
          ((λ (_ : Session S). (out.0, record s { store = out.1 })) >>= λ _.
          loop dbm namespace resource handler signals true rv)
            s)
  handled_asks signals rv s (returned u, t) h = h (record s { store = t })
  handled_asks signals rv s (exited, t) h = (0, blanks-none s.requests)
  handled_asks signals rv s (panicked, t) h = (0, blanks-none s.requests)
  handled_asks signals rv s (hung, t) h = (0, blanks-none s.requests)

  abbrev next : List Signal → Bool → String → Go (Session S) Ending
  next signals again rv = loop dbm namespace resource handler signals again rv

  reconnect_asks :
      (again : Option Bool) (signals : List Signal) (s : Session S)
      → ((rv : String) (d : Session S) → AskForAll d.requests (next signals true rv d))
      → (again ≡ none) ⊎ (again ≡ some true)
      → AskForAll s.requests (reconnect dbm namespace resource handler (next signals) again s)
  reconnect_asks none signals s h e = (0, blanks-none s.requests)
  reconnect_asks (some false) signals s h e = ground arith
  reconnect_asks (some true) signals s h e =
      let (n, q) = h "" (record s { requests = s.requests ++ "" ∷ [] }) in
      (suc n, q ∙ blanks-next s.requests n)

  stays_true :
      (j : Option JsonEvent)
      → (next_initialize dbm namespace resource handler j true ≡ none)
        ⊎ (next_initialize dbm namespace resource handler j true ≡ some true)
  stays_true none = inr refl
  stays_true (some (status code)) = elim (Bool-cases (nat_eq code status_too_old)) [
    | inl e ↦ inr (rw e refl)
    | inr e ↦ inr (rw e refl)
  ]
  stays_true (some (resource_event e)) = inl refl

  react_asks :
      (error : Option WatchError) (now : ℕ) (j : Option JsonEvent) (json rv : String)
      (signals : List Signal) (s : Session S)
      → ((rv' : String) (d : Session S) → AskForAll d.requests (next signals true rv' d))
      → AskForAll s.requests
          (react dbm namespace resource handler (next signals) error now j json true rv s)
  react_asks (some eof) now j json rv signals s h =
      reconnect_asks (next_initialize dbm namespace resource handler j true) signals (close_done s)
        h (stays_true j)
  react_asks (some broken) now j json rv signals s h = (0, blanks-none s.requests)
  react_asks none now j json rv signals s h =
      handled_asks signals rv s (handle dbm namespace resource handler now j json rv s.store) (h rv)

  loop_asks :
      (signals : List Signal) (rv : String) (s : Session S)
      → AskForAll s.requests (loop dbm namespace resource handler signals true rv s)
  unfolding loop
  loop_asks [] rv s = (0, blanks-none s.requests)
  loop_asks (stop ∷ signals) rv s = (0, blanks-none s.requests)
  loop_asks (received now e ∷ signals) rv s =
      react_asks e.err now e.json_event e.json rv signals s (λ rv' d. loop_asks signals rv' d)

  -- Once the server has said that a version is too old, every later request of this goroutine asks for
  -- all events from the start, whatever comes in after: the version that the data store records is
  -- not looked up again.
  pub too_old_forgets :
      (now : ℕ) (json : String) (signals : List Signal) (initialize : Bool) (rv : String)
      (s : Session S)
      → AskForAll s.requests (
          loop dbm namespace resource handler
            (received now
                (record { json_event = some (status status_too_old); json = json; err = some eof })
              ∷ signals)
            initialize
            rv
            s)
  unfolding loop
  too_old_forgets now json signals initialize rv s =
      reconnect_asks (some true) signals (close_done s) (loop_asks signals) (inr refl)
