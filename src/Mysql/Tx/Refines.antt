-- ===== src/Mysql/Tx/Refines.antt =====
-- A rule for each way to build the body of a transaction: what it does to the tables, whatever
-- calls the server fails. The plain meaning of a body is a function of the tables alone.
use kubevoltracker.Base.{
  ℕ, ◌≤◌, ◌<◌, String, ◌≡◌, refl, ap, ◌⊎◌, inl, true, false, List, [], ◌∷◌, Option, none, some,
  arith, length,
}
use kubevoltracker.Mysql.Schema.{Tables}
use kubevoltracker.Mysql.Conn.{
  Err, plain, Conn, Result, ok, err, fatal, Tx, ◌>>=◌, pure, raise, wrap, has_number,
  deadlock_err_no, err_duplicate_key, call, with_faults, finish,
}

abbrev pub Plain : Type 0 → Type 0
Plain A = Tables → Result A × Tables

abbrev pub IsDuplicate : Err → Type 0
IsDuplicate e = has_number err_duplicate_key e ≡ true

-- No failure on the schedule pretends to be a duplicate key.
abbrev pub IsHonest : List (Option Err) → Type 0
IsHonest [] = Unit
IsHonest (none ∷ fs) = IsHonest fs
IsHonest (some e ∷ fs) = (has_number err_duplicate_key e ≡ false) × IsHonest fs

-- What may be said at the end of a part of a transaction that began at `c`: it did what its plain
-- meaning does, or it failed, by its meaning or because of a failed call, and can be rolled back to
-- where the transaction began. `X` is what an exit of the process needs.
abbrev pub Step : {A : Type 0} → Type 0 → Conn → Plain A → Result A × Conn → Type 0
Step X c meaning (ok a, c') =
    (meaning c.tables ≡ (ok a, c'.tables))
    × (c'.saved ≡ c.saved)
    × (c'.in_tx ≡ true)
    × (length c'.faults ≤ length c.faults)
    × IsHonest c'.faults
Step X c meaning (err e, c') =
    (((meaning c.tables).0 ≡ err e)
      ⊎ ((has_number err_duplicate_key e ≡ false) × (length c'.faults < length c.faults)))
    × (c'.saved ≡ c.saved)
    × (length c'.faults ≤ length c.faults)
    × IsHonest c'.faults
Step X c meaning (fatal, c') = X × (c'.saved ≡ c.saved)

pub record Refines {A : Type 0} (X : Type 0) (meaning : Plain A) (m : Tx A) : Type 0 where
  pub at : (c : Conn) → c.in_tx ≡ true → IsHonest c.faults → Step X c meaning (m c)

-- the meaning of a statement
abbrev pub runs : (Tables → ℕ × Tables) → Plain ℕ
runs f t = let (n, t') = f t in (ok n, t')

abbrev pub gives : {A : Type 0} → A → Plain A
gives a t = (ok a, t)

abbrev pub fails : {A : Type 0} → Err → Plain A
fails e t = (err e, t)

abbrev pub then_plain : {A B : Type 0} → Plain A → (A → Plain B) → Plain B
then_plain m k t =
    let (r, t') = m t in elim r [ ok a ↦ k a t' | err e ↦ (err e, t') | fatal ↦ (fatal, t') ]

abbrev pub wraps : {A : Type 0} → String → Plain A → Plain A
wraps what m t =
    let (r, t') = m t in
    elim r [ ok a ↦ (ok a, t') | err _ ↦ (err (plain what), t') | fatal ↦ (fatal, t') ]

module _ {X : Type 0} where
  pub Refines-pure : {A : Type 0} (a : A) → Refines X (gives a) (pure a)
  Refines-pure a = record { at = λ c i h. (refl, refl, i, omega arith, h) }

  pub Refines-raise : {A : Type 0} (e : Err) → Refines X (fails {A = A} e) (raise e)
  Refines-raise e = record { at = λ c i h. (inl refl, refl, omega arith, h) }

-- `log.Fatal`, where an exit is allowed
abbrev pub dies : {A : Type 0} → Plain A
dies t = (fatal, t)

pub Refines-fatal : {A : Type 0} → Refines {A = A} Unit dies (λ c. (fatal, c))
Refines-fatal = record { at = λ c i h. (tt, refl) }

-- A statement reports no deadlock by itself.
abbrev pub IsCalm : {A : Type 0} → Result A × Conn → Type 0
IsCalm (ok _, c) = Unit
IsCalm (err e, c) = has_number deadlock_err_no e ≡ false
IsCalm (fatal, c) = Unit

module _ {A : Type 0} (X : Type 0) (meaning : Plain A) where
  finish-Step :
      (c : Conn) (out : Result A × Conn)
      → Step X c meaning out
      → IsCalm out
      → Step X c meaning (finish out)
  finish-Step c (ok a, d) s q = ground arith
  finish-Step c (err e, d) s q = ground arith
  finish-Step c (fatal, d) s q = s

  -- A part that begins with one entry less on the schedule.
  fault_used-Step :
      (c : Conn) (f : Option Err) (fs : List (Option Err)) (out : Result A × Conn)
      → c.faults ≡ f ∷ fs
      → Step X (record c { faults = fs }) meaning out
      → Step X c meaning out
  fault_used-Step c f fs (ok a, d) e s = ground (arith, ap length e)
  fault_used-Step c f fs (err e', d) e s = ground (arith, ap length e)
  fault_used-Step c f fs (fatal, d) e s = s

  with_faults-Step :
      (m : Tx A) (fs : List (Option Err)) (c : Conn)
      → Refines X meaning m
      → ((d : Conn) → IsCalm (m d))
      → c.in_tx ≡ true
      → IsHonest fs
      → c.faults ≡ fs
      → Step X c meaning (with_faults fs m c)
  with_faults-Step m [] c r q i h e = finish-Step c (m c) (r.at c i (rw e h)) (q c)
  with_faults-Step m (none ∷ fs) c r q i h e =
      let d : Conn = record c { faults = fs } in
      fault_used-Step c none fs (finish (m d)) e (finish-Step d (m d) (r.at d i h) (q d))
  with_faults-Step m (some f ∷ fs) c r q i h e = ground (arith, ap length e)

  pub Refines-call :
      (m : Tx A) → Refines X meaning m → ((d : Conn) → IsCalm (m d)) → Refines X meaning (call m)
  unfolding call
  Refines-call m r q = record { at = λ c i h. with_faults-Step m c.faults c r q i h refl }

  pub Refines-wrap :
      (what : String) (m : Tx A)
      → Refines X meaning m
      → Refines X (wraps what meaning) (wrap what m)
  Refines-wrap what m r = record { at = λ c i h. wrapped c (m c) (r.at c i h) }
    where
      wrapped :
          (c : Conn) (out : Result A × Conn)
          → Step X c meaning out
          → Step X c (wraps what meaning) (wrap what (λ _. out) c)
      wrapped c (ok a, d) s = ground arith
      wrapped c (err e, d) s = ground arith
      wrapped c (fatal, d) s = s

module _ {A B : Type 0} (X : Type 0) (meaning : Plain A) (rest : A → Plain B) where
  -- What the rest of the block does, seen from where the block began.
  append-Step :
      (c d : Conn) (a : A) (out : Result B × Conn)
      → Step X c meaning (ok a, d)
      → Step X d (rest a) out
      → Step X c (then_plain meaning rest) out
  append-Step c d a (ok b, e) s t = ground arith
  append-Step c d a (err x, e) s t = ground arith
  append-Step c d a (fatal, e) s t = ground arith

  bind-Step :
      (k : A → Tx B) (c : Conn) (out : Result A × Conn)
      → ((a : A) → Refines X (rest a) (k a))
      → Step X c meaning out
      → Step X c (then_plain meaning rest) (((λ (d : Conn). out) >>= k) c)
  bind-Step k c (ok a, d) rk s = append-Step c d a (k a d) s ((rk a).at d s.2 s.4)
  bind-Step k c (err e, d) rk s = ground arith
  bind-Step k c (fatal, d) rk s = s

  pub Refines-bind :
      (m : Tx A) (k : A → Tx B)
      → Refines X meaning m
      → ((a : A) → Refines X (rest a) (k a))
      → Refines X (then_plain meaning rest) (m >>= k)
  Refines-bind m k r rk = record { at = λ c i h. bind-Step k c (m c) rk (r.at c i h) }
