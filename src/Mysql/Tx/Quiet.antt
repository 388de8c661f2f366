-- ===== src/Mysql/Tx/Quiet.antt =====
-- A run in which the server fails no call: the body of a transaction as a function of the tables.
-- Here errors may be dropped and turned into exits, too.
pub mod Run
use kubevoltracker.Base.{
  ℕ, String, ◌≡◌, refl, ap, ◌∙◌, Bool, true, false, List, [], Option, arith, if◌then◌else◌,
}
use kubevoltracker.Mysql.Schema.{Tables}
use kubevoltracker.Mysql.Conn.{
  Err, plain, Conn, Result, ok, err, fatal, Tx, ◌>>=◌, ◌>>◌, pure, raise, wrap, or_fatal,
  drop_error, call, on_tables, has_number, deadlock_err_no, settle, finish,
}
use kubevoltracker.Mysql.Tx.{do_tx_statement, do_tx_statement_check_rows, rows_affected}
use kubevoltracker.Mysql.Tx.Refines.{Plain, IsCalm, runs, gives, fails, then_plain, wraps}
use kubevoltracker.Mysql.Tx.Blocks.{changes, counted}
use kubevoltracker.Mysql.Rv.{update_rv, set_rv}

-- the connection with other tables
abbrev pub at_tables : Conn → Tables → Conn
at_tables c t = record c { tables = t; in_tx = true; faults = [] }

pub record Computes {A : Type 0} (meaning : Plain A) (m : Tx A) : Type 0 where
  pub at :
      (c : Conn) (t : Tables) → m (at_tables c t) ≡ (let (r, t') = meaning t in (r, at_tables c t'))

abbrev pub drops : {A : Type 0} → Plain A → Plain (Unit {0})
drops m t =
    let (r, t') = m t in elim r [ ok _ ↦ (ok tt, t') | err _ ↦ (ok tt, t') | fatal ↦ (fatal, t') ]

abbrev pub exits : {A : Type 0} → Plain A → Plain A
exits m t =
    let (r, t') = m t in elim r [ ok a ↦ (ok a, t') | err _ ↦ (fatal, t') | fatal ↦ (fatal, t') ]

pub Computes-pure : {A : Type 0} (a : A) → Computes (gives a) (pure a)
Computes-pure a = record { at = λ c t. refl }

pub Computes-statement : (f : Tables → ℕ × Tables) → Computes (runs f) (call (on_tables f))
unfolding call
Computes-statement f = record { at = λ c t. refl }

-- what a body left, with the connection around it
abbrev around : {A : Type 0} → Conn → Result A × Tables → Result A × Conn
around c out = let (r, t) = out in (r, at_tables c t)

module _ {A : Type 0} (meaning : Plain A) where
  finished :
      (c : Conn) (out : Result A × Tables)
      → IsCalm (around c out)
      → finish (around c out) ≡ around c out
  finished c (ok a, t) q = refl
  finished c (err e, t) q = rw q
  finished c (fatal, t) q = refl

  pub Computes-call :
      (m : Tx A)
      → Computes meaning m
      → ((c : Conn) (t : Tables) → IsCalm (around c (meaning t)))
      → Computes meaning (call m)
  unfolding call
  Computes-call m h q = record { at = λ c t. ap finish (h.at c t) ∙ finished c (meaning t) (q c t) }

  wrapped :
      (what : String) (c : Conn) (out : Result A × Tables)
      → wrap what (λ _. around c out) c ≡ around c (wraps what (λ _. out) c.tables)
  wrapped what c (ok a, t) = refl
  wrapped what c (err e, t) = refl
  wrapped what c (fatal, t) = refl

  pub Computes-wrap :
      (what : String) (m : Tx A) → Computes meaning m → Computes (wraps what meaning) (wrap what m)
  Computes-wrap what m h = record {
    at = λ c t. ap (λ out. wrap what (λ _. out) c) (h.at c t) ∙ wrapped what c (meaning t);
  }

  dropped :
      (c : Conn) (out : Result A × Tables)
      → drop_error (λ _. around c out) c ≡ around c (drops (λ _. out) c.tables)
  dropped c (ok a, t) = refl
  dropped c (err e, t) = refl
  dropped c (fatal, t) = refl

  pub Computes-drop : (m : Tx A) → Computes meaning m → Computes (drops meaning) (drop_error m)
  Computes-drop m h = record {
    at = λ c t. ap (λ out. drop_error (λ _. out) c) (h.at c t) ∙ dropped c (meaning t);
  }

  exited_lem :
      (c : Conn) (out : Result A × Tables)
      → or_fatal (λ _. around c out) c ≡ around c (exits (λ _. out) c.tables)
  exited_lem c (ok a, t) = refl
  exited_lem c (err e, t) = refl
  exited_lem c (fatal, t) = refl

  pub Computes-fatal : (m : Tx A) → Computes meaning m → Computes (exits meaning) (or_fatal m)
  Computes-fatal m h = record {
    at = λ c t. ap (λ out. or_fatal (λ _. out) c) (h.at c t) ∙ exited_lem c (meaning t);
  }

  bound :
      {B : Type 0} (k : A → Tx B) (rest : A → Plain B) (c : Conn) (out : Result A × Tables)
      → ((a : A) → Computes (rest a) (k a))
      → ((λ (_ : Conn). around c out) >>= k) c ≡ around c (then_plain (λ _. out) rest c.tables)
  bound k rest c (ok a, t) h = (h a).at c t
  bound k rest c (err e, t) h = refl
  bound k rest c (fatal, t) h = refl

  pub Computes-bind :
      {B : Type 0} (m : Tx A) (k : A → Tx B) (rest : A → Plain B)
      → Computes meaning m
      → ((a : A) → Computes (rest a) (k a))
      → Computes (then_plain meaning rest) (m >>= k)
  Computes-bind m k rest h g = record {
    at = λ c t. ap (λ out. ((λ (_ : Conn). out) >>= k) c) (h.at c t) ∙ bound k rest c (meaning t) g;
  }

pub Computes-if :
    {A : Type 0} (b : Bool) {f g : Plain A} {m n : Tx A}
    → Computes f m
    → Computes g n
    → Computes (if b then f else g) (if b then m else n)
Computes-if true r s = r
Computes-if false r s = s

pub Computes-raise : {A : Type 0} (e : Err) → Computes (fails {A = A} e) (raise e)
Computes-raise e = record { at = λ c t. refl }

pub Computes-rows : (rows : ℕ) → Computes (gives rows) (rows_affected rows)
unfolding call
Computes-rows rows = record { at = λ c t. refl }

pub Computes-check_rows :
    (f : Tables → ℕ × Tables) → Computes (runs f) (do_tx_statement_check_rows (on_tables f))
unfolding do_tx_statement_check_rows call
Computes-check_rows f = record { at = λ c t. refl }

pub Computes-do : (f : Tables → ℕ × Tables) → Computes (changes f) (do_tx_statement (on_tables f))
unfolding do_tx_statement do_tx_statement_check_rows call
Computes-do f = record { at = λ c t. refl }

pub Computes-do_of :
    (meaning : Plain ℕ) (m : Tx ℕ)
    → Computes meaning m
    → ((c : Conn) (t : Tables) → IsCalm (around c (meaning t)))
    → Computes (counted meaning) (do_tx_statement m)
unfolding do_tx_statement do_tx_statement_check_rows
Computes-do_of meaning m h q =
    Computes-bind (then_plain meaning gives) _ _ (λ _. gives tt)
      (Computes-bind meaning (call m) rows_affected gives (Computes-call meaning m h q)
        Computes-rows)
      (λ _. Computes-pure tt)

pub Computes-update_rv :
    (resource namespace rv : String)
    → Computes (changes (set_rv resource namespace rv)) (update_rv resource namespace rv)
unfolding update_rv call
Computes-update_rv resource namespace rv = record { at = λ c t. refl }
