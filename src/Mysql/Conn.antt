-- ===== src/Mysql/Conn.antt =====
-- The connection to the server, and the actions of a transaction: what `tx *sql.Tx` offers to the
-- code of dbmanager/mysql. The server may fail any call. `faults` is its schedule, one entry for
-- each call (`none`: the call goes through), and what lies past its end goes through. So every
-- theorem that speaks of all connections speaks of all failures.
pub mod Laws
use kubevoltracker.Base.{
  ℕ, ℤ, String, Bool, false, List, [], ◌∷◌, Option, none, some, nat_eq, if◌then◌else◌,
}
use kubevoltracker.Mysql.Schema.{Tables}

-- A Go `error`: an error that the server reports, by its number, or one that Go code made, such as
-- `fmt.Errorf` does around another error.
pub data Err : Type 0 where
  mysql : ℕ → Err
  plain : String → Err

abbrev pub deadlock_err_no : ℕ
deadlock_err_no = 1213

abbrev pub err_duplicate_key : ℕ
err_duplicate_key = 1062

-- `mysqlErr, ok := err.(*mysql.MySQLError); ok && mysqlErr.Number == n`
abbrev pub has_number : ℕ → Err → Bool
has_number n (mysql m) = nat_eq m n
has_number n (plain _) = false

pub record Conn : Type 0 where
  pub tables : Tables
  -- what a rollback returns to
  pub saved : Tables
  pub in_tx : Bool
  -- the AUTO_INCREMENT counters, which no rollback resets
  pub next_nfs : ℕ
  pub next_iscsi : ℕ
  pub last_insert_id : ℕ
  pub faults : List (Option Err)
  -- milliseconds spent in `time.Sleep`
  pub slept : ℕ
  -- the variable `iscsiID` that the closure of `InsertISCSI` writes
  pub captured : ℤ

-- How a step of a transaction ends. `fatal` is `log.Fatal`.
pub data Result (A : Type 0) : Type 0 where
  ok : A → Result A
  err : Err → Result A
  fatal : Result A

abbrev pub Tx : Type 0 → Type 0
Tx A = Conn → Result A × Conn

infixl 5 ◌>>=◌ ◌>>◌
abbrev pub ◌>>=◌ : {A B : Type 0} → Tx A → (A → Tx B) → Tx B
◌>>=◌ m k c =
    let (r, c') = m c in elim r [ ok a ↦ k a c' | err e ↦ (err e, c') | fatal ↦ (fatal, c') ]

abbrev pub ◌>>◌ : {B : Type 0} → Tx (Unit {0}) → Tx B → Tx B
m >> k = m >>= λ _. k

abbrev pub pure : {A : Type 0} → A → Tx A
pure a c = (ok a, c)

abbrev pub raise : {A : Type 0} → Err → Tx A
raise e c = (err e, c)

-- `err = fmt.Errorf(what, err)`
abbrev pub wrap : {A : Type 0} → String → Tx A → Tx A
wrap what m c =
    let (r, c') = m c in
    elim r [ ok a ↦ (ok a, c') | err _ ↦ (err (plain what), c') | fatal ↦ (fatal, c') ]

-- `if err != nil { log.Fatal(...) }`
abbrev pub or_fatal : {A : Type 0} → Tx A → Tx A
or_fatal m c =
    let (r, c') = m c in elim r [ ok a ↦ (ok a, c') | err _ ↦ (fatal, c') | fatal ↦ (fatal, c') ]

-- A call whose error the code drops.
abbrev pub drop_error : {A : Type 0} → Tx A → Tx (Unit {0})
drop_error m c =
    let (r, c') = m c in elim r [ ok _ ↦ (ok tt, c') | err _ ↦ (ok tt, c') | fatal ↦ (fatal, c') ]

-- A failed call changes nothing, but a deadlock ends the transaction: the server has rolled it back.
abbrev pub fail : Err → Conn → Conn
fail e c = if has_number deadlock_err_no e then record c { tables = c.saved; in_tx = false } else c

-- Outside a transaction each statement commits by itself.
abbrev pub settle : Conn → Conn
settle c = if c.in_tx then c else record c { saved = c.tables }

abbrev pub finish : {A : Type 0} → Result A × Conn → Result A × Conn
finish (ok a, c) = (ok a, settle c)
finish (err e, c) = (err e, fail e c)
finish (fatal, c) = (fatal, c)

abbrev pub with_faults : {A : Type 0} → List (Option Err) → Tx A → Tx A
with_faults [] m c = finish (m c)
with_faults (none ∷ fs) m c = finish (m (record c { faults = fs }))
with_faults (some e ∷ fs) m c = (err e, fail e (record c { faults = fs }))

-- One call of the server: by the schedule it fails, or it does what the statement says.
unfoldable pub call : {A : Type 0} → Tx A → Tx A
call m c = with_faults c.faults m c

-- A statement as an action: the number of affected rows and the new tables.
abbrev pub on_tables : (Tables → ℕ × Tables) → Tx ℕ
on_tables f c = let (n, t) = f c.tables in (ok n, record c { tables = t })
