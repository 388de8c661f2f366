-- ===== src/Mysql/Conn/Laws.antt =====
-- A call of the server, by what the schedule of failures holds for it.
use kubevoltracker.Base.{◌≡◌, refl, sym, ap, ◌∙◌, List, [], ◌∷◌, Option, none, some}
use kubevoltracker.Mysql.Conn.{Err, Conn, Result, err, Tx, call, with_faults, finish, fail}

-- whether the server fails the next call
abbrev pub next_fault : List (Option Err) → Option Err
next_fault [] = none
next_fault (f ∷ fs) = f

abbrev pub later_faults : List (Option Err) → List (Option Err)
later_faults [] = []
later_faults (f ∷ fs) = fs

-- the connection with the entry of one call used up
abbrev pub used : Conn → Conn
used c = record c { faults = later_faults c.faults }

module _ {A : Type 0} (m : Tx A) (c : Conn) where
  abbrev pub called : Option Err → Result A × Conn
  called none = finish (m (used c))
  called (some e) = (err e, fail e (used c))

  with_faults_lem :
      (fs : List (Option Err)) → c.faults ≡ fs → with_faults fs m c ≡ called (next_fault fs)
  with_faults_lem [] e =
      ap (λ fs. finish (m (record c { faults = fs }))) (e ∙ sym (ap later_faults e))
  with_faults_lem (none ∷ fs) e =
      ap (λ fs. finish (m (record c { faults = fs }))) (sym (ap later_faults e))
  with_faults_lem (some x ∷ fs) e =
      ap (λ fs. (err x, fail x (record c { faults = fs }))) (sym (ap later_faults e))

  pub call_lem : call m c ≡ called (next_fault c.faults)
  unfolding call
  call_lem = with_faults_lem c.faults refl
