-- ===== src/Mysql/Setup/Laws.antt =====
-- When `ValidateConnection` of dbmanager/mysql/mysql.go gives up.
use kubevoltracker.Base.{
  ℕ, zero, suc, ◌+◌, ◌-◌, ◌≤◌, ◌≡◌, refl, ◌↔◌, Bool, true, false, List, [], ◌∷◌, arith,
}
use kubevoltracker.Mysql.Setup.{Db, validate_from, validate_connection, max_tries}

-- None of the coming `n` pings succeeds.
abbrev FailFirst : ℕ → List Bool → Type 0
FailFirst zero pings = Unit
FailFirst (suc n) [] = ⊥
FailFirst (suc n) (answered ∷ pings) = (answered ≡ false) × FailFirst n pings

gives_up :
    (left : ℕ) (pings : List Bool) (db : Db)
    → db.pings ≡ pings
    → (validate_from left db).0 ≡ false ↔ FailFirst left pings
unfolding validate_from
gives_up zero pings db e = (λ q. tt, λ f. refl)
gives_up (suc left) [] db e = rw e ((λ q. ground arith), λ f. absurd f)
gives_up (suc left) (true ∷ pings) db e = rw e ((λ q. ground arith), λ f. ground arith)
gives_up (suc left) (false ∷ pings) db e =
    let d : Db = record db { slept = db.slept + (max_tries - suc left); pings = pings } in
    rw e ((λ q. (refl, (gives_up left pings d refl).0 q)), λ f. (gives_up left pings d refl).1 f.1)

sleeps :
    (pings : List Bool) (db : Db)
    → (validate_connection (record db { pings = pings })).1.slept ≤ db.slept + 10
unfolding validate_connection validate_from
sleeps [] db = omega arith
sleeps (true ∷ p) db = omega arith
sleeps (false ∷ []) db = omega arith
sleeps (false ∷ true ∷ p) db = omega arith
sleeps (false ∷ false ∷ []) db = omega arith
sleeps (false ∷ false ∷ true ∷ p) db = omega arith
sleeps (false ∷ false ∷ false ∷ []) db = omega arith
sleeps (false ∷ false ∷ false ∷ true ∷ p) db = omega arith
sleeps (false ∷ false ∷ false ∷ false ∷ []) db = omega arith
sleeps (false ∷ false ∷ false ∷ false ∷ b ∷ p) db = ground arith

-- `ValidateConnection` gives an error exactly if none of the coming five pings succeeds, and in any
-- case it has slept for ten seconds at most.
validate_connection-FailFirst :
    (db : Db)
    → ((validate_connection db).0 ≡ false ↔ FailFirst max_tries db.pings)
      × ((validate_connection db).1.slept ≤ db.slept + 10)
unfolding validate_connection
validate_connection-FailFirst db = (gives_up max_tries db.pings db refl, sleeps db.pings db)
