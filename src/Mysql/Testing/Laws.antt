-- ===== src/Mysql/Testing/Laws.antt =====
-- When the comparison of a query's result succeeds.
use kubevoltracker.Base.{
  String, ◌≡◌, refl, ap, ◌∙◌, ◌↔◌, Bool, true, false, List, [], ◌∷◌, Option, none, some, arith,
  eq_iff,
}
use kubevoltracker.Go.{Outcome, returned, exited, panicked, hung}
use kubevoltracker.Mysql.Testing.{
  ColumnType, Value, nil, bool, int, int64, text, time, Cell, a_bool, an_int, an_int64, a_string,
  null_string, null_time, truncate, check, then_check, check_all, types_for, Database, scan,
  check_cells, check_rows, check_query, validate_result,
}

-- The cell is as expected: it has the value, or it is not valid and nil is expected.
abbrev pub Matches : Cell → Value → Type 0
Matches (a_bool b) (bool c) = b ≡ c
Matches (an_int z) (int w) = z ≡ w
Matches (an_int64 z) (int64 w) = z ≡ w
Matches (a_string s) (text t) = s ≡ t
Matches (null_string valid s) nil = valid ≡ false
Matches (null_string valid s) (text t) = s ≡ t
Matches (null_time valid t) nil = valid ≡ false
Matches (null_time valid t) (time u) = t ≡ truncate u
Matches _ _ = ⊥

abbrev pub AllMatch : List Cell → List Value → Type 0
AllMatch [] values = Unit {0}
AllMatch (cell ∷ cells) [] = ⊥
AllMatch (cell ∷ cells) (value ∷ values) = Matches cell value × AllMatch cells values

check-Matches : (cell : Cell) (v : Value) → (check cell v ≡ returned true) ↔ Matches cell v
check-Matches (a_bool b) (bool c) = (λ e. ground arith, λ e. ground arith)
check-Matches (an_int z) (int w) = (λ e. ground arith, λ e. ground arith)
check-Matches (an_int64 z) (int64 w) = (λ e. ground arith, λ e. ground arith)
check-Matches (a_string s) (text t) =
    (λ e. ground (arith, eq_iff s t), λ e. ground (arith, eq_iff s t))
check-Matches (null_string valid s) nil = (λ e. ground arith, λ e. ground arith)
check-Matches (null_string valid s) (text t) =
    (λ e. ground (arith, eq_iff s t), λ e. ground (arith, eq_iff s t))
check-Matches (null_time valid t) nil = (λ e. ground arith, λ e. ground arith)
check-Matches (null_time valid t) (time u) = (λ e. ground arith, λ e. ground arith)
check-Matches _ _ = (λ e. absurd (ground arith), λ e. absurd e)

then_check-true :
    (o : Outcome Bool) (next : Bool → Outcome Bool)
    → then_check o next ≡ returned true
    → (b : Bool) × (o ≡ returned b) × (next b ≡ returned true)
then_check-true (returned b) next e = (b, refl, e)
then_check-true exited next e = absurd (ground arith)
then_check-true panicked next e = absurd (ground arith)
then_check-true hung next e = absurd (ground arith)

-- Once a value is wrong, the comparison does not succeed.
check_all-false :
    (cells : List Cell) (values : List Value) → ¬ (check_all false cells values ≡ returned true)
unfolding check_all
check_all-false [] values e = ground arith
check_all-false (cell ∷ cells) [] e = ground arith
check_all-false (cell ∷ cells) (value ∷ values) e =
    let (b, o, n) = then_check-true (check cell value) (λ b. check_all false cells values) e in
    check_all-false cells values n

matched :
    (b : Bool) (cell : Cell) (value : Value) (cells : List Cell) (values : List Value)
    → (check_all true cells values ≡ returned true → AllMatch cells values)
    → check cell value ≡ returned b
    → check_all b cells values ≡ returned true
    → AllMatch (cell ∷ cells) (value ∷ values)
matched true cell value cells values h o n = ((check-Matches cell value).0 o, h n)
matched false cell value cells values h o n = absurd (check_all-false cells values n)

check_all-AllMatch :
    (cells : List Cell) (values : List Value)
    → check_all true cells values ≡ returned true
    → AllMatch cells values
unfolding check_all
check_all-AllMatch [] values e = tt
check_all-AllMatch (cell ∷ cells) [] e = absurd (ground arith)
check_all-AllMatch (cell ∷ cells) (value ∷ values) e =
    let (b, o, n) = then_check-true (check cell value) (λ b. check_all b cells values) e in
    matched b cell value cells values (check_all-AllMatch cells values) o n

AllMatch-check_all :
    (cells : List Cell) (values : List Value)
    → AllMatch cells values
    → check_all true cells values ≡ returned true
unfolding check_all
AllMatch-check_all [] values m = refl
AllMatch-check_all (cell ∷ cells) [] m = absurd m
AllMatch-check_all (cell ∷ cells) (value ∷ values) (m, k) =
    rw ((check-Matches cell value).1 m) (AllMatch-check_all cells values k)

module _ (db : Database) where
  -- The query gives one row, and its values are as expected.
  abbrev pub IsOneRow : List ColumnType → List Value → List (List db.Field) → Type 0
  IsOneRow types values rows =
      (row : List db.Field) × (cells : List Cell) × (rows ≡ row ∷ [])
      × (scan db types row ≡ some cells)
      × AllMatch cells values

  one_row :
      (types : List ColumnType) (values : List Value) (row : List db.Field) (o : Option (List Cell))
      (rest : List (List db.Field))
      → scan db types row ≡ o
      → then_check (check_cells true o values) (λ b. check_rows db 1 b types values rest)
        ≡ returned true
      → IsOneRow types values (row ∷ rest)
  unfolding check_rows
  one_row types values row none rest s e = absurd (ground arith)
  one_row types values row (some cells) [] s e =
      let (b, o, n) =
        then_check-true (check_all true cells values) (λ b. check_rows db 1 b types values []) e in
      (row, cells, refl, s, check_all-AllMatch cells values (o ∙ ap returned (ground arith)))
  one_row types values row (some cells) (more ∷ rest) s e =
      let (b, o, n) =
        then_check-true (check_all true cells values)
          (λ b. check_rows db 1 b types values (more ∷ rest)) e in
      absurd (ground arith)

  -- what makes a comparison succeed
  abbrev pub IsValidated : String → List Value → List ColumnType → Type 0
  IsValidated q values types =
      (asked : List ColumnType) × (rows : List (List db.Field)) × (types_for values types
        ≡ some asked)
      × (db.query q ≡ some rows)
      × IsOneRow asked values rows

  checked_rows :
      (types : List ColumnType) (values : List Value) (rows : List (List db.Field))
      → check_rows db 0 true types values rows ≡ returned true
      → IsOneRow types values rows
  unfolding check_rows
  checked_rows types values [] e = absurd (ground arith)
  checked_rows types values (row ∷ rest) e =
      one_row types values row (scan db types row) rest refl e

  checked_query :
      (values : List Value) (types : List ColumnType) (q : String)
      (asked : Option (List ColumnType)) (rows : Option (List (List db.Field)))
      → types_for values types ≡ asked
      → db.query q ≡ rows
      → check_query db asked values rows ≡ returned true
      → IsValidated q values types
  checked_query values types q none rows a r e = absurd (ground arith)
  checked_query values types q (some asked) none a r e = absurd (ground arith)
  checked_query values types q (some asked) (some rows) a r e =
      (asked, rows, a, r, checked_rows asked values rows e)

  validated :
      (values : List Value) (types : List ColumnType) (q : String)
      → IsValidated q values types
      → validate_result db q values types ≡ returned true
  unfolding validate_result
  validated values types q (asked, rows, a, r, (row, cells, one, s, m)) =
      rw (a, r, one, s, AllMatch-check_all cells values m) refl

  -- ValidateResult returns true exactly if there is a type for each expected value, the query succeeds and
  -- gives one row, the row can be scanned into variables of these types, and each value matches. A
  -- Boolean, a number or a text matches the equal value of its own type, a time matches the expected
  -- time cut to the microsecond, and nil matches what is not valid; that a text or a time is valid is
  -- not asked if something else than nil is expected.
  pub validate_result-true :
      (q : String) (values : List Value) (types : List ColumnType)
      → (validate_result db q values types ≡ returned true) ↔ IsValidated q values types
  unfolding validate_result
  validate_result-true q values types = (
    checked_query values types q (types_for values types) (db.query q) refl refl,
    validated values types q,
  )
