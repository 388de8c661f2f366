-- ===== src/Mysql/Testing.antt =====
-- dbmanager/mysql/testutils/utils.go: how the tests compare a query's row with the values they expect.
pub mod Laws
pub mod Versions
use Prim.Native.String.{◌++◌}
use Prim.Native.Nat.{◌/◌}
use kubevoltracker.Base.{
  ℕ, suc, ◌*◌, ◌+◌, ℤ, String, Bool, true, false, not, ◌&&◌, List, [], ◌∷◌, Option, none, some,
  ◌==◌, ltb, nat_eq, int_eq, if◌then◌else◌,
}
use kubevoltracker.Go.{Outcome, returned, exited, panicked, hung, Go}
use kubevoltracker.Resources.{ResourceType}
use kubevoltracker.Mysql.Setup.{connection_string}

-- the types that a caller may ask for: the five constants, `string`, and any other
pub data ColumnType : Type 0 where
  bool_type : ColumnType
  int_type : ColumnType
  int64_type : ColumnType
  string_type : ColumnType
  time_type : ColumnType
  plain_string_type : ColumnType
  other_type : ColumnType

-- An expected value. Times are nanoseconds, in UTC.
pub data Value : Type 0 where
  nil : Value
  bool : Bool → Value
  int : ℤ → Value
  int64 : ℤ → Value
  text : String → Value
  time : ℕ → Value

-- What a pointer of `results` points to after the scan: `sql.NullString` and `mysql.NullTime` say
-- first whether they are valid.
pub data Cell : Type 0 where
  a_bool : Bool → Cell
  an_int : ℤ → Cell
  an_int64 : ℤ → Cell
  a_string : String → Cell
  null_string : Bool → String → Cell
  null_time : Bool → ℕ → Cell
  other : Cell

abbrev pub bool_eq : Bool → Bool → Bool
bool_eq true b = b
bool_eq false b = not b

-- `Truncate(time.Microsecond)`
abbrev pub truncate : ℕ → ℕ
truncate t = t / 1000 * 1000

-- `*local_type != expected_values[i]`: a value of another type is different
abbrev pub same_text : String → Value → Bool
same_text s (text t) = s == t
same_text s _ = false

abbrev pub same_bool : Bool → Value → Bool
same_bool b (bool c) = bool_eq b c
same_bool b _ = false

abbrev pub same_int : ℤ → Value → Bool
same_int z (int w) = int_eq z w
same_int z _ = false

abbrev pub same_int64 : ℤ → Value → Bool
same_int64 z (int64 w) = int_eq z w
same_int64 z _ = false

abbrev pub check_string : Bool → String → Value → Bool
check_string valid s nil = not valid
check_string valid s v = same_text s v

-- The assertion that the value is a `time.Time` panics for any other.
abbrev pub check_time : Bool → ℕ → Value → Outcome Bool
check_time valid t nil = returned (not valid)
check_time valid t (time u) = returned (nat_eq t (truncate u))
check_time valid t _ = panicked

-- the cases of the switch
abbrev pub check : Cell → Value → Outcome Bool
check (a_bool b) v = returned (same_bool b v)
check (an_int z) v = returned (same_int z v)
check (an_int64 z) v = returned (same_int64 z v)
check (a_string s) v = returned (same_text s v)
check (null_string valid s) v = returned (check_string valid s v)
check (null_time valid t) v = check_time valid t v
check other v = exited

abbrev pub then_check : Outcome Bool → (Bool → Outcome Bool) → Outcome Bool
then_check (returned b) next = next b
then_check exited next = exited
then_check panicked next = panicked
then_check hung next = hung

-- the loop over the values, with `correct`
unfoldable pub check_all : Bool → List Cell → List Value → Outcome Bool
check_all correct [] values = returned correct
check_all correct (cell ∷ cells) [] = panicked
check_all correct (cell ∷ cells) (value ∷ values) =
    then_check (check cell value) (λ b. check_all (correct && b) cells values)

-- `expected_types[i]` for each expected value; out of range it panics
unfoldable pub types_for : List Value → List ColumnType → Option (List ColumnType)
types_for [] types = some []
types_for (value ∷ values) [] = none
types_for (value ∷ values) (t ∷ types) = elim (types_for values types) [
  | none ↦ none
  | some rest ↦ some (t ∷ rest)
]

-- A database: the rows of a query, or an error, and the conversion of a column's value by `Scan`.
pub record Database : Type 1 where
  pub Field : Type 0
  pub query : String → Option (List (List Field))
  pub convert : ColumnType → Field → Option Cell

-- the body of the loop over the rows
abbrev pub check_cells : Bool → Option (List Cell) → List Value → Outcome Bool
check_cells correct none values = panicked
check_cells correct (some cells) values = check_all correct cells values

unfoldable pub rv_query : ResourceType → String → String
rv_query resource namespace =
    "SELECT resource_version FROM resource_version WHERE resource LIKE '"
    ++ (resource ++ ("' AND namespace LIKE '" ++ (namespace ++ "'")))

abbrev pub add_cell : Option Cell → Option (List Cell) → Option (List Cell)
add_cell none cells = none
add_cell (some cell) none = none
add_cell (some cell) (some cells) = some (cell ∷ cells)

module _ (db : Database) where
  -- `rows.Scan`: the numbers of columns and of destinations must be the same
  unfoldable pub scan : List ColumnType → List db.Field → Option (List Cell)
  scan [] [] = some []
  scan [] (field ∷ fields) = none
  scan (t ∷ types) [] = none
  scan (t ∷ types) (field ∷ fields) = add_cell (db.convert t field) (scan types fields)

  -- the loop over the rows, with `rowsScanned` and `correct`
  unfoldable pub check_rows :
      ℕ → Bool → List ColumnType → List Value → List (List db.Field) → Outcome Bool
  unfolding scan check_all
  check_rows scanned correct types values [] = returned (correct && nat_eq scanned 1)
  check_rows scanned correct types values (row ∷ rows) =
      if ltb 1 (scanned + 1)
      then returned false
      else then_check (check_cells correct (scan types row) values)
          (λ b. check_rows (scanned + 1) b types values rows)

  abbrev pub check_query :
      Option (List ColumnType) → List Value → Option (List (List db.Field)) → Outcome Bool
  check_query none values rows = panicked
  check_query (some types) values none = exited
  check_query (some types) values (some rows) = check_rows 0 true types values rows

  unfoldable pub validate_result : String → List Value → List ColumnType → Outcome Bool
  unfolding types_for check_rows
  validate_result q expected_values expected_types =
      check_query (types_for expected_values expected_types) expected_values (db.query q)

  -- `ValidateResourceVersion`: whether the test has not been marked as failed
  unfoldable pub validate_resource_version : ResourceType → String → String → Outcome Bool
  unfolding validate_result rv_query
  validate_resource_version resource namespace rv =
      validate_result (rv_query resource namespace) (text rv ∷ []) (string_type ∷ [])

-- `DB`, which is nil until it has been opened. sql.Open is a parameter.
unfoldable pub init_db :
    {D : Type 0} → (String → Option D) → String → String → Go (Option D) (Unit {0})
unfolding connection_string
init_db open_db mysql_ip db_name _ =
    elim (open_db (connection_string "root" "root" mysql_ip db_name "parseTime=true")) [
      | none ↦ (exited, none)
      | some d ↦ (returned tt, some d)
    ]

-- `DB.Close()`, of which a nil pointer panics
abbrev pub destroy_db : {D : Type 0} → (D → D) → Go (Option D) (Unit {0})
destroy_db close none = (panicked, none)
destroy_db close (some d) = (returned tt, some (close d))
