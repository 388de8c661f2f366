-- ===== src/Mysql/Tests/Checks.antt =====
-- The theorems about the comparison of query results, at a concrete database.
use kubevoltracker.Base.{
  String, ◌≡◌, refl, true, [], ◌∷◌, Option, none, some, ◌==◌, ◌↔◌, if◌then◌else◌,
}
use kubevoltracker.Go.{returned}
use kubevoltracker.Mysql.Tests.{server, calm}
use kubevoltracker.Mysql.Rv.{get_rv}
use kubevoltracker.Mysql.Testing.{
  Database, ColumnType, string_type, Cell, null_string, text, rv_query, validate_result,
  validate_resource_version,
}
use kubevoltracker.Mysql.Testing.Laws.{IsValidated, validate_result-true}
use kubevoltracker.Mysql.Testing.Versions.{get_rv-validated}

abbrev converted : ColumnType → String → Option Cell
converted string_type s = some (null_string true s)
converted _ s = none

abbrev database : Database
database = record {
  Field = String;
  query = λ q. if q == rv_query "pods" "default" then some (("17" ∷ []) ∷ []) else none;
  convert = converted;
}

validate_result-true_example :
    (validate_result database (rv_query "pods" "default") (text "17" ∷ []) (string_type ∷ [])
      ≡ returned true)
    ↔ IsValidated database (rv_query "pods" "default") (text "17" ∷ []) (string_type ∷ [])
validate_result-true_example =
    validate_result-true database (rv_query "pods" "default") (text "17" ∷ []) (string_type ∷ [])

get_rv-validated_example : (get_rv server "pods" "default" calm).0 ≡ returned "17"
unfolding validate_resource_version
get_rv-validated_example =
    get_rv-validated database server (λ s. s) "pods" "default" "17" calm (λ s. refl) refl refl refl
