-- ===== src/Mysql/Testing/Versions.antt =====
-- What the check of a resource version says of the version that GetRV gives.
use mathlib.Core.Path.{subst}
use mathlib.Core.Option.{some-injective}
use kubevoltracker.Base.{
  String, ◌≡◌, refl, sym, ap, ◌∙◌, true, List, [], ◌∷◌, map, Option, none, some, arith, head?,
}
use kubevoltracker.Go.{returned}
use kubevoltracker.Resources.{ResourceType}
use kubevoltracker.Mysql.Schema.{ResourceVersion, Tables}
use kubevoltracker.Mysql.Conn.{Conn, Err, Result, ok}
use kubevoltracker.Mysql.Conn.Laws.{call_lem, next_fault, called}
use kubevoltracker.Mysql.Sql.{Server}
use kubevoltracker.Mysql.Rv.{rv_rows, scan_rv, get_rv}
use kubevoltracker.Mysql.Testing.{
  ColumnType, Cell, null_string, text, string_type, types_for, Database, scan, add_cell, rv_query,
  validate_resource_version,
}
use kubevoltracker.Mysql.Testing.Laws.{AllMatch, IsOneRow, IsValidated, validate_result-true}

head_eq : {A : Type 0} (x y : A) → x ∷ [] ≡ y ∷ [] → x ≡ y
head_eq {A} x y e = ap (λ (xs : List A). head_or x xs) e
  where
    head_or : A → List A → A
    head_or z [] = z
    head_or z (w ∷ ws) = w

module _ (db : Database) (server : Server) (field : String → db.Field) where
  -- The value of a column that is not NULL is scanned as the text that it holds.
  abbrev pub ConvertsText : Type 0
  ConvertsText = (s : String) → db.convert string_type (field s) ≡ some (null_string true s)

  abbrev pub row_of : ResourceVersion → List db.Field
  row_of r = field r.resource_version ∷ []

  -- The query of ValidateResourceVersion gives the rows that match.
  abbrev pub ReadsVersions : Tables → ResourceType → String → Type 0
  ReadsVersions t resource namespace =
      db.query (rv_query resource namespace)
      ≡ some (map row_of (rv_rows server resource namespace t))

  scan_field :
      (s : String) (row : List db.Field) (cells : List Cell)
      → ConvertsText
      → field s ∷ [] ≡ row
      → scan db (string_type ∷ []) row ≡ some cells
      → null_string true s ∷ [] ≡ cells
  unfolding scan
  scan_field s row cells conv e f =
      let scanned : scan db (string_type ∷ []) (field s ∷ []) ≡ some (null_string true s ∷ []) =
        ap (λ (o : Option Cell). add_cell o (some [])) (conv s) in
      some-injective (null_string true s ∷ []) cells
        (sym scanned ∙ ap (scan db (string_type ∷ [])) e ∙ f)

  the_version :
      (rows : List ResourceVersion) (rv : String)
      → ConvertsText
      → IsOneRow db (string_type ∷ []) (text rv ∷ []) (map row_of rows)
      → (r : ResourceVersion) × (head? rows ≡ some r) × (r.resource_version ≡ rv)
  the_version [] rv conv (row, cells, one, s, m) = absurd (ground arith)
  the_version (r ∷ more ∷ rows) rv conv (row, cells, one, s, m) = absurd (ground arith)
  the_version (r ∷ []) rv conv (row, cells, one, s, m) = (
    r,
    refl,
    (subst (λ (cells : List Cell). AllMatch cells (text rv ∷ []))
        (sym (scan_field r.resource_version row cells conv (head_eq (row_of r) row one) s)) m).0,
  )

  get_rv_by :
      (resource namespace rv : String) (c : Conn) (f : Option Err) (r : ResourceVersion)
      → f ≡ none
      → head? (rv_rows server resource namespace c.tables) ≡ some r
      → (scan_rv (called (λ d. (ok (head? (rv_rows server resource namespace d.tables)), d)) c f)).0
        ≡ returned r.resource_version
  get_rv_by resource namespace rv c none r e h = rw h refl
  get_rv_by resource namespace rv c (some x) r e h = absurd (ground arith)

  found_version :
      (resource : ResourceType) (namespace rv : String) (c : Conn)
      → ConvertsText
      → ReadsVersions c.tables resource namespace
      → next_fault c.faults ≡ none
      → IsValidated db (rv_query resource namespace) (text rv ∷ []) (string_type ∷ [])
      → (get_rv server resource namespace c).0 ≡ returned rv
  unfolding get_rv types_for
  found_version resource namespace rv c conv reads calm (asked, rows, a, q, one) =
      let all = rv_rows server resource namespace c.tables in
      let same : rows ≡ map row_of all = some-injective rows (map row_of all) (sym q ∙ reads) in
      let these : string_type ∷ [] ≡ asked = some-injective (string_type ∷ []) asked a in
      let (r, h, e) = the_version all rv conv (
        subst (λ (types : List ColumnType). IsOneRow db types (text rv ∷ []) (map row_of all))
          (sym these) (subst (IsOneRow db asked (text rv ∷ [])) same one)) in
      ap (λ (out : Result (Option ResourceVersion) × Conn). (scan_rv out).0)
        (call_lem (λ d. (ok (head? (rv_rows server resource namespace d.tables)), d)) c)
      ∙ get_rv_by resource namespace rv c (next_fault c.faults) r calm h
      ∙ ap returned e

  -- The test's database gives the rows of the table that match, and their versions are not NULL; the
  -- server does not fail the query of GetRV. If ValidateResourceVersion accepts a version, GetRV gives
  -- that version.
  pub get_rv-validated :
      (resource : ResourceType) (namespace rv : String) (c : Conn)
      → ConvertsText
      → ReadsVersions c.tables resource namespace
      → next_fault c.faults ≡ none
      → validate_resource_version db resource namespace rv ≡ returned true
      → (get_rv server resource namespace c).0 ≡ returned rv
  unfolding validate_resource_version
  get_rv-validated resource namespace rv c conv reads calm e =
      found_version resource namespace rv c conv reads calm (
        (validate_result-true db (rv_query resource namespace) (text rv ∷ []) (string_type ∷ [])).0
          e)
