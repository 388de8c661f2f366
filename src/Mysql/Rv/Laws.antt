-- ===== src/Mysql/Rv/Laws.antt =====
-- What `GetRV` of dbmanager/mysql/resource_version.go reads is what was recorded.
use kubevoltracker.Base.{
  String, ◌≡◌, refl, ap, ◌∙◌, ◌&&◌, List, [], ◌∷◌, Option, none, some, arith, head?, select,
}
use kubevoltracker.Go.{Outcome, returned, panicked}
use kubevoltracker.Mysql.Schema.{ResourceVersion}
use kubevoltracker.Mysql.Conn.{Err, Conn, Result, ok}
use kubevoltracker.Mysql.Conn.Laws.{next_fault, called, call_lem}
use kubevoltracker.Mysql.Sql.{Server, IsLiteral}
use kubevoltracker.Mysql.Rv.{get_rv, rv_rows, scan_rv}
use kubevoltracker.Mysql.View.{version_in, version_at}

-- what `GetRV` makes of the row that it finds
abbrev pub version_or_empty : Option String → String
version_or_empty none = ""
version_or_empty (some rv) = rv

abbrev read_version : Option ResourceVersion → Option String
read_version none = none
read_version (some row) = some row.resource_version

abbrev pub outcome_of : Option Err → Option String → Outcome String
outcome_of none o = returned (version_or_empty o)
outcome_of (some e) o = panicked

module _ (server : Server) (resource namespace : String)
    (literal_resource : IsLiteral server resource)
    (literal_namespace : IsLiteral server namespace) where
  select-version_in :
      (rows : List ResourceVersion)
      → read_version (
          head? (
            select
              (λ r. server.like r.resource resource && server.like r.namespace namespace)
              rows))
        ≡ version_in resource namespace rows
  select-version_in [] = refl
  select-version_in (x ∷ xs) =
      rw (literal_resource x.resource, literal_namespace x.namespace)
        (ground (arith, select-version_in xs))

  scan_row :
      (o : Option ResourceVersion) (c : Conn)
      → (scan_rv (ok o, c)).0 ≡ returned (version_or_empty (read_version o))
  scan_row none c = refl
  scan_row (some row) c = refl

  by_fault :
      (c : Conn) (f : Option Err)
      → (scan_rv (called (λ d. (ok (head? (rv_rows server resource namespace d.tables)), d)) c f)).0
        ≡ outcome_of f (version_at c.tables resource namespace)
  by_fault c none =
      scan_row (head? (rv_rows server resource namespace c.tables)) _
      ∙ ap (λ (o : Option String). returned (version_or_empty o))
          (select-version_in c.tables.resource_version)
  by_fault c (some e) = refl

  -- The names have no wildcard: `GetRV` gives the version that is recorded for the resource type in
  -- the namespace, or the empty string if none is, and it panics exactly if the server fails the
  -- query.
  pub get_rv-version_at :
      (c : Conn)
      → (get_rv server resource namespace c).0
        ≡ outcome_of (next_fault c.faults) (version_at c.tables resource namespace)
  unfolding get_rv
  get_rv-version_at c =
      ap (λ (out : Result (Option ResourceVersion) × Conn). (scan_rv out).0)
        (call_lem (λ d. (ok (head? (rv_rows server resource namespace d.tables)), d)) c)
      ∙ by_fault c (next_fault c.faults)
