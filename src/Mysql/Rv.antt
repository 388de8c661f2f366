-- ===== src/Mysql/Rv.antt =====
-- dbmanager/mysql/resource_version.go: the last resource version that was seen, for each resource
-- type and namespace.
pub mod Laws
use kubevoltracker.Base.{
  ℕ, String, Bool, ◌&&◌, List, Option, none, some, head?, select, ◌==◌, if◌then◌else◌,
}
use kubevoltracker.Go.{Outcome, returned, panicked, Go}
use kubevoltracker.Resources.{ResourceType}
use kubevoltracker.Mysql.Schema.{ResourceVersion, Tables}
use kubevoltracker.Mysql.Conn.{Conn, Tx, Result, ok, err, fatal, ◌>>=◌, pure, wrap, call, on_tables}
use kubevoltracker.Mysql.Sql.{Server, upsert}
use kubevoltracker.Mysql.Tx.{rows_affected}

abbrev pub is_rv_of : String → String → ResourceVersion → Bool
is_rv_of resource namespace row = row.resource == resource && row.namespace == namespace

-- INSERT INTO resource_version ... ON DUPLICATE KEY UPDATE resource_version=?
abbrev pub set_rv : String → String → String → Tables → ℕ × Tables
set_rv resource namespace rv t =
    let row : ResourceVersion = record {
      resource = resource;
      namespace = namespace;
      resource_version = rv;
    } in
    let (n, rows) =
      upsert (is_rv_of resource namespace) row (λ r. record r { resource_version = rv })
        (λ r. r.resource_version == rv) t.resource_version in
    (n, record t { resource_version = rows })

-- The number of rows only decides what is logged.
unfoldable pub update_rv : ResourceType → String → String → Tx (Unit {0})
update_rv resource namespace rv = do
  result ←
      wrap "Unable to update resource version" (call (on_tables (set_rv resource namespace rv)))
  rows ← call (pure result)
  pure tt

-- `sql.ErrNoRows` gives the empty string, any other error a panic.
abbrev pub scan_rv : Result (Option ResourceVersion) × Conn → Outcome String × Conn
scan_rv (ok none, c) = (returned "", c)
scan_rv (ok (some row), c) = (returned row.resource_version, c)
scan_rv (err _, c) = (panicked, c)
scan_rv (fatal, c) = (panicked, c)

module _ (server : Server) where
  -- SELECT resource_version FROM resource_version WHERE resource LIKE ? AND namespace LIKE ?
  abbrev pub rv_rows : String → String → Tables → List ResourceVersion
  rv_rows resource namespace t =
      select (λ r. server.like r.resource resource && server.like r.namespace namespace)
        t.resource_version

  unfoldable pub get_rv : ResourceType → String → Go Conn String
  get_rv resource namespace c =
      scan_rv (call (λ d. (ok (head? (rv_rows resource namespace d.tables)), d)) c)
