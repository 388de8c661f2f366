-- ===== src/Mysql/Existence.antt =====
-- dbmanager/mysql/existence.go: whether a volume source is known already.
use kubevoltracker.Base.{
  ℕ, ℤ, pos, negsuc, String, Bool, ◌&&◌, Option, none, some, List, head?, select, nat_eq, int_eq,
}
use kubevoltracker.Mysql.Schema.{Nfs, Iscsi}
use kubevoltracker.Mysql.Conn.{Tx, ok, ◌>>=◌, pure, or_fatal, call}
use kubevoltracker.Mysql.Sql.{Server, holds}

-- the id that was scanned, or -1 for `sql.ErrNoRows`
abbrev pub id_or : Option ℕ → ℤ
id_or none = negsuc 0
id_or (some id) = pos id

-- the `id` that the query selects, of the first row that it finds
abbrev pub nfs_id_of : List Nfs → Option ℕ
nfs_id_of rows = elim (head? rows) [ none ↦ none | some row ↦ some row.id ]

abbrev pub iscsi_id_of : List Iscsi → Option ℕ
iscsi_id_of rows = elim (head? rows) [ none ↦ none | some row ↦ some row.id ]

module _ (server : Server) where
  -- SELECT id FROM nfs WHERE ip_addr = inet_aton(?) and path like ?
  abbrev pub is_nfs_at : String → String → Nfs → Bool
  is_nfs_at ipaddr path row =
      holds (nat_eq row.ip_addr) (server.inet_aton ipaddr) && server.like row.path path

  -- SELECT id FROM iscsi WHERE target_portal LIKE ? AND iqn LIKE ? AND lun = ? AND fs_type LIKE ?
  abbrev pub is_iscsi_at : String → String → ℤ → String → Iscsi → Bool
  is_iscsi_at target_portal iqn lun fs_type row =
      server.like row.target_portal target_portal
      && server.like row.iqn iqn
      && int_eq row.lun lun
      && server.like row.fs_type fs_type

  unfoldable pub check_nfs_exists : String → String → Tx ℤ
  check_nfs_exists ipaddr path = do
    found ← or_fatal (call (λ c. (ok (nfs_id_of (select (is_nfs_at ipaddr path) c.tables.nfs)), c)))
    pure (id_or found)

  unfoldable pub check_iscsi_exists : String → String → ℤ → String → Tx ℤ
  check_iscsi_exists target_portal iqn lun fs_type = do
    found ← or_fatal (
        call (λ c. (
          ok (iscsi_id_of (select (is_iscsi_at target_portal iqn lun fs_type) c.tables.iscsi)),
          c,
        )))
    pure (id_or found)
