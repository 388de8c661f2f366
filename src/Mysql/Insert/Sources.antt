-- ===== src/Mysql/Insert/Sources.antt =====
-- `InsertNFS` and `InsertISCSI` of dbmanager/mysql/insert.go: the id of a volume source, which is
-- recorded if it is new.
pub mod Ids
pub mod Again
pub mod Targets
use kubevoltracker.Base.{
  ℕ, suc, ◌+◌, ℤ, pos, negsuc, String, List, [], ◌∷◌, ◌++◌, Option, none, some, is_positive,
  if◌then◌else◌,
}
use kubevoltracker.Go.{Outcome, returned, exited, panicked, hung, Go, ◌>>=◌ as go_bind}
use kubevoltracker.Mysql.Conn.{
  Conn, Tx, Result, ok, err, fatal, mysql, ◌>>=◌, ◌>>◌, pure, raise, wrap, call,
}
use kubevoltracker.Mysql.Sql.{Server}
use kubevoltracker.Mysql.Tx.{begin, commit, rollback, run_tx, or_exit, do_tx_statement}
use kubevoltracker.Mysql.Existence.{check_nfs_exists, check_iscsi_exists}

-- the server's refusal of NULL in a column that is NOT NULL
abbrev pub err_bad_null : ℕ
err_bad_null = 1048

-- INSERT INTO nfs (ip_addr, path) VALUES (inet_aton(?), ?)
abbrev pub insert_nfs_row : Server → String → String → Tx ℕ
insert_nfs_row server ip_addr path c = elim (server.inet_aton ip_addr) [
  | none ↦ raise (mysql err_bad_null) c
  | some ip ↦ (
    ok 1,
    record c {
      tables = record c.tables {
        nfs = c.tables.nfs ++ record { id = c.next_nfs; ip_addr = ip; path = path } ∷ [];
      };
      last_insert_id = c.next_nfs;
      next_nfs = suc c.next_nfs;
    },
  )
]

-- INSERT INTO iscsi(target_portal, iqn, lun, fs_type) VALUES(?, ?, ?, ?)
abbrev pub insert_iscsi_row : String → String → ℤ → String → Tx ℕ
insert_iscsi_row target_portal iqn lun fs_type c = (
  ok 1,
  record c {
    tables = record c.tables {
      iscsi =
          c.tables.iscsi
          ++ record {
            id = c.next_iscsi;
            target_portal = target_portal;
            iqn = iqn;
            lun = lun;
            fs_type = fs_type;
          }
            ∷ [];
    };
    last_insert_id = c.next_iscsi;
    next_iscsi = suc c.next_iscsi;
  },
)

-- SELECT LAST_INSERT_ID()
abbrev pub last_id : Tx ℤ
last_id = wrap "Unable to retrieve last created ID" (call (λ c. (ok (pos c.last_insert_id), c)))

-- `if err := ...; err != nil { return -1 }`: this `err` hides the one that the deferred function
-- reads, so -1 is returned as a good result
abbrev pub or_minus_one : Tx (Unit {0}) → Tx ℤ → Tx ℤ
or_minus_one m rest c =
    let (r, c') = m c in
    elim r [ ok _ ↦ rest c' | err _ ↦ (ok (negsuc 0), c') | fatal ↦ (fatal, c') ]

-- `iscsiID = id`
abbrev pub capture : ℤ → Tx (Unit {0})
capture id c = (ok tt, record c { captured = id })

module _ (server : Server) where
  unfoldable pub nfs_tx : String → String → Tx ℤ
  unfolding check_nfs_exists do_tx_statement
  nfs_tx ip_addr path = do
    id ← check_nfs_exists server ip_addr path
    if is_positive id
        then pure id
        else or_minus_one (do_tx_statement (insert_nfs_row server ip_addr path)) last_id

  -- the deferred function: an error rolls back and exits, and so does a commit that fails
  abbrev pub close_nfs : Result ℤ → Go Conn ℤ
  close_nfs (ok id) c =
      let (r, c') = commit c in
      elim r [ ok _ ↦ (returned id, c') | err _ ↦ (exited, c') | fatal ↦ (exited, c') ]
  close_nfs (err _) c = (exited, rollback c)
  close_nfs fatal c = (exited, rollback c)

  abbrev pub insert_nfs_from : String → String → Result (Unit {0}) → Go Conn ℤ
  insert_nfs_from ip_addr path (ok _) c = let (r, c') = nfs_tx ip_addr path c in close_nfs r c'
  insert_nfs_from ip_addr path (err _) c = (exited, c)
  insert_nfs_from ip_addr path fatal c = (exited, c)

  unfoldable pub insert_nfs : String → String → Go Conn ℤ
  unfolding nfs_tx
  insert_nfs ip_addr path c = let (r, c') = begin c in insert_nfs_from ip_addr path r c'

  unfoldable pub iscsi_tx : String → String → ℤ → String → Tx (Unit {0})
  unfolding check_iscsi_exists do_tx_statement
  iscsi_tx target_portal iqn lun fs_type = do
    id ← check_iscsi_exists server target_portal iqn lun fs_type
    capture id
    if is_positive id then pure tt else (do
      do_tx_statement (insert_iscsi_row target_portal iqn lun fs_type)
      new_id ← last_id
      capture new_id)

  unfoldable pub insert_iscsi : ℕ → String → String → ℤ → String → Go Conn ℤ
  unfolding iscsi_tx
  insert_iscsi fuel target_portal iqn lun fs_type c =
      go_bind (or_exit (run_tx fuel (iscsi_tx target_portal iqn lun fs_type)))
        (λ _ d. (returned d.captured, d)) (record c { captured = pos 0 })
