-- ===== src/Mysql/Insert/Sources/Targets.antt =====
-- What `InsertISCSI` of dbmanager/mysql/insert.go does, when the server fails no call.
use mathlib.Core.Path.{subst}
use kubevoltracker.Base.{
  ℕ, zero, suc, ℤ, pos, String, ◌≡◌, ◌≢◌, refl, [], ◌∷◌, ◌++◌, Option, none, some, arith, select,
}
use kubevoltracker.Go.{Outcome, returned}
use kubevoltracker.Mysql.Schema.{Tables}
use kubevoltracker.Mysql.Conn.{Conn, call}
use kubevoltracker.Mysql.Sql.{Server}
use kubevoltracker.Mysql.Existence.{check_iscsi_exists, is_iscsi_at, iscsi_id_of}
use kubevoltracker.Mysql.Tx.{do_tx_statement, run_tx, run_tx_loop, run_tx_actual}
use kubevoltracker.Mysql.Insert.Sources.{insert_iscsi, iscsi_tx}
use kubevoltracker.Mysql.Insert.Sources.Ids.{quiet, quiet_lem}

-- the id of the first record that the query finds
abbrev pub known_iscsi : Server → String → String → ℤ → String → Tables → Option ℕ
known_iscsi server target_portal iqn lun fs_type t =
    iscsi_id_of (select (is_iscsi_at server target_portal iqn lun fs_type) t.iscsi)

module _ (server : Server) (fuel : ℕ) (target_portal iqn : String) (lun : ℤ)
    (fs_type : String) where
  abbrev insert : Conn → Outcome ℤ × Conn
  insert = insert_iscsi server (suc fuel) target_portal iqn lun fs_type

  -- What `InsertISCSI` does, by what is known.
  abbrev pub IscsiOutcome : Conn → Option ℕ → Outcome ℤ × Conn → Type 0
  IscsiOutcome c (some id) (out, d) =
      (out ≡ returned (pos id)) × (d.tables ≡ c.tables) × (d.next_iscsi ≡ c.next_iscsi)
  IscsiOutcome c none (out, d) =
      (out ≡ returned (pos c.next_iscsi))
      × (d.tables ≡ record c.tables {
        iscsi =
            c.tables.iscsi
            ++ record {
              id = c.next_iscsi;
              target_portal = target_portal;
              iqn = iqn;
              lun = lun;
              fs_type = fs_type;
            }
              ∷ [];
      })
      × (d.next_iscsi ≡ suc c.next_iscsi)

  iscsi_known :
      (c : Conn) (id : ℕ)
      → known_iscsi server target_portal iqn lun fs_type c.tables ≡ some (suc id)
      → IscsiOutcome c (some (suc id)) (insert (quiet c))
  unfolding insert_iscsi iscsi_tx check_iscsi_exists run_tx run_tx_loop run_tx_actual
      do_tx_statement call
  iscsi_known c id e = ground arith

  iscsi_new :
      (c : Conn)
      → known_iscsi server target_portal iqn lun fs_type c.tables ≡ none
      → IscsiOutcome c none (insert (quiet c))
  unfolding insert_iscsi iscsi_tx check_iscsi_exists run_tx run_tx_loop run_tx_actual
      do_tx_statement call
  iscsi_new c e = ground arith

  iscsi_by :
      (c : Conn) (known : Option ℕ)
      → known ≢ some 0
      → known_iscsi server target_portal iqn lun fs_type c.tables ≡ known
      → IscsiOutcome c known (insert (quiet c))
  iscsi_by c (some zero) v e = absurd (v refl)
  iscsi_by c (some (suc id)) v e = iscsi_known c id e
  iscsi_by c none v e = iscsi_new c e

  -- `InsertISCSI`, with no failing call and a query that finds no record of id 0: a known target keeps
  -- its id and nothing changes; a new one gets the next id in a record of its own.
  pub insert_iscsi_effect :
      (c : Conn)
      → known_iscsi server target_portal iqn lun fs_type c.tables ≢ some 0
      → c.faults ≡ []
      → IscsiOutcome c
          (known_iscsi server target_portal iqn lun fs_type c.tables)
          (insert_iscsi server (suc fuel) target_portal iqn lun fs_type c)
  insert_iscsi_effect c v e =
      subst
        (λ (b : Conn).
          IscsiOutcome c (known_iscsi server target_portal iqn lun fs_type c.tables) (insert b))
        (quiet_lem c e) (iscsi_by c _ v refl)
