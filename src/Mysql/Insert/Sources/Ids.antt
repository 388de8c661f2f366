-- ===== src/Mysql/Insert/Sources/Ids.antt =====
-- The ids that `InsertNFS` of dbmanager/mysql/insert.go gives, when the server fails no call.
use mathlib.Core.Path.{subst}
use kubevoltracker.Base.{
  ℕ, zero, suc, ◌≤◌, ℤ, pos, negsuc, String, ◌≡◌, refl, sym, ap, Bool, true, List, [], ◌∷◌, ◌++◌,
  Option, none, some, arith, select,
}
use kubevoltracker.Go.{Outcome, returned}
use kubevoltracker.Mysql.Schema.{Nfs, Tables}
use kubevoltracker.Mysql.Conn.{Conn, call}
use kubevoltracker.Mysql.Sql.{Server}
use kubevoltracker.Mysql.Existence.{check_nfs_exists, is_nfs_at, nfs_id_of}
use kubevoltracker.Mysql.Tx.{do_tx_statement}
use kubevoltracker.Mysql.Insert.Sources.{insert_nfs, nfs_tx}

abbrev pub quiet : Conn → Conn
quiet c = record c { faults = [] }

pub quiet_lem : (c : Conn) → c.faults ≡ [] → quiet c ≡ c
quiet_lem c e = ap (λ fs. record c { faults = fs }) (sym e)

-- the id of the first record of the address whose path is LIKE the given one
abbrev pub known_nfs : Server → String → String → Tables → Option ℕ
known_nfs server ip_addr path t = nfs_id_of (select (is_nfs_at server ip_addr path) t.nfs)

-- The ids ascend from `lo` on, and lie below `hi`: no two records have one id.
abbrev pub Within : ℕ → ℕ → List Nfs → Type 0
Within lo hi [] = lo ≤ hi
Within lo hi (x ∷ xs) = (lo ≤ x.id) × Within (suc x.id) hi xs

-- Every id is positive, and the counter lies above all of them.
abbrev pub NfsIdsValid : Conn → Type 0
NfsIdsValid c = Within 1 c.next_nfs c.tables.nfs

Within-weaken : (lo k hi : ℕ) (xs : List Nfs) → Within k hi xs → lo ≤ k → Within lo hi xs
Within-weaken lo k hi [] w l = omega arith
Within-weaken lo k hi (x ∷ xs) w l = (omega arith, w.1)

pub Within-append :
    (lo hi : ℕ) (xs : List Nfs) (row : Nfs)
    → Within lo hi xs
    → row.id ≡ hi
    → Within lo (suc hi) (xs ++ row ∷ [])
Within-append lo hi [] row w e = (omega arith, omega arith)
Within-append lo hi (x ∷ xs) row w e = (w.0, Within-append (suc x.id) hi xs row w.1 e)

Within-select :
    (p : Nfs → Bool) (lo hi : ℕ) (xs : List Nfs) (id : ℕ)
    → Within lo hi xs
    → nfs_id_of (select p xs) ≡ some id
    → lo ≤ id
Within-select p lo hi [] id w e = cc
Within-select p lo hi (x ∷ xs) id w e =
    ground
      (arith, Within-select p lo hi xs id (Within-weaken lo (suc x.id) hi xs w.1 (omega arith)))

pub select-append_new :
    (p : Nfs → Bool) (xs : List Nfs) (row : Nfs)
    → nfs_id_of (select p xs) ≡ none
    → p row ≡ true
    → nfs_id_of (select p (xs ++ row ∷ [])) ≡ some row.id
select-append_new p [] row e h = ground arith
select-append_new p (x ∷ xs) row e h = ground (arith, select-append_new p xs row)

module _ (server : Server) (ip_addr path : String) where
  quiet_known :
      (c : Conn) (id : ℕ)
      → known_nfs server ip_addr path c.tables ≡ some (suc id)
      → let (out, d) = insert_nfs server ip_addr path (quiet c) in
        (out ≡ returned (pos (suc id)))
        × (d.tables ≡ c.tables)
        × (d.next_nfs ≡ c.next_nfs)
        × (d.faults ≡ [])
  unfolding insert_nfs nfs_tx check_nfs_exists do_tx_statement call
  quiet_known c id e = ground arith

  quiet_new :
      (c : Conn) (a : ℕ)
      → known_nfs server ip_addr path c.tables ≡ none
      → server.inet_aton ip_addr ≡ some a
      → let (out, d) = insert_nfs server ip_addr path (quiet c) in
        (out ≡ returned (pos c.next_nfs))
        × (d.tables ≡ record c.tables {
          nfs = c.tables.nfs ++ record { id = c.next_nfs; ip_addr = a; path = path } ∷ [];
        })
        × (d.next_nfs ≡ suc c.next_nfs)
        × (d.faults ≡ [])
  unfolding insert_nfs nfs_tx check_nfs_exists do_tx_statement call
  quiet_new c a e i = ground arith

  quiet_no_address :
      (c : Conn)
      → known_nfs server ip_addr path c.tables ≡ none
      → server.inet_aton ip_addr ≡ none
      → let (out, d) = insert_nfs server ip_addr path (quiet c) in
        (out ≡ returned (negsuc 0))
        × (d.tables ≡ c.tables)
        × (d.next_nfs ≡ c.next_nfs)
        × (d.faults ≡ [])
  unfolding insert_nfs nfs_tx check_nfs_exists do_tx_statement call
  quiet_no_address c e i = ground arith

  -- What `InsertNFS` does, by what is known of the path and what the server makes of the address.
  abbrev pub NfsOutcome : Conn → Option ℕ → Option ℕ → Outcome ℤ × Conn → Type 0
  NfsOutcome c (some id) _ (out, d) =
      (out ≡ returned (pos id)) × (d.tables ≡ c.tables) × (d.next_nfs ≡ c.next_nfs)
  NfsOutcome c none (some a) (out, d) =
      (out ≡ returned (pos c.next_nfs))
      × (d.tables ≡ record c.tables {
        nfs = c.tables.nfs ++ record { id = c.next_nfs; ip_addr = a; path = path } ∷ [];
      })
      × (d.next_nfs ≡ suc c.next_nfs)
  NfsOutcome c none none (out, d) =
      (out ≡ returned (negsuc 0)) × (d.tables ≡ c.tables) × (d.next_nfs ≡ c.next_nfs)

  pub outcome_by :
      (c : Conn) (known address : Option ℕ)
      → NfsIdsValid c
      → known_nfs server ip_addr path c.tables ≡ known
      → server.inet_aton ip_addr ≡ address
      → NfsOutcome c known address (insert_nfs server ip_addr path (quiet c))
        × ((insert_nfs server ip_addr path (quiet c)).1.faults ≡ [])
  outcome_by c (some zero) address v e i =
      absurd (
        omega
          (arith, Within-select (is_nfs_at server ip_addr path) 1 c.next_nfs c.tables.nfs 0 v e))
  outcome_by c (some (suc id)) address v e i = let q = quiet_known c id e in ((q.0, q.1, q.2), q.3)
  outcome_by c none (some a) v e i = let q = quiet_new c a e i in ((q.0, q.1, q.2), q.3)
  outcome_by c none none v e i = let q = quiet_no_address c e i in ((q.0, q.1, q.2), q.3)

  -- `InsertNFS`, with valid ids and no failing call: a known source keeps its id and nothing
  -- changes; a new one, of an address that the server can read, gets the next id in a record of its
  -- own; and of an address that the server cannot read, such as a host name, it gives -1 as a
  -- result like any other, and records nothing.
  pub insert_nfs_effect :
      (c : Conn)
      → NfsIdsValid c
      → c.faults ≡ []
      → NfsOutcome c
          (known_nfs server ip_addr path c.tables)
          (server.inet_aton ip_addr)
          (insert_nfs server ip_addr path c)
  insert_nfs_effect c v e =
      subst
        (λ (b : Conn).
          NfsOutcome c (known_nfs server ip_addr path c.tables) (server.inet_aton ip_addr)
            (insert_nfs server ip_addr path b))
        (quiet_lem c e) (outcome_by c _ _ v refl refl).0
