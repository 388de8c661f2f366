-- ===== src/Mysql/Insert/Sources/Again.antt =====
-- `InsertNFS` of dbmanager/mysql/insert.go keeps its ids valid, and gives a source that it has
-- recorded the same id again.
use mathlib.Core.Path.{subst}
use mathlib.Core.Option.{some-injective}
use kubevoltracker.Base.{
  ℕ, ℤ, pos, String, ◌≡◌, refl, Bool, Bool-cases, true, List, [], ◌∷◌, ◌++◌, ◌&&◌, sym, Option,
  none, some, inl, inr, arith, Among, select, nat_eq, ◌==◌, eq_iff, eq_refl,
}
use kubevoltracker.Mysql.Schema.{Nfs}
use kubevoltracker.Go.{Outcome, returned}
use kubevoltracker.Mysql.Conn.{Conn}
use kubevoltracker.Mysql.Sql.{Server, IsLiteral}
use kubevoltracker.Mysql.Existence.{is_nfs_at, nfs_id_of}
use kubevoltracker.Mysql.Insert.Sources.{insert_nfs}
use kubevoltracker.Mysql.Insert.Sources.Ids.{
  quiet, quiet_lem, known_nfs, NfsIdsValid, Within-append, select-append_new, NfsOutcome,
  outcome_by, insert_nfs_effect,
}

module _ (server : Server) (ip_addr path : String) where
  outcome-Valid :
      (c : Conn) (known address : Option ℕ) (out : Outcome ℤ × Conn)
      → NfsIdsValid c
      → NfsOutcome server ip_addr path c known address out
      → NfsIdsValid out.1
  outcome-Valid c (some id) address (out, d) v o = rw (o.1, o.2) v
  outcome-Valid c none (some a) (out, d) v o =
      rw (o.1, o.2) (Within-append 1 c.next_nfs c.tables.nfs _ v refl)
  outcome-Valid c none none (out, d) v o = rw (o.1, o.2) v

  -- With no failing call, `InsertNFS` keeps the ids valid: positive, distinct, below the counter.
  insert_nfs-Valid :
      (c : Conn) → NfsIdsValid c → c.faults ≡ [] → NfsIdsValid (insert_nfs server ip_addr path c).1
  insert_nfs-Valid c v e =
      subst (λ (b : Conn). NfsIdsValid (insert_nfs server ip_addr path b).1) (quiet_lem c e)
        (outcome-Valid c _ _ (insert_nfs server ip_addr path (quiet c)) v
          (outcome_by server ip_addr path c _ _ v refl refl).0)

module _ (server : Server) (ip_addr path : String) (literal : IsLiteral server path) where
  -- After the call the source is known under the id that the call gave.
  known_after :
      (c : Conn) (known : Option ℕ) (a : ℕ) (out : Outcome ℤ × Conn)
      → known_nfs server ip_addr path c.tables ≡ known
      → server.inet_aton ip_addr ≡ some a
      → NfsOutcome server ip_addr path c known (some a) out
      → (id : ℕ) × (out.0 ≡ returned (pos id))
        × (known_nfs server ip_addr path out.1.tables ≡ some id)
  known_after c (some id) a (out, d) k i o = (id, o.0, rw o.1 k)
  known_after c none a (out, d) k i o = (
    c.next_nfs,
    o.0,
    rw o.1 (
        select-append_new (is_nfs_at server ip_addr path) c.tables.nfs _ k
          (rw (i, literal path, eq_refl path) (ground arith))),
  )

-- the record that the query finds
found_row :
    (p : Nfs → Bool) (rows : List Nfs) (id : ℕ)
    → nfs_id_of (select p rows) ≡ some id
    → (r : Nfs) × Among r rows × (p r ≡ true) × (r.id ≡ id)
found_row p [] id e = cc
found_row p (x ∷ rows) id e = elim (Bool-cases (p x)) [
  | inl t ↦ (x, inl refl, t, some-injective x.id id (rw t at (e)))
  | inr t ↦ let (r, m, q, k) = found_row p rows id (rw t at (e)) in (r, inr m, q, k)
]

same_row :
    (r : Nfs) (id a : ℕ) (path : String)
    → r.id ≡ id
    → r.ip_addr ≡ a
    → r.path ≡ path
    → r ≡ record { id = id; ip_addr = a; path = path }
same_row r id a path e i p = rw (sym e, sym i, sym p) refl

-- A path that is no pattern finds the record of the address and the path itself.
literal_row :
    (server : Server) (ip_addr path : String) (a : ℕ) (rows : List Nfs) (id : ℕ)
    → IsLiteral server path
    → server.inet_aton ip_addr ≡ some a
    → nfs_id_of (select (is_nfs_at server ip_addr path) rows) ≡ some id
    → Among (record { id = id; ip_addr = a; path = path }) rows
literal_row server ip_addr path a rows id literal address e =
    let (r, m, q, k) = found_row (is_nfs_at server ip_addr path) rows id e in
    let both : (nat_eq r.ip_addr a && r.path == path) ≡ true =
      rw (address, literal r.path) at (q) in
    subst (λ (x : Nfs). Among x rows)
      (same_row r id a path k (ground arith) (ground (arith, eq_iff r.path path))) m

-- A source that is known keeps its id, and the call changes nothing.
known_again :
    (server : Server) (ip_addr path : String) (d : Conn) (id : ℕ)
    → NfsIdsValid d
    → d.faults ≡ []
    → known_nfs server ip_addr path d.tables ≡ some id
    → let out = insert_nfs server ip_addr path d in
      (out.0 ≡ returned (pos id)) × (out.1.tables ≡ d.tables)
known_again server ip_addr path d id v e k =
    let o =
      subst
        (λ (known : Option ℕ).
          NfsOutcome server ip_addr path d known (server.inet_aton ip_addr)
            (insert_nfs server ip_addr path d))
        k (insert_nfs_effect server ip_addr path d v e) in
    (o.0, o.1)

module _ (server : Server) (ip_addr path : String) (a : ℕ)
    (address : server.inet_aton ip_addr ≡ some a) where
  -- Called twice for a path with no wildcard at an address that the server can read, with valid ids
  -- and no failing call, `InsertNFS` gives an id the first time, under which the table then has a record
  -- of this address and path, and the same id the second time, which changes no table.
  pub insert_nfs_again :
      (c : Conn)
      → IsLiteral server path
      → NfsIdsValid c
      → c.faults ≡ []
      → let (first, d) = insert_nfs server ip_addr path c in
        let (second, e) = insert_nfs server ip_addr path d in
        (id : ℕ) × (first ≡ returned (pos id))
        × Among (record { id = id; ip_addr = a; path = path }) d.tables.nfs
        × (second ≡ returned (pos id))
        × (e.tables ≡ d.tables)
  insert_nfs_again c literal v e =
      let (o, f) = outcome_by server ip_addr path c _ _ v refl refl in
      let (id, r, k) =
        known_after server ip_addr path literal c _ a (insert_nfs server ip_addr path (quiet c))
          refl address
          (subst
            (λ (x : Option ℕ).
              NfsOutcome server ip_addr path c (known_nfs server ip_addr path c.tables) x
                (insert_nfs server ip_addr path (quiet c)))
            address o) in
      let valid = outcome-Valid server ip_addr path c _ _ _ v o in
      let again =
        known_again server ip_addr path (insert_nfs server ip_addr path (quiet c)).1 id valid f k in
      subst
        (λ (b : Conn).
          let (first, d) = insert_nfs server ip_addr path b in
          let (second, e) = insert_nfs server ip_addr path d in
          (id : ℕ) × (first ≡ returned (pos id))
          × Among (record { id = id; ip_addr = a; path = path }) d.tables.nfs
          × (second ≡ returned (pos id))
          × (e.tables ≡ d.tables))
        (quiet_lem c e)
        (id, r, literal_row server ip_addr path a _ id literal address k, again.0, again.1)

  -- Two paths of which the second, read as a pattern, matches the first: neither is known. With
  -- valid ids and no failing call, inserting the first records it under the next id and gives that
  -- id; inserting the second then gives the same id, and records nothing.
  pub insert_nfs_wildcard :
      (other : String) (c : Conn)
      → server.like path other ≡ true
      → known_nfs server ip_addr path c.tables ≡ none
      → known_nfs server ip_addr other c.tables ≡ none
      → NfsIdsValid c
      → c.faults ≡ []
      → let (first, d) = insert_nfs server ip_addr path c in
        let (second, e) = insert_nfs server ip_addr other d in
        (first ≡ returned (pos c.next_nfs))
        × (d.tables ≡ record c.tables {
          nfs = c.tables.nfs ++ record { id = c.next_nfs; ip_addr = a; path = path } ∷ [];
        })
        × (second ≡ returned (pos c.next_nfs))
        × (e.tables ≡ d.tables)
  insert_nfs_wildcard other c matches new new_other v e =
      let (o, f) = outcome_by server ip_addr path c none (some a) v new address in
      let again =
        known_again server ip_addr other (insert_nfs server ip_addr path (quiet c)).1 c.next_nfs
          (outcome-Valid server ip_addr path c none (some a)
            (insert_nfs server ip_addr path (quiet c)) v o)
          f
          (rw o.1 (
            select-append_new (is_nfs_at server ip_addr other) c.tables.nfs _ new_other
              (rw (address, matches) (ground arith)))) in
      subst
        (λ (b : Conn).
          let (first, d) = insert_nfs server ip_addr path b in
          let (second, e) = insert_nfs server ip_addr other d in
          (first ≡ returned (pos c.next_nfs))
          × (d.tables ≡ record c.tables {
            nfs = c.tables.nfs ++ record { id = c.next_nfs; ip_addr = a; path = path } ∷ [];
          })
          × (second ≡ returned (pos c.next_nfs))
          × (e.tables ≡ d.tables))
        (quiet_lem c e) (o.0, o.1, again.0, again.1)
