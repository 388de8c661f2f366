-- ===== src/Mock/Laws.antt =====
-- The ids that the mock of dbmanager/mock/mock.go gives, and the life of a pod in it.
use kubevoltracker.Base.{
  ℕ, suc, ◌<◌, String, ◌≡◌, refl, sym, ap, ◌∙◌, Bool-cases, inl, inr, List, [], ◌∷◌, map, Option,
  none, some, arith, ◌==◌, eq_iff, eq_refl, if◌then◌else◌,
}
use kubevoltracker.Go.{returned}
use kubevoltracker.Resources.Objects.{PodResource, pod}
use kubevoltracker.Events.{added, deleted}
use kubevoltracker.Watcher.Handlers.{handle_pods, describe}
use kubevoltracker.Mock.{
  NfsId, PodAttrs, MockManager, same_nfs, lookup, remove, put, nfs_or_new, insert_nfs, manager,
}

-- The ids descend below `hi`: no two sources have one.
abbrev pub Descend : ℕ → List (NfsId × ℕ) → Type 0
Descend hi [] = Unit
Descend hi ((key, id) ∷ m) = (id < hi) × Descend id m

abbrev pub MockIdsValid : MockManager → Type 0
MockIdsValid m = Descend (suc m.last_nfs_id) m.nfs_id_map

remove_absent :
    (key : NfsId) (m : List (NfsId × ℕ)) → lookup same_nfs key m ≡ none → remove same_nfs key m ≡ m
remove_absent key [] e = refl
remove_absent key ((k, id) ∷ m) e = elim (Bool-cases (same_nfs k key)) [
  | inl q ↦ ground arith
  | inr q ↦ rw q (ap (λ (xs : List (NfsId × ℕ)). (k, id) ∷ xs) (remove_absent key m (ground arith)))
]

nfs_or_new-Valid :
    (o : Option ℕ) (key : NfsId) (m : MockManager)
    → MockIdsValid m
    → lookup same_nfs key m.nfs_id_map ≡ o
    → MockIdsValid (nfs_or_new o key m).1
nfs_or_new-Valid (some id) key m v e = v
nfs_or_new-Valid none key m v e = (omega arith, rw (remove_absent key m.nfs_id_map e) v)

-- `InsertNFS` of the mock keeps the ids of different sources different, and below the next one.
pub mock_nfs-Valid :
    (ip_addr path : String) (m : MockManager)
    → MockIdsValid m
    → MockIdsValid (insert_nfs ip_addr path m).1
unfolding insert_nfs
mock_nfs-Valid ip_addr path m v =
    nfs_or_new-Valid (lookup same_nfs (record { ip_addr = ip_addr; path = path }) m.nfs_id_map) _ m
      v refl

lookup-below :
    (key : NfsId) (hi id : ℕ) (m : List (NfsId × ℕ))
    → Descend hi m
    → lookup same_nfs key m ≡ some id
    → id < hi
lookup-below key hi id [] d e = ground arith
lookup-below key hi id ((k, i) ∷ m) d e = elim (Bool-cases (same_nfs k key)) [
  | inl q ↦ ground arith
  | inr q ↦ let below = lookup-below key i id m d.1 (ground arith) in omega arith
]

lookup_apart :
    (a b : NfsId) (id : ℕ) (hi : ℕ) (m : List (NfsId × ℕ))
    → Descend hi m
    → lookup same_nfs a m ≡ some id
    → lookup same_nfs b m ≡ some id
    → (a.ip_addr ≡ b.ip_addr) × (a.path ≡ b.path)
lookup_apart a b id hi [] d e f = ground arith
lookup_apart a b id hi ((k, i) ∷ m) d e f = elim (Bool-cases (same_nfs k a)) [
  | inl p ↦ elim (Bool-cases (same_nfs k b)) [
    | inl q ↦ ground (
      arith,
      eq_iff k.ip_addr a.ip_addr,
      eq_iff k.ip_addr b.ip_addr,
      eq_iff k.path a.path,
      eq_iff k.path b.path,
    )
    | inr q ↦ let below = lookup-below b i id m d.1 (ground arith) in ground arith
  ]
  | inr p ↦ elim (Bool-cases (same_nfs k b)) [
    | inl q ↦ let below = lookup-below a i id m d.1 (ground arith) in ground arith
    | inr q ↦ lookup_apart a b id i m d.1 (ground arith) (ground arith)
  ]
]

-- Two sources that the mock has given one id have one address and one path, if its ids are valid.
pub mock_sources_apart :
    (a b : NfsId) (id : ℕ) (m : MockManager)
    → MockIdsValid m
    → lookup same_nfs a m.nfs_id_map ≡ some id
    → lookup same_nfs b m.nfs_id_map ≡ some id
    → (a.ip_addr ≡ b.ip_addr) × (a.path ≡ b.path)
mock_sources_apart a b id m v e f = lookup_apart a b id (suc m.last_nfs_id) m.nfs_id_map v e f

-- The mock's ids are valid, and so they are after one more `InsertNFS`: two sources that then have one
-- id have one address and one path.
pub insert_nfs_apart :
    (ip_addr path : String) (a b : NfsId) (id : ℕ) (m : MockManager)
    → MockIdsValid m
    → let m' = (insert_nfs ip_addr path m).1 in
      lookup same_nfs a m'.nfs_id_map ≡ some id
      → lookup same_nfs b m'.nfs_id_map ≡ some id
      → MockIdsValid m' × (a.ip_addr ≡ b.ip_addr) × (a.path ≡ b.path)
insert_nfs_apart ip_addr path a b id m v e f =
    let valid = mock_nfs-Valid ip_addr path m v in
    let (same, path_same) = mock_sources_apart a b id (insert_nfs ip_addr path m).1 valid e f in
    (valid, same, path_same)

lookup-remove :
    (u v : String) (m : List (String × PodAttrs))
    → lookup ◌==◌ v (remove ◌==◌ u m) ≡ (if u == v then none else lookup ◌==◌ v m)
lookup-remove u v [] = elim (Bool-cases (u == v)) [ inl e ↦ rw e refl | inr e ↦ rw e refl ]
lookup-remove u v ((k, p) ∷ m) = elim (Bool-cases (k == u)) [
  | inl e ↦ elim (Bool-cases (u == v)) [
    | inl q ↦ rw (e, lookup-remove u v m, q) refl
    | inr q ↦ rw (e, lookup-remove u v m, (eq_iff k u).0 e, q) refl
  ]
  | inr e ↦ elim (Bool-cases (u == v)) [
    | inl q ↦ rw (e, lookup-remove u v m, sym ((eq_iff u v).0 q), e, eq_refl u) refl
    | inr q ↦ rw (e, lookup-remove u v m, q) refl
  ]
]

put_gone :
    (uid u : String) (p : PodAttrs) (m : List (String × PodAttrs))
    → lookup ◌==◌ u (remove ◌==◌ uid (put ◌==◌ uid p m))
      ≡ (if uid == u then none else lookup ◌==◌ u m)
put_gone uid u p m = lookup-remove uid u (put ◌==◌ uid p m) ∙ elim (Bool-cases (uid == u)) [
  | inl e ↦ rw e refl
  | inr e ↦ rw (e, lookup-remove uid u m, e) refl
]

-- A pod that is added and then deleted, by two events that name it, is not in the mock any more; every
-- other pod is there as it was before; and one more deletion is counted. The deleted pod has a time
-- of deletion.
pub mock_pod_gone :
    (ns : String) (now time : ℕ) (json : String) (p q : PodResource) (m : MockManager)
    → q.uid ≡ p.uid
    → q.deletion_timestamp ≡ some time
    → let d = (handle_pods manager ns now added (pod p) json m).1 in
      let (out, e) = handle_pods manager ns now deleted (pod q) json d in
      (out ≡ returned tt)
      × (e.deletions ≡ suc m.deletions)
      × ((u : String)
          → lookup ◌==◌ u e.pod_for_uid
            ≡ (if p.uid == u then none else lookup ◌==◌ u m.pod_for_uid))
unfolding handle_pods
mock_pod_gone ns now time json p q m e f =
    let attrs : PodAttrs = record {
      name = p.name;
      create_time = p.creation_timestamp;
      namespace = p.namespace;
      uid = p.uid;
      containers = map (describe p.volumes) p.containers;
    } in
    rw f (
      refl,
      refl,
      λ u.
          ap (λ (x : String). lookup ◌==◌ u (remove ◌==◌ x (put ◌==◌ p.uid attrs m.pod_for_uid))) e
          ∙ put_gone p.uid u attrs m.pod_for_uid,
    )
