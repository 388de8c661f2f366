-- ===== src/Mysql/Orders/Claims.antt =====
-- The event of a claim and the event that its volume is bound, in either order.
use mathlib.Core.Path.{subst}
use mathlib.Core.Option.{some-injective}
use kubevoltracker.Base.{
  ℕ, String, ◌≡◌, refl, sym, ap, ◌∙◌, Bool, true, false, ◌&&◌, List, map, Option, none, some, arith,
  any, ◌==◌, eq_iff, eq_refl, if◌then◌else◌,
}
use kubevoltracker.Resources.{pvs, pvcs, pv_namespace}
use kubevoltracker.Mysql.Schema.{Pvc, Pod, PodMount, Tables}
use kubevoltracker.Mysql.Conn.{Conn}
use kubevoltracker.Mysql.Sql.{Server, is_null}
use kubevoltracker.Mysql.Util.{get_access_mode_string}
use kubevoltracker.Mysql.Bind.{bind_pvc, bound_row}
use kubevoltracker.Mysql.Bind.Effects.{PvcBound, is_bound_so, bind_pvc_effect}
use kubevoltracker.Mysql.Insert.{insert_pvc, new_pvc, refresh_pvc}
use kubevoltracker.Mysql.Insert.Claims.{PvcInserted, insert_pvc_effect}
use kubevoltracker.Mysql.View.{pvc_at, version_at}
use kubevoltracker.Mysql.View.Laws.{upserted}
use kubevoltracker.Mysql.Orders.{Ready, SameView, swapped}

-- two chains of equations that end alike
joined {ℓ} : {A : Type ℓ} {x m y n z : A} → x ≡ m → m ≡ z → y ≡ n → n ≡ z → x ≡ y
joined p q r u = p ∙ q ∙ sym (r ∙ u)

-- a row that is changed twice or not at all
twice :
    (b : Bool) (f g : Option Pvc → Pvc) (before mid after : Option Pvc)
    → mid ≡ (if b then some (f before) else before)
    → after ≡ (if b then some (g mid) else mid)
    → after ≡ (if b then some (g (some (f before))) else before)
twice true f g before mid after h k = k ∙ ap (λ (o : Option Pvc). some (g o)) h
twice false f g before mid after h k = k ∙ h

module _ (server : Server) (uid name : String) (time : ℕ) (namespace : String) (storage : ℕ)
    (modes : List String) (json watcher_ns rv pv_uid : String) (bind_time : ℕ)
    (bind_rv : String) where
  abbrev text : String
  text = get_access_mode_string modes

  abbrev fresh : Pvc
  fresh = new_pvc uid name time namespace storage text json

  abbrev refresh : Pvc → Pvc
  refresh = refresh_pvc name time namespace storage text json

  abbrev Inserted : Tables → Tables → Type 0
  Inserted = PvcInserted server uid name fresh refresh watcher_ns rv

  abbrev Bound : Tables → Tables → Type 0
  Bound = PvcBound pv_uid uid bind_time bind_rv

  abbrev bind_row : Pvc → Pvc
  bind_row r = record r { pv_uid = some pv_uid; bind_time = some bind_time }

  -- the row after both
  abbrev both : Option Pvc → Pvc
  both none = bind_row fresh
  both (some r) = bind_row (refresh r)

  inserted_then_bound :
      (o : Option Pvc)
      → upserted (bound_row pv_uid uid bind_time) bind_row (some (upserted fresh refresh o))
        ≡ both o
  inserted_then_bound none = refl
  inserted_then_bound (some r) = refl

  bound_then_inserted :
      (o : Option Pvc)
      → upserted fresh refresh (some (upserted (bound_row pv_uid uid bind_time) bind_row o))
        ≡ both o
  bound_then_inserted none = refl
  bound_then_inserted (some r) = refl

  same_claims :
      (t ta ta' tb tb' : Tables) (u : String)
      → Inserted t ta
      → Bound ta ta'
      → Bound t tb
      → Inserted tb tb'
      → pvc_at ta' u ≡ pvc_at tb' u
  same_claims t ta ta' tb tb' u a a' b b' =
      twice (uid == u) (upserted fresh refresh) (upserted (bound_row pv_uid uid bind_time) bind_row)
        (pvc_at t u) (pvc_at ta u) (pvc_at ta' u) (a.inserted u) (a'.bound u)
      ∙ ap (λ (r : Pvc). if uid == u then some r else pvc_at t u)
          (inserted_then_bound (pvc_at t u) ∙ sym (bound_then_inserted (pvc_at t u)))
      ∙ sym (
          twice (uid == u) (upserted (bound_row pv_uid uid bind_time) bind_row)
            (upserted fresh refresh) (pvc_at t u) (pvc_at tb u) (pvc_at tb' u) (b.bound u)
            (b'.inserted u))

  same_versions :
      (t ta ta' tb tb' : Tables) (r n : String)
      → Inserted t ta
      → Bound ta ta'
      → Bound t tb
      → Inserted tb tb'
      → version_at ta' r n ≡ version_at tb' r n
  same_versions t ta ta' tb tb' r n a a' b b' =
      swapped (pvs == r && pv_namespace == n) (pvcs == r && watcher_ns == n) (version_at t r n)
        (version_at ta r n) (version_at ta' r n) (version_at tb r n) (version_at tb' r n)
        (some bind_rv) (some rv) (ground (arith, eq_iff pvs r, eq_iff pvcs r, eq_iff pvs pvcs))
        (a.recorded r n) (a'.recorded r n) (b.recorded r n) (b'.recorded r n)

  -- the mounts after the event of the claim
  abbrev attached : List Pod → List PodMount → List PodMount
  attached pods = map (λ m.
      if server.like m.pvc_name name
        && any (λ (p : Pod). m.pod_uid == p.uid && is_null p.delete_time) pods
      then record m { pvc_uid = some uid }
      else m)

  commute :
      (t ta ta' tb tb' : Tables)
      → Inserted t ta
      → Bound ta ta'
      → Bound t tb
      → Inserted tb tb'
      → SameView ta' tb'
  commute t ta ta' tb tb' a a' b b' = record {
    claims = λ u. same_claims t ta ta' tb tb' u a a' b b';
    versions = λ r n. same_versions t ta ta' tb tb' r n a a' b b';
    mounts =
        ap (λ (x : Tables). x.pod_mount) a'.rest
        ∙ a.mounts
        ∙ sym (b'.mounts ∙ ap (λ (x : Tables). attached x.pod x.pod_mount) b.rest);
    pods =
        joined (ap (λ (x : Tables). x.pod) a'.rest) (ap (λ (x : Tables). x.pod) a.rest)
          (ap (λ (x : Tables). x.pod) b'.rest) (ap (λ (x : Tables). x.pod) b.rest);
    containers =
        joined (ap (λ (x : Tables). x.container) a'.rest) (ap (λ (x : Tables). x.container) a.rest)
          (ap (λ (x : Tables). x.container) b'.rest) (ap (λ (x : Tables). x.container) b.rest);
    volumes =
        joined (ap (λ (x : Tables). x.pv) a'.rest) (ap (λ (x : Tables). x.pv) a.rest)
          (ap (λ (x : Tables). x.pv) b'.rest) (ap (λ (x : Tables). x.pv) b.rest);
    nfs_sources =
        joined (ap (λ (x : Tables). x.nfs) a'.rest) (ap (λ (x : Tables). x.nfs) a.rest)
          (ap (λ (x : Tables). x.nfs) b'.rest) (ap (λ (x : Tables). x.nfs) b.rest);
    iscsi_sources =
        joined (ap (λ (x : Tables). x.iscsi) a'.rest) (ap (λ (x : Tables). x.iscsi) a.rest)
          (ap (λ (x : Tables). x.iscsi) b'.rest) (ap (λ (x : Tables). x.iscsi) b.rest);
  }

  module _ (fuel : ℕ) where
    abbrev is_bound : Pvc → Bool
    is_bound = is_bound_so fuel pv_uid uid bind_time bind_rv

    still_unbound :
        (o : Option Pvc)
        → ((r : Pvc) → o ≡ some r → is_bound r ≡ false)
        → is_bound (upserted fresh refresh o) ≡ false
    still_unbound none h = refl
    still_unbound (some r) h = h r refl

    unbound :
        (o o' : Option Pvc)
        → ((r : Pvc) → o ≡ some r → is_bound r ≡ false)
        → o' ≡ some (upserted fresh refresh o)
        → (r : Pvc) → o' ≡ some r
        → is_bound r ≡ false
    unbound o o' h e r k =
        subst (λ (x : Pvc). is_bound x ≡ false)
          (some-injective (upserted fresh refresh o) r (sym e ∙ k)) (still_unbound o h)

    insert_effect :
        (t : Tables) (c : Conn)
        → Ready fuel t c
        → Inserted t
            (insert_pvc server fuel uid name time namespace storage modes json watcher_ns rv
              c).1.tables
    insert_effect t c (e, i, h, l) =
        subst
          (λ (x : Tables).
            Inserted x
              (insert_pvc server fuel uid name time namespace storage modes json watcher_ns rv
                c).1.tables)
          e
          (insert_pvc_effect server fuel uid name time namespace storage modes json watcher_ns rv c
            i h l).1

    bind_effect :
        (t : Tables) (c : Conn)
        → ((r : Pvc) → pvc_at t uid ≡ some r → is_bound r ≡ false)
        → Ready fuel t c
        → Bound t (bind_pvc fuel pv_uid uid bind_time bind_rv c).1.tables
    bind_effect t c new (e, i, h, l) =
        subst (λ (x : Tables). Bound x (bind_pvc fuel pv_uid uid bind_time bind_rv c).1.tables) e
          (bind_pvc_effect fuel pv_uid uid bind_time bind_rv c
            (λ r k. new r (sym (ap (λ (x : Tables). pvc_at x uid) e) ∙ k)) i h l).1

    -- A claim that is not bound to this volume at this time yet. Its event and the event that binds it are
    -- recorded by transactions that each see what the one before it has left, on any connections and
    -- with any failures, fewer than the fuel, of which none pretends to be a duplicate key. Then either
    -- order leaves the same: claims and versions that agree for every key, and otherwise the same rows.
    pub bind_pvc-insert_pvc :
        (t : Tables) (a b c d : Conn)
        → ((r : Pvc)
            → pvc_at t uid ≡ some r
            → is_bound_so fuel pv_uid uid bind_time bind_rv r ≡ false)
        → Ready fuel t a
        → Ready fuel
            (insert_pvc server fuel uid name time namespace storage modes json watcher_ns rv
              a).1.tables
            b
        → Ready fuel t c
        → Ready fuel (bind_pvc fuel pv_uid uid bind_time bind_rv c).1.tables d
        → SameView
            (bind_pvc fuel pv_uid uid bind_time bind_rv b).1.tables
            (insert_pvc server fuel uid name time namespace storage modes json watcher_ns rv
              d).1.tables
    bind_pvc-insert_pvc t a b c d new ra rb rc rd =
        let ta =
          (insert_pvc server fuel uid name time namespace storage modes json watcher_ns rv
            a).1.tables in
        let tc = (bind_pvc fuel pv_uid uid bind_time bind_rv c).1.tables in
        let inserted = insert_effect t a ra in
        commute t ta (bind_pvc fuel pv_uid uid bind_time bind_rv b).1.tables tc
          (insert_pvc server fuel uid name time namespace storage modes json watcher_ns rv
            d).1.tables
          inserted
          (bind_effect ta b
            (unbound (pvc_at t uid) (pvc_at ta uid) new
              (rw (eq_refl uid) at (inserted.inserted uid)))
            rb)
          (bind_effect t c new rc) (insert_effect tc d rd)
