-- ===== src/Mysql/Orders/Pods.antt =====
-- The event of a pod and the event of a claim that it mounts, in either order.
pub mod Choice
pub mod Mounts
use kubevoltracker.Base.{
  map-append, ℕ, suc, String, ◌≡◌, refl, sym, ap, ◌∙◌, Bool, true, false, ◌&&◌, ◌||◌, List, [], ◌∷◌,
  ◌++◌, map, Option, none, some, any, arith, ◌==◌, eq_iff, eq_refl, if◌then◌else◌,
}
use kubevoltracker.Resources.{ContainerDesc, pods, pvcs}
use kubevoltracker.Mysql.Schema.{Pvc, Pod, PodMount, Tables}
use kubevoltracker.Mysql.Conn.{Conn}
use kubevoltracker.Mysql.Sql.{Server, IsLiteral, is_null}
use kubevoltracker.Mysql.Util.{get_access_mode_string}
use kubevoltracker.Mysql.Rv.{set_rv}
use kubevoltracker.Mysql.Insert.{
  insert_pod, insert_pvc, new_pod, new_pvc, refresh_pvc, is_fresh_pvc, is_named, awaits_claim,
  add_pvc_pod_mount, insert_pvc_row,
}
use kubevoltracker.Mysql.Insert.Claims.{claim_inserted, insert_pvc_tables, update_where-map}
use kubevoltracker.Mysql.Insert.Pods.{mounts_of_all}
use kubevoltracker.Mysql.Insert.Pods.Effects.{inserted, insert_pod_tables}
use kubevoltracker.Mysql.Insert.Pods.Containers.{with_containers}
use kubevoltracker.Mysql.View.{pod_at, pvc_at, version_at}
use kubevoltracker.Mysql.View.Laws.{upsert_new, set_rv-Recorded}
use kubevoltracker.Mysql.Orders.{Ready, SameView, swapped}
use kubevoltracker.Mysql.Orders.Pods.Mounts.{attach, is_live, AllLiteral, all_attached}

-- A connection that sees these tables, of a server that fails no call.
abbrev pub Calm : Tables → Conn → Type 0
Calm t c = (c.tables ≡ t) × (c.faults ≡ [])

-- a pod that is added is live for its own mounts, and changes nothing for those of others
live_with :
    (row : Pod) (pods : List Pod)
    → row.delete_time ≡ none
    → any (λ (p : Pod). row.uid == p.uid && is_null p.delete_time) (pods ++ row ∷ []) ≡ true
live_with row [] e = rw (e, eq_refl row.uid) refl
live_with row (p ∷ pods) e = rw (live_with row pods e) (ground arith)

live_without :
    (row : Pod) (pods : List Pod) (m : PodMount)
    → (m.pod_uid == row.uid) ≡ false
    → is_live (pods ++ row ∷ []) m ≡ is_live pods m
live_without row [] m e = rw e refl
live_without row (p ∷ pods) m e = rw (live_without row pods m e) refl

attach_others :
    (server : Server) (uid name : String) (row : Pod) (pods : List Pod) (mounts : List PodMount)
    → any (λ (m : PodMount). m.pod_uid == row.uid) mounts ≡ false
    → map (attach server uid name (pods ++ row ∷ [])) mounts
      ≡ map (attach server uid name pods) mounts
attach_others server uid name row pods [] e = refl
attach_others server uid name row pods (m ∷ mounts) e =
    rw
      (
        live_without row pods m (ground arith),
        attach_others server uid name row pods mounts (ground arith),
      )
      refl

module _ (server : Server) (fuel : ℕ) (pod_uid pod_name : String) (pod_time : ℕ)
    (pod_namespace : String) (containers : List ContainerDesc) (pod_json pod_rv uid name : String)
    (time : ℕ) (namespace : String) (storage : ℕ) (modes : List String)
    (json rv watcher_ns : String) where
  abbrev pod_in : Tables → Tables
  pod_in =
      inserted server fuel pod_uid pod_name pod_time pod_namespace containers pod_json watcher_ns
        pod_rv

  abbrev claim_in : Tables → Tables
  claim_in =
      claim_inserted server (suc fuel) uid name time namespace storage modes json watcher_ns rv

  abbrev row : Pod
  row = new_pod pod_uid pod_name pod_time pod_namespace pod_json

  abbrev fresh : Pvc
  fresh = new_pvc uid name time namespace storage (get_access_mode_string modes) json

  module _ (t : Tables) (literal : IsLiteral server name) (literals : AllLiteral server containers)
      (new_claim : pvc_at t uid ≡ none) (unseen : any (is_named server name) t.pvc ≡ false)
      (unmounted : any (λ (m : PodMount). m.pod_uid == pod_uid) t.pod_mount ≡ false) where
    abbrev own : List Pvc → List PodMount
    own = mounts_of_all server pod_uid containers pod_time

    same_mounts : (claim_in (pod_in t)).pod_mount ≡ (pod_in (claim_in t)).pod_mount
    same_mounts =
        update_where-map (awaits_claim server name (pod_in t))
          (λ m. record m { pvc_uid = some uid }) (t.pod_mount ++ own t.pvc)
        ∙ map-append (attach server uid name (t.pod ++ row ∷ [])) t.pod_mount (own t.pvc)
        ∙ rw
            (
              attach_others server uid name row t.pod t.pod_mount unmounted,
              all_attached server name fresh time (t.pod ++ row ∷ []) t.pvc pod_uid pod_time literal
                  refl refl refl unseen (live_with row t.pod refl) containers literals,
              update_where-map (awaits_claim server name t) (λ m. record m { pvc_uid = some uid })
                  t.pod_mount,
              upsert_new (λ (r : Pvc). r.uid) uid fresh
                  (refresh_pvc name time namespace storage (get_access_mode_string modes) json)
                  (is_fresh_pvc name time namespace storage (get_access_mode_string modes) json)
                  t.pvc new_claim,
            )
            refl

    same_versions :
        (r n : String) → version_at (claim_in (pod_in t)) r n ≡ version_at (pod_in (claim_in t)) r n
    same_versions r n =
        swapped (pvcs == r && watcher_ns == n) (pods == r && watcher_ns == n) (version_at t r n)
          (version_at (pod_in t) r n) (version_at (claim_in (pod_in t)) r n)
          (version_at (claim_in t) r n) (version_at (pod_in (claim_in t)) r n) (some rv)
          (some pod_rv) (ground (arith, eq_iff pods r, eq_iff pvcs r, eq_iff pods pvcs))
          (set_rv-Recorded pods watcher_ns pod_rv t r n)
          (set_rv-Recorded pvcs watcher_ns rv (pod_in t) r n)
          (set_rv-Recorded pvcs watcher_ns rv t r n)
          (set_rv-Recorded pods watcher_ns pod_rv (claim_in t) r n)

    same_view : SameView (claim_in (pod_in t)) (pod_in (claim_in t))
    same_view = record {
      claims = λ u. refl;
      versions = same_versions;
      mounts = same_mounts;
      pods = refl;
      containers = refl;
      volumes = refl;
      nfs_sources = refl;
      iscsi_sources = refl;
    }

    seen_as : (x y : Tables) → x ≡ claim_in (pod_in t) → y ≡ pod_in (claim_in t) → SameView x y
    seen_as x y e f = rw (e, f) same_view

  -- A pod that is not known, and of which no mount is recorded; a claim that is not known, and no
  -- claim of its name is. The names of the claim and of the pod's mounts have no wildcard. Their
  -- events are recorded by transactions that each see what the one before it has left: the server
  -- fails no call for the pod, and for the claim any calls, fewer than the fuel, none of them with a
  -- pretended duplicate key. Then either order leaves the same: claims and versions that agree for
  -- every key, and otherwise the same rows, those of mounts included.
  pub insert_pod-insert_pvc :
      (t : Tables) (a b c d : Conn)
      → IsLiteral server name
      → AllLiteral server containers
      → pod_at t pod_uid ≡ none
      → any (λ (m : PodMount). m.pod_uid == pod_uid) t.pod_mount ≡ false
      → pvc_at t uid ≡ none
      → any (is_named server name) t.pvc ≡ false
      → Calm t a
      → Ready
          (suc fuel)
          (insert_pod server
            (suc fuel)
            pod_uid
            pod_name
            pod_time
            pod_namespace
            containers
            pod_json
            watcher_ns
            pod_rv
            a).1.tables
          b
      → Ready (suc fuel) t c
      → Calm
          (insert_pvc server
            (suc fuel)
            uid
            name
            time
            namespace
            storage
            modes
            json
            watcher_ns
            rv
            c).1.tables
          d
      → SameView
          (insert_pvc server
            (suc fuel)
            uid
            name
            time
            namespace
            storage
            modes
            json
            watcher_ns
            rv
            b).1.tables
          (insert_pod server
            (suc fuel)
            pod_uid
            pod_name
            pod_time
            pod_namespace
            containers
            pod_json
            watcher_ns
            pod_rv
            d).1.tables
  insert_pod-insert_pvc t a b c d literal literals new_pod_so unmounted new_claim unseen (ea, fa)
        (eb, ib, hb, lb) (ec, ic, hc, lc) (ed, fd) =
      let first : b.tables ≡ pod_in t =
        eb
        ∙ insert_pod_tables server fuel pod_uid pod_name pod_time pod_namespace containers pod_json
            watcher_ns pod_rv a fa (ap (λ (x : Tables). pod_at x pod_uid) ea ∙ new_pod_so)
        ∙ ap pod_in ea in
      let other : d.tables ≡ claim_in t =
        ed
        ∙ insert_pvc_tables server (suc fuel) uid name time namespace storage modes json watcher_ns
            rv c ic hc lc
        ∙ ap claim_in ec in
      seen_as t literal literals new_claim unseen unmounted _ _
        (insert_pvc_tables server (suc fuel) uid name time namespace storage modes json watcher_ns
            rv b ib hb lb
          ∙ ap claim_in first)
        (insert_pod_tables server fuel pod_uid pod_name pod_time pod_namespace containers pod_json
            watcher_ns pod_rv d fd (ap (λ (x : Tables). pod_at x pod_uid) other ∙ new_pod_so)
          ∙ ap pod_in other)
