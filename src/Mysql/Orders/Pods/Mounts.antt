-- ===== src/Mysql/Orders/Pods/Mounts.antt =====
-- The mounts of a pod, with a claim that is recorded before or after it.
use kubevoltracker.Base.{
  map-append, ℕ, String, ◌≡◌, refl, ap, ◌∙◌, sym, Bool, Bool-cases, true, false, ◌&&◌, List, [],
  ◌∷◌, ◌++◌, map, none, some, inl, inr, any, arith, ◌==◌, eq_iff, eq_refl, if◌then◌else◌,
}
use kubevoltracker.Resources.{VolumeMount, ContainerDesc}
use kubevoltracker.Mysql.Schema.{Pvc, Pod, PodMount}
use kubevoltracker.Mysql.Sql.{Server, is_null, IsLiteral}
use kubevoltracker.Mysql.Insert.{is_named, mount_of}
use kubevoltracker.Mysql.Insert.Pods.{claims_for, rows_for, mounts_for, mounts_of, mounts_of_all}
use kubevoltracker.Mysql.Orders.Pods.Choice.{claims_for_unnamed, claims_for_other, claims_for_only}

-- the pod of the mount is not deleted
abbrev pub is_live : List Pod → PodMount → Bool
is_live pods m = any (λ (p : Pod). m.pod_uid == p.uid && is_null p.delete_time) pods

-- what the event of a claim makes of a mount
abbrev pub attach : Server → String → String → List Pod → PodMount → PodMount
attach server uid name pods m =
    if server.like m.pvc_name name && is_live pods m then record m { pvc_uid = some uid } else m

-- Every mount of the containers has a name without wildcards.
abbrev pub AreLiteral : Server → List VolumeMount → Type 0
AreLiteral server [] = Unit
AreLiteral server (mount ∷ mounts) = IsLiteral server mount.name × AreLiteral server mounts

abbrev pub AllLiteral : Server → List ContainerDesc → Type 0
AllLiteral server [] = Unit
AllLiteral server (desc ∷ containers) =
    AreLiteral server desc.pvc_mounts × AllLiteral server containers

module _ (server : Server) (name : String) (fresh : Pvc) (created : ℕ) (pods : List Pod)
    (rows : List Pvc) (uid : String) (time : ℕ) (literal : IsLiteral server name)
    (named : fresh.name ≡ some name) (created_so : fresh.create_time ≡ some created)
    (not_deleted : fresh.delete_time ≡ none) (unseen : any (is_named server name) rows ≡ false)
    (live : any (λ (p : Pod). uid == p.uid && is_null p.delete_time) pods ≡ true) where
  abbrev attaches : PodMount → PodMount
  attaches = attach server fresh.uid name pods

  -- a mount of another name
  kept :
      (container_name : String) (mount : VolumeMount) (claims : List Pvc)
      → (mount.name == name) ≡ false
      → map attaches (map (λ (r : Pvc). mount_of uid container_name mount (some r.uid)) claims)
        ≡ map (λ (r : Pvc). mount_of uid container_name mount (some r.uid)) claims
  kept container_name mount [] h = refl
  kept container_name mount (r ∷ claims) h =
      rw (kept container_name mount claims h, literal mount.name, h) refl

  kept_rows :
      (container_name : String) (mount : VolumeMount) (claims : List Pvc)
      → (mount.name == name) ≡ false
      → map attaches (rows_for uid container_name mount claims)
        ≡ rows_for uid container_name mount claims
  kept_rows container_name mount [] h = rw (literal mount.name, h) refl
  kept_rows container_name mount (r ∷ claims) h = kept container_name mount (r ∷ claims) h

  -- a mount of the claim's name
  claimed :
      (container_name : String) (mount : VolumeMount)
      → IsLiteral server mount.name
      → (mount.name == name) ≡ true
      → mount.name ≡ name
      → map attaches (mounts_for server uid container_name mount time rows)
        ≡ mounts_for server uid container_name mount time (rows ++ fresh ∷ [])
  claimed container_name mount l h e =
      let none_so : any (is_named server mount.name) rows ≡ false =
        ap (λ n. any (is_named server n) rows) e ∙ unseen in
      let one_so : is_named server mount.name fresh ≡ true = rw (named, l name, e) (eq_refl name) in
      ap (λ claims. map attaches (rows_for uid container_name mount claims))
        (claims_for_unnamed server mount.name time rows none_so)
      ∙ rw (literal mount.name, h, live) refl
      ∙ sym (
          ap (rows_for uid container_name mount) (
            claims_for_only server mount.name fresh time created rows none_so one_so created_so
              not_deleted))

  unclaimed :
      (container_name : String) (mount : VolumeMount)
      → IsLiteral server mount.name
      → (mount.name == name) ≡ false
      → map attaches (mounts_for server uid container_name mount time rows)
        ≡ mounts_for server uid container_name mount time (rows ++ fresh ∷ [])
  unclaimed container_name mount l h =
      kept_rows container_name mount (claims_for server mount.name time rows) h
      ∙ sym (
          ap (rows_for uid container_name mount) (
            claims_for_other server mount.name fresh time rows (
              rw (named, l name) (ground (arith, eq_iff name mount.name, eq_iff mount.name name)))))

  mount_attached :
      (container_name : String) (mount : VolumeMount)
      → IsLiteral server mount.name
      → map attaches (mounts_for server uid container_name mount time rows)
        ≡ mounts_for server uid container_name mount time (rows ++ fresh ∷ [])
  mount_attached container_name mount l = elim (Bool-cases (mount.name == name)) [
    | inl h ↦ claimed container_name mount l h (ground (arith, eq_iff mount.name name))
    | inr h ↦ unclaimed container_name mount l h
  ]

  mounts_attached :
      (container_name : String) (mounts : List VolumeMount)
      → AreLiteral server mounts
      → map attaches (mounts_of server uid container_name mounts time rows)
        ≡ mounts_of server uid container_name mounts time (rows ++ fresh ∷ [])
  mounts_attached container_name [] l = refl
  mounts_attached container_name (mount ∷ mounts) (l, ls) =
      map-append attaches (mounts_for server uid container_name mount time rows) _
      ∙ rw (mount_attached container_name mount l, mounts_attached container_name mounts ls) refl

  -- The mounts that a pod brings before the claim has been seen, with the claim attached to them, are
  -- those that it brings after.
  pub all_attached :
      (containers : List ContainerDesc)
      → AllLiteral server containers
      → map attaches (mounts_of_all server uid containers time rows)
        ≡ mounts_of_all server uid containers time (rows ++ fresh ∷ [])
  all_attached [] l = refl
  all_attached (desc ∷ containers) (l, ls) =
      map-append attaches (mounts_of server uid desc.name desc.pvc_mounts time rows) _
      ∙ rw (mounts_attached desc.name desc.pvc_mounts l, all_attached containers ls) refl
