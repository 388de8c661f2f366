-- ===== src/Kubectl/Volumes.antt =====
-- The volumes that writePod makes: `volumeMap` has one volume for each claim that a container mounts.
pub mod Exact
use mathlib.Core.Path.{subst}
use kubevoltracker.Base.{
  ℕ, suc, String, ◌≡◌, ◌≢◌, refl, sym, ap, ◌∙◌, ◌⊎◌, inl, inr, Bool, true, false, Bool-cases, List,
  [], ◌∷◌, map, Option, none, some, arith, Among, any, ◌==◌, eq_iff, eq_refl,
}
use kubevoltracker.Resources.{VolumeMount, ContainerDesc}
use kubevoltracker.Resources.Objects.{Volume, MountSpec, ContainerSpec}
use kubevoltracker.Kubectl.Write.{is_named, note_volume, note_volumes, fill_pod}

-- Each volume is of the claim that has its name.
abbrev pub SelfNamed : List Volume → Type 0
SelfNamed volumes = (v : Volume) → Among v volumes → v.claim_name ≡ some v.name

-- A volume has the name.
abbrev pub Known : List Volume → String → Type 0
Known volumes name = (v : Volume) × Among v volumes × (v.name ≡ name)

-- All mounts have volumes.
abbrev pub AllKnown : List Volume → List VolumeMount → Type 0
AllKnown volumes mounts = (m : VolumeMount) → Among m mounts → Known volumes m.name

any-Known :
    (volumes : List Volume) (name : String)
    → any (is_named name) volumes ≡ true
    → Known volumes name
any-Known [] name e = absurd (ground arith)
any-Known (v ∷ volumes) name e = elim (Bool-cases (v.name == name)) [
  | inl q ↦ (v, inl refl, (eq_iff v.name name).0 q)
  | inr q ↦ let (u, n, r) = any-Known volumes name (ground arith) in (u, inr n, r)
]

-- What `volumeMap` has, it keeps.
abbrev pub Grows : List Volume → List Volume → Type 0
Grows old new = (v : Volume) → Among v old → Among v new

-- the entry for a claim, by whether there is one
abbrev pub note_if : Bool → String → List Volume → List Volume
note_if true name volumes = volumes
note_if false name volumes = record { name = name; claim_name = some name } ∷ volumes

note_if-Known :
    (b : Bool) (name : String) (volumes : List Volume)
    → any (is_named name) volumes ≡ b
    → Known (note_if b name volumes) name
note_if-Known true name volumes e = any-Known volumes name e
note_if-Known false name volumes e =
    (record { name = name; claim_name = some name }, inl refl, refl)

note_if-SelfNamed :
    (b : Bool) (name : String) (volumes : List Volume)
    → SelfNamed volumes
    → SelfNamed (note_if b name volumes)
note_if-SelfNamed true name volumes s v n = s v n
note_if-SelfNamed false name volumes s v (inl q) =
    subst (λ (x : Volume). x.claim_name ≡ some x.name) q refl
note_if-SelfNamed false name volumes s v (inr n) = s v n

note_if-Grows :
    (b : Bool) (name : String) (volumes : List Volume) → Grows volumes (note_if b name volumes)
note_if-Grows true name volumes v n = n
note_if-Grows false name volumes v n = inr n

pub note_volume-if :
    (name : String) (volumes : List Volume)
    → note_volume name volumes ≡ note_if (any (is_named name) volumes) name volumes
note_volume-if name volumes = elim (Bool-cases (any (is_named name) volumes)) [
  | inl e ↦ rw e
  | inr e ↦ rw e
]

-- The entries for some mounts: all are of their claims, none is lost, and each mount has one.
abbrev IsNoted : List VolumeMount → List Volume → List Volume → Type 0
IsNoted mounts old new = (SelfNamed old → SelfNamed new) × Grows old new × AllKnown new mounts

pub Known-later :
    (old new : List Volume) (name : String) → Grows old new → Known old name → Known new name
Known-later old new name g (v, n, e) = (v, g v n, e)

named_later :
    (b : Bool) (m x : VolumeMount) (volumes : List Volume)
    → any (is_named m.name) volumes ≡ b
    → Among x (m ∷ [])
    → Known (note_if b m.name volumes) x.name
named_later b m x volumes e (inl q) =
    subst (λ (y : VolumeMount). Known (note_if b m.name volumes) y.name) q
      (note_if-Known b m.name volumes e)
named_later b m x volumes e (inr n) = absurd n

note_volume-IsNoted :
    (m : VolumeMount) (volumes : List Volume)
    → IsNoted (m ∷ []) volumes (note_volume m.name volumes)
note_volume-IsNoted m volumes =
    let b : Bool = any (is_named m.name) volumes in
    rw (note_volume-if m.name volumes) (
      note_if-SelfNamed b m.name volumes,
      note_if-Grows b m.name volumes,
      λ x n. named_later b m x volumes refl n,
    )

IsNoted-cons :
    (m : VolumeMount) (mounts : List VolumeMount) (old mid new : List Volume)
    → IsNoted (m ∷ []) old mid
    → IsNoted mounts mid new
    → IsNoted (m ∷ mounts) old new
IsNoted-cons m mounts old mid new (s, g, k) (s', g', k') = (
  λ o. s' (s o),
  λ v n. g' v (g v n),
  λ x n. elim n [ inl q ↦ Known-later mid new x.name g' (k x (inl q)) | inr r ↦ k' x r ],
)

note_volumes-IsNoted :
    (mounts : List VolumeMount) (volumes : List Volume)
    → IsNoted mounts volumes (note_volumes mounts volumes)
note_volumes-IsNoted [] volumes = (λ s. s, λ v n. n, λ x n. absurd n)
note_volumes-IsNoted (m ∷ mounts) volumes =
    IsNoted-cons m mounts volumes (note_volume m.name volumes)
      (note_volumes mounts (note_volume m.name volumes)) (note_volume-IsNoted m volumes)
      (note_volumes-IsNoted mounts (note_volume m.name volumes))

-- what the loop over the containers makes of `volumeMap`
abbrev pub AllNoted : List ContainerDesc → List Volume → List Volume → Type 0
AllNoted descs old new =
    (SelfNamed old → SelfNamed new)
    × Grows old new
    × ((desc : ContainerDesc) → Among desc descs → AllKnown new desc.pvc_mounts)

AllNoted-cons :
    (desc : ContainerDesc) (descs : List ContainerDesc) (old mid new : List Volume)
    → IsNoted desc.pvc_mounts old mid
    → AllNoted descs mid new
    → AllNoted (desc ∷ descs) old new
AllNoted-cons desc descs old mid new (s, g, k) (s', g', k') = (
  λ o. s' (s o),
  λ v n. g' v (g v n),
  λ d n. elim n [
    | inl q ↦
        subst (λ (x : ContainerDesc). AllKnown new x.pvc_mounts) q
          (λ x a. Known-later mid new x.name g' (k x a))
    | inr r ↦ k' d r
  ],
)

pub fill_pod-AllNoted :
    (descs : List ContainerDesc) (volumes : List Volume)
    → AllNoted descs volumes (fill_pod descs volumes).1
unfolding fill_pod
fill_pod-AllNoted [] volumes = (λ s. s, λ v n. n, λ d n. absurd n)
fill_pod-AllNoted (desc ∷ descs) volumes =
    let mid = note_volumes desc.pvc_mounts volumes in
    AllNoted-cons desc descs volumes mid (fill_pod descs mid).1
      (note_volumes-IsNoted desc.pvc_mounts volumes) (fill_pod-AllNoted descs mid)
