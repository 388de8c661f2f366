-- ===== src/Kubectl/Volumes/Exact.antt =====
-- Which volumes `volumeMap` has: one for each claim that a container mounts, and no other.
use mathlib.Core.Path.{subst}
use kubevoltracker.Base.{
  String, ◌≡◌, ◌≢◌, refl, sym, ap, ◌⊎◌, ◌↔◌, inl, inr, Bool, true, false, List, [], ◌∷◌, arith,
  Among, any, eq_iff,
}
use kubevoltracker.Resources.{VolumeMount, ContainerDesc}
use kubevoltracker.Resources.Objects.{Volume}
use kubevoltracker.Kubectl.Write.{is_named, note_volume, note_volumes, fill_pod}
use kubevoltracker.Kubectl.Volumes.{SelfNamed, Known, note_if, note_volume-if, fill_pod-AllNoted}

-- No two volumes have one name.
abbrev pub NamesApart : List Volume → Type 0
NamesApart [] = Unit {0}
NamesApart (v ∷ volumes) = ((u : Volume) → Among u volumes → u.name ≢ v.name) × NamesApart volumes

unnamed :
    (volumes : List Volume) (name : String) (u : Volume)
    → any (is_named name) volumes ≡ false
    → Among u volumes
    → u.name ≢ name
unnamed [] name u e n = absurd n
unnamed (v ∷ volumes) name u e (inl q) =
    subst (λ (x : Volume). x.name ≢ name) q (ground (arith, eq_iff v.name name))
unnamed (v ∷ volumes) name u e (inr n) = unnamed volumes name u (ground arith) n

note_if-NamesApart :
    (b : Bool) (name : String) (volumes : List Volume)
    → any (is_named name) volumes ≡ b
    → NamesApart volumes
    → NamesApart (note_if b name volumes)
note_if-NamesApart true name volumes e a = a
note_if-NamesApart false name volumes e a = (λ u n. unnamed volumes name u e n, a)

note_volumes-NamesApart :
    (mounts : List VolumeMount) (volumes : List Volume)
    → NamesApart volumes
    → NamesApart (note_volumes mounts volumes)
note_volumes-NamesApart [] volumes a = a
note_volumes-NamesApart (m ∷ mounts) volumes a =
    note_volumes-NamesApart mounts (note_volume m.name volumes) (
      rw (note_volume-if m.name volumes)
        (note_if-NamesApart (any (is_named m.name) volumes) m.name volumes refl a))

fill_pod-NamesApart :
    (descs : List ContainerDesc) (volumes : List Volume)
    → NamesApart volumes
    → NamesApart (fill_pod descs volumes).1
unfolding fill_pod
fill_pod-NamesApart [] volumes a = a
fill_pod-NamesApart (desc ∷ descs) volumes a =
    fill_pod-NamesApart descs (note_volumes desc.pvc_mounts volumes)
      (note_volumes-NamesApart desc.pvc_mounts volumes a)

-- A container mounts the claim.
abbrev pub IsMounted : List ContainerDesc → String → Type 0
IsMounted descs name =
    (desc : ContainerDesc) × Among desc descs
    × ((m : VolumeMount) × Among m desc.pvc_mounts × (m.name ≡ name))

note_if-used :
    (b : Bool) (name : String) (volumes : List Volume) (v : Volume)
    → Among v (note_if b name volumes)
    → (v.name ≡ name) ⊎ Among v volumes
note_if-used true name volumes v n = inr n
note_if-used false name volumes v (inl q) = inl (ap (λ (x : Volume). x.name) (sym q))
note_if-used false name volumes v (inr n) = inr n

note_volumes-used :
    (mounts : List VolumeMount) (volumes : List Volume) (v : Volume)
    → Among v (note_volumes mounts volumes)
    → ((m : VolumeMount) × Among m mounts × (m.name ≡ v.name)) ⊎ Among v volumes
note_volumes-used [] volumes v n = inr n
note_volumes-used (m ∷ mounts) volumes v n =
    elim (note_volumes-used mounts (note_volume m.name volumes) v n) [
      | inl (x, a, e) ↦ inl (x, inr a, e)
      | inr a ↦
          elim (note_if-used (any (is_named m.name) volumes) m.name volumes v
            (subst (Among v) (note_volume-if m.name volumes) a)) [
              | inl e ↦ inl (m, inl refl, sym e)
              | inr k ↦ inr k
            ]
    ]

fill_pod-used :
    (descs : List ContainerDesc) (volumes : List Volume) (v : Volume)
    → Among v (fill_pod descs volumes).1
    → IsMounted descs v.name ⊎ Among v volumes
unfolding fill_pod
fill_pod-used [] volumes v n = inr n
fill_pod-used (desc ∷ descs) volumes v n =
    elim (fill_pod-used descs (note_volumes desc.pvc_mounts volumes) v n) [
      | inl (d, a, m) ↦ inl (d, inr a, m)
      | inr a ↦ elim (note_volumes-used desc.pvc_mounts volumes v a) [
        | inl m ↦ inl (desc, inl refl, m)
        | inr k ↦ inr k
      ]
    ]

-- The volumes that writePod makes for some containers have different names, each is of the claim that has
-- its name, and the names are exactly those of the claims that a container mounts.
pub fill_pod-Known :
    (descs : List ContainerDesc)
    → let volumes = (fill_pod descs []).1 in
      NamesApart volumes
      × SelfNamed volumes
      × ((name : String) → Known volumes name ↔ IsMounted descs name)
fill_pod-Known descs =
    let (s, g, k) = fill_pod-AllNoted descs [] in
    (
      fill_pod-NamesApart descs [] tt,
      s (λ u a. absurd a),
      λ name. (
        λ (v, n, e). elim (fill_pod-used descs [] v n) [
          | inl u ↦ subst (IsMounted descs) e u
          | inr a ↦ absurd a
        ],
        λ (d, n, (m, a, e)). subst (Known (fill_pod descs []).1) e (k d n m a),
      ),
    )
