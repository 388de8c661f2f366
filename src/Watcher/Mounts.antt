-- ===== src/Watcher/Mounts.antt =====
-- Which mounts the handler of pods in watcher.go reports for a container.
use mathlib.Core.Path.{subst}
use kubevoltracker.Base.{
  String, ◌≡◌, refl, sym, ap, ◌∙◌, inl, inr, Bool, Bool-cases, List, [], ◌∷◌, Option, none, some,
  arith, Among, ◌==◌, eq_iff, eq_refl, if◌then◌else◌,
}
use kubevoltracker.Resources.{VolumeMount}
use kubevoltracker.Resources.Objects.{Volume, MountSpec}
use kubevoltracker.Watcher.Handlers.{pvc_name, add_mount, pvc_mounts}

-- The volume has the name and is of the claim.
abbrev pub IsOf : String → String → Volume → Type 0
IsOf name claim v = (v.name ≡ name) × (v.claim_name ≡ some claim)

-- what the entry for a volume is, by what the later volumes give
abbrev entry : Volume → String → Option String → Option String
entry v name (some claim) = some claim
entry v name none = if v.name == name then v.claim_name else none

entry-IsOf : (v : Volume) (name claim : String) → entry v name none ≡ some claim → IsOf name claim v
entry-IsOf v name claim e = elim (Bool-cases (v.name == name)) [
  | inl q ↦ ((eq_iff v.name name).0 q, ground arith)
  | inr q ↦ ground arith
]

found_by :
    (v : Volume) (volumes : List Volume) (name claim : String) (later : Option String)
    → ((c : String) → later ≡ some c → (u : Volume) × Among u volumes × IsOf name c u)
    → entry v name later ≡ some claim
    → (u : Volume) × Among u (v ∷ volumes) × IsOf name claim u
found_by v volumes name claim (some c) h e = let (u, m, o) = h claim e in (u, inr m, o)
found_by v volumes name claim none h e = (v, inl refl, entry-IsOf v name claim e)

pub pvc_name-IsOf :
    (volumes : List Volume) (name claim : String)
    → pvc_name volumes name ≡ some claim
    → (v : Volume) × Among v volumes × IsOf name claim v
pvc_name-IsOf [] name claim e = ground arith
pvc_name-IsOf (v ∷ volumes) name claim e =
    found_by v volumes name claim (pvc_name volumes name) (λ c q. pvc_name-IsOf volumes name c q) e

-- The mount is one of the container's, and its name the claim of a volume of the pod.
abbrev pub ComesFrom : List Volume → List MountSpec → VolumeMount → Type 0
ComesFrom volumes specs m =
    (spec : MountSpec) × Among spec specs
    × (m.read_only ≡ spec.read_only)
    × ((v : Volume) × Among v volumes × IsOf spec.name m.name v)

from_head :
    (o : Option String) (volumes : List Volume) (spec : MountSpec) (specs : List MountSpec)
    (rest : List VolumeMount) (m : VolumeMount)
    → pvc_name volumes spec.name ≡ o
    → (Among m rest → ComesFrom volumes specs m)
    → Among m (add_mount o spec.read_only rest)
    → ComesFrom volumes (spec ∷ specs) m
from_head none volumes spec specs rest m e h n = let (s, a, r, v) = h n in (s, inr a, r, v)
from_head (some claim) volumes spec specs rest m e h (inr n) =
    let (s, a, r, v) = h n in (s, inr a, r, v)
from_head (some claim) volumes spec specs rest m e h (inl q) = (
  spec,
  inl refl,
  ap (λ (x : VolumeMount). x.read_only) (sym q),
  pvc_name-IsOf volumes spec.name m.name (e ∙ ap (λ (x : VolumeMount). some x.name) q),
)

-- Every mount that the handler of pods reports for a container is one of its mounts, with the same
-- access, and names the claim of a volume of the pod that has the mount's name.
pub pvc_mounts-ComesFrom :
    (volumes : List Volume) (specs : List MountSpec) (m : VolumeMount)
    → Among m (pvc_mounts volumes specs)
    → ComesFrom volumes specs m
pvc_mounts-ComesFrom volumes [] m n = absurd n
pvc_mounts-ComesFrom volumes (spec ∷ specs) m n =
    from_head (pvc_name volumes spec.name) volumes spec specs (pvc_mounts volumes specs) m refl
      (λ k. pvc_mounts-ComesFrom volumes specs m k) n

entry_known :
    (v : Volume) (name claim : String) (later : Option String)
    → IsOf name claim v
    → (c : String) × (entry v name later ≡ some c)
entry_known v name claim (some c) o = (c, refl)
entry_known v name claim none o = (claim, rw (o.0, eq_refl name) o.1)

entry_later :
    (v : Volume) (name c : String) (later : Option String)
    → later ≡ some c
    → entry v name later ≡ some c
entry_later v name c (some d) e = e
entry_later v name c none e = ground arith

pub pvc_name_known :
    (volumes : List Volume) (v : Volume) (name claim : String)
    → Among v volumes
    → IsOf name claim v
    → (c : String) × (pvc_name volumes name ≡ some c)
pvc_name_known [] v name claim n o = absurd n
pvc_name_known (u ∷ volumes) v name claim (inl q) o =
    entry_known u name claim (pvc_name volumes name) (subst (IsOf name claim) (sym q) o)
pvc_name_known (u ∷ volumes) v name claim (inr n) o =
    let (c, e) = pvc_name_known volumes v name claim n o in
    (c, entry_later u name c (pvc_name volumes name) e)

-- A mount with that access is among those reported.
abbrev pub IsReported : MountSpec → List VolumeMount → Type 0
IsReported spec mounts = (m : VolumeMount) × Among m mounts × (m.read_only ≡ spec.read_only)

add_kept :
    (o : Option String) (read_only : Bool) (spec : MountSpec) (rest : List VolumeMount)
    → IsReported spec rest
    → IsReported spec (add_mount o read_only rest)
add_kept none read_only spec rest k = k
add_kept (some c) read_only spec rest (m, n, r) = (m, inr n, r)

add_known :
    (o : Option String) (c : String) (spec : MountSpec) (rest : List VolumeMount)
    → o ≡ some c
    → IsReported spec (add_mount o spec.read_only rest)
add_known none c spec rest e = ground arith
add_known (some d) c spec rest e = (record { name = d; read_only = spec.read_only }, inl refl, refl)

-- Every mount of a container whose name is that of a volume with a claim is reported, with its access.
pub pvc_mounts-IsReported :
    (volumes : List Volume) (specs : List MountSpec) (spec : MountSpec) (v : Volume)
    (claim : String)
    → Among spec specs
    → Among v volumes
    → IsOf spec.name claim v
    → IsReported spec (pvc_mounts volumes specs)
pvc_mounts-IsReported volumes [] spec v claim n k o = absurd n
pvc_mounts-IsReported volumes (s ∷ specs) spec v claim (inl q) k o =
    let (c, e) = pvc_name_known volumes v spec.name claim k o in
    subst
      (λ (x : MountSpec).
        IsReported spec
          (add_mount (pvc_name volumes x.name) x.read_only (pvc_mounts volumes specs)))
      (sym q) (add_known (pvc_name volumes spec.name) c spec (pvc_mounts volumes specs) e)
pvc_mounts-IsReported volumes (s ∷ specs) spec v claim (inr n) k o =
    add_kept (pvc_name volumes s.name) s.read_only spec (pvc_mounts volumes specs)
      (pvc_mounts-IsReported volumes specs spec v claim n k o)
