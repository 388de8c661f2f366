-- ===== src/Kubectl/Reading.antt =====
-- What the watcher reads in a pod that the package kubectl has written.
use kubevoltracker.Base.{
  ℕ, suc, String, ◌≡◌, refl, sym, ap, ◌∙◌, inl, inr, List, [], ◌∷◌, map, Option, some, Among,
}
use kubevoltracker.Resources.{VolumeMount, ContainerDesc}
use kubevoltracker.Resources.Objects.{Volume}
use kubevoltracker.Watcher.Handlers.{pvc_name, add_mount, pvc_mounts, describe}
use kubevoltracker.Watcher.Mounts.{pvc_name-IsOf, pvc_name_known}
use kubevoltracker.Strings.Laws.{get_command_string-split}
use kubevoltracker.Kubectl.Volumes.{SelfNamed, Known, AllKnown, Known-later, fill_pod-AllNoted}
use kubevoltracker.Kubectl.Write.{
  Manifest, pod_manifest, claim_manifest, volume_manifest, note_volumes, mounts_from, container_of,
  fill_pod, pod_of,
}

pvc_name_self :
    (volumes : List Volume) (name : String)
    → SelfNamed volumes
    → Known volumes name
    → pvc_name volumes name ≡ some name
pvc_name_self volumes name s (v, n, e) =
    let (claim, found) = pvc_name_known volumes v name name n (e, s v n ∙ ap some e) in
    let (u, m, (same, of)) = pvc_name-IsOf volumes name claim found in
    found ∙ sym of ∙ s u m ∙ ap some same

pvc_mounts-mounts_from :
    (volumes : List Volume) (j : ℕ) (mounts : List VolumeMount)
    → SelfNamed volumes
    → AllKnown volumes mounts
    → pvc_mounts volumes (mounts_from j mounts) ≡ mounts
unfolding mounts_from
pvc_mounts-mounts_from volumes j [] s k = refl
pvc_mounts-mounts_from volumes j (m ∷ mounts) s k =
    ap
      (λ (o : Option String).
        add_mount o m.read_only (pvc_mounts volumes (mounts_from (suc j) mounts)))
      (pvc_name_self volumes m.name s (k m (inl refl)))
    ∙ ap (λ (rest : List VolumeMount). m ∷ rest)
        (pvc_mounts-mounts_from volumes (suc j) mounts s (λ x n. k x (inr n)))

describe-container_of :
    (volumes : List Volume) (desc : ContainerDesc)
    → SelfNamed volumes
    → AllKnown volumes desc.pvc_mounts
    → describe volumes (container_of desc) ≡ desc
unfolding container_of
describe-container_of volumes desc s k = λ i. record {
  name = desc.name;
  image = desc.image;
  command = get_command_string-split desc.command i;
  pvc_mounts = pvc_mounts-mounts_from volumes 0 desc.pvc_mounts s k i;
}

describe-fill_pod :
    (descs : List ContainerDesc) (start volumes : List Volume)
    → SelfNamed volumes
    → ((desc : ContainerDesc) → Among desc descs → AllKnown volumes desc.pvc_mounts)
    → map (describe volumes) (fill_pod descs start).0 ≡ descs
unfolding fill_pod
describe-fill_pod [] start volumes s k = refl
describe-fill_pod (desc ∷ descs) start volumes s k = λ i.
    describe-container_of volumes desc s (k desc (inl refl)) i
    ∷ describe-fill_pod descs (note_volumes desc.pvc_mounts start) volumes s (λ d n. k d (inr n)) i

-- The order of an iteration: the same volumes.
abbrev pub IsOrder : (List Volume → List Volume) → Type 0
IsOrder order =
    (volumes : List Volume) (v : Volume)
    → (Among v (order volumes) → Among v volumes) × (Among v volumes → Among v (order volumes))

-- what the handler of pods hands to the data store for the pod that is in the file
abbrev pub read_pod : Manifest → List ContainerDesc
read_pod (pod_manifest meta p) = map (describe p.volumes) p.containers
read_pod (claim_manifest meta p) = []
read_pod (volume_manifest meta p) = []

-- Whatever order the iteration over the volumes takes, the watcher's handler reads, from a pod with the
-- containers and volumes that writePod writes, exactly the descriptions that writePod was given: the
-- names, the images, the commands and the mounts in their order.
pub read_pod-pod_of :
    (order : List Volume → List Volume) (name namespace : String) (descs : List ContainerDesc)
    → IsOrder order
    → read_pod (pod_of order name namespace descs) ≡ descs
unfolding pod_of
read_pod-pod_of order name namespace descs keeps =
    let all = (fill_pod descs []).1 in
    let (s, g, k) = fill_pod-AllNoted descs [] in
    describe-fill_pod descs [] (order all) (λ v n. s (λ u a. absurd a) v ((keeps all v).0 n))
      (λ d n m a. Known-later all (order all) m.name (λ v. (keeps all v).1) (k d n m a))
