-- ===== src/Kubectl/Tests.antt =====
-- The theorems about the package kubectl, on a machine with some files.
use kubevoltracker.Base.{pos, String, ◌≡◌, ◌↔◌, refl, true, false, List, [], ◌∷◌, map}
use kubevoltracker.Go.{returned, exited}
use kubevoltracker.Resources.{VolumeMount, ContainerDesc}
use kubevoltracker.Strings.{join_path}
use kubevoltracker.Kubectl.Host.{
  directory, file, works, stops, Host, Kubectl, names_in, node_at, fate_of, rest_of,
}
use kubevoltracker.Kubectl.Config.{Config, base_dir, get_filename, get_local_path, init}
use kubevoltracker.Kubectl.Utils.{
  get_container_descs, get_storage_value, rm_export_dir, delete_test_resources,
}
use kubevoltracker.Kubectl.Write.{Manifest, pod_of, fill_pod}
use kubevoltracker.Kubectl.Deploy.Directory.{goes_on_at}
use kubevoltracker.Kubectl.Deploy.Init.{Started, init_end, init-Started}
use kubevoltracker.Kubectl.Storage.{bytes_of, get_storage_value-bytes_of}
use kubevoltracker.Kubectl.Volumes.{SelfNamed, Known}
use kubevoltracker.Kubectl.Volumes.Exact.{NamesApart, IsMounted, fill_pod-Known}
use kubevoltracker.Kubectl.Reading.{read_pod, read_pod-pod_of}

-- the cluster: the commands that have been run, the last one first
abbrev Runs : Type 0
Runs = List (List String)

-- A command that notes its arguments and ends well.
abbrev noting : Kubectl Runs
noting args files runs = (true, args ∷ runs)

abbrev text : Manifest → String
text m = "{}"

abbrev filer : Config
filer = record {
  filer_ip = "10.0.0.1";
  export_root = "/exports";
  local_root = "/mnt/exports/";
  target_portal = "10.0.0.2:3260";
  iqn = "iqn.1992-08.com.netapp";
}

-- the second call of the file system stops in the midst
abbrev machine : Host Runs
machine = record {
  nodes =
      ("test-resources", directory)
      ∷ ("test-resources/web-pod.json", file "{}")
      ∷ ("/mnt/exports/vol1", directory)
      ∷ [];
  fates = works ∷ stops "{" ∷ [];
  cluster = [];
}

abbrev mounts : List (List VolumeMount)
mounts =
    (record { name = "data"; read_only = true } ∷ record { name = "logs"; read_only = false } ∷ [])
    ∷ (record { name = "data"; read_only = false } ∷ [])
    ∷ []

get_filename_web : get_filename "web" "pod" ≡ "test-resources/web-pod.json"
unfolding get_filename
get_filename_web = refl

get_local_path_vol1 : get_local_path filer "vol1" ≡ "/mnt/exports/vol1"
unfolding get_local_path
get_local_path_vol1 = refl

get_local_path_up : get_local_path filer "../.././a//b/" ≡ "/a/b"
unfolding get_local_path
get_local_path_up = refl

names_of_descs :
    map (λ (d : ContainerDesc). d.name) (get_container_descs mounts)
    ≡ "busybox-0" ∷ "busybox-1" ∷ []
unfolding get_container_descs
names_of_descs = refl

read_pod-pod_of_example :
    read_pod (pod_of (λ volumes. volumes) "web" "default" (get_container_descs mounts))
    ≡ get_container_descs mounts
read_pod-pod_of_example =
    read_pod-pod_of (λ volumes. volumes) "web" "default" (get_container_descs mounts)
      (λ volumes v. (λ n. n, λ n. n))

fill_pod-Known_example :
    let volumes = (fill_pod (get_container_descs mounts) []).1 in
    NamesApart volumes
    × SelfNamed volumes
    × ((name : String) → Known volumes name ↔ IsMounted (get_container_descs mounts) name)
fill_pod-Known_example = fill_pod-Known (get_container_descs mounts)

-- a machine on which the directory of the export is yet to be made
abbrev bare : Host Runs
bare = record machine { nodes = ("test-resources", directory) ∷ []; fates = [] }

-- On this machine the process goes on; on the other, whose second call fails, it exits where a
-- directory would have to be made.
bare_goes_on : goes_on_at (get_local_path filer "vol1") bare ≡ true
unfolding get_local_path join_path
bare_goes_on = refl

machine_exits : goes_on_at (get_local_path filer "vol2") machine ≡ false
unfolding get_local_path join_path
machine_exits = refl

init-Started_example :
    Started filer machine (init filer machine)
    × ((init filer machine).0
        ≡ init_end filer
            (fate_of machine.fates)
            (fate_of (rest_of machine.fates))
            (node_at machine.nodes base_dir))
init-Started_example = init-Started filer machine

get_storage_value-bytes_of_example : get_storage_value (pos 100) ≡ bytes_of (pos 100)
get_storage_value-bytes_of_example = get_storage_value-bytes_of (pos 100)

-- Both ways to end are taken.
rm_export_dir_stops : (rm_export_dir filer "vol1" machine).0 ≡ exited
unfolding rm_export_dir
rm_export_dir_stops = refl

rm_export_dir_ends : (rm_export_dir filer "vol1" (record machine { fates = [] })).0 ≡ returned tt
unfolding rm_export_dir
rm_export_dir_ends = refl

delete_test_resources_runs :
    (delete_test_resources noting machine).1.cluster
    ≡ ("delete" ∷ "--grace-period=0" ∷ "-f" ∷ "test-resources/web-pod.json" ∷ []) ∷ []
unfolding delete_test_resources names_in base_dir join_path
delete_test_resources_runs = refl
