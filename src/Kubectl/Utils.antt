-- ===== src/Kubectl/Utils.antt =====
-- utils.go of the package kubectl.
use Prim.Native.Nat.{◌%◌, ◌^◌}
use Prim.Native.String.{◌++◌}
use mathlib.Core.List.{◌++◌ as ◌+++◌}
use kubevoltracker.Base.{
  ℕ, suc, ◌+◌, ◌-◌, ◌*◌, ℤ, pos, negsuc, String, Bool, List, [], ◌∷◌, Option, none, some, ◌==◌, ltb,
  if◌then◌else◌,
}
use kubevoltracker.Go.{Go, ◌>>=◌, done, exit}
use kubevoltracker.Strings.{decimal, join_path}
use kubevoltracker.Resources.{VolumeMount, ContainerDesc}
use kubevoltracker.Kubectl.Host.{
  directory, file, Failure, not_exist, refused, exit_status, Host, Kubectl, Stat, found, stat_error,
  stat, remove_all, read_dir, run_command,
}
use kubevoltracker.Kubectl.Config.{Config, base_dir, get_local_path, need_directory, exit_if}

abbrev pub KubeAction : Type 0
KubeAction = String

abbrev pub create : KubeAction
create = "create"

abbrev pub delete : KubeAction
delete = "delete"

abbrev pub apply : KubeAction
apply = "apply"

unfoldable pub descs_from : ℕ → List (List VolumeMount) → List ContainerDesc
unfolding decimal
descs_from i [] = []
descs_from i (pvcs ∷ rest) =
    record {
      name = "busybox-" ++ decimal i;
      image = "busybox";
      command = "sleep 3600";
      pvc_mounts = pvcs;
    }
    ∷ descs_from (suc i) rest

unfoldable pub get_container_descs : List (List VolumeMount) → List ContainerDesc
unfolding descs_from
get_container_descs pvcs_for_containers = descs_from 0 pvcs_for_containers

-- an integer kept in `w` bits, as Go's signed types do
unfoldable pub wrap : ℕ → ℤ → ℤ
wrap w (pos n) = let m = n % 2 ^ w in if ltb m (2 ^ (w - 1)) then pos m else negsuc (2 ^ w - 1 - m)
wrap w (negsuc n) =
    let m = n % 2 ^ w in if ltb m (2 ^ (w - 1)) then negsuc m else pos (2 ^ w - 1 - m)

abbrev pub times : ℕ → ℤ → ℤ
times k (pos n) = pos (n * k)
times k (negsuc n) = negsuc (n * k + k - 1)

-- `GetStorageValue`: int64(size) * 1024 * 1024
unfoldable pub get_storage_value : ℤ → ℤ
unfolding wrap
get_storage_value size = wrap 64 (times 1024 (wrap 64 (times 1024 size)))

-- the arguments of the command
unfoldable pub kubectl_args : KubeAction → String → Bool → List String
kubectl_args action path validate =
    (action ∷ "-f" ∷ path ∷ [])
    +++ ((if action == delete then "--grace-period=0" ∷ [] else [])
        +++ (if validate then [] else "--validate=false" ∷ []))

module _ {C : Type 0} where
  unfoldable pub make_export_directory : Config → String → Go (Host C) (Unit {0})
  unfolding get_local_path
  make_export_directory c export =
      stat (get_local_path c export) >>= need_directory (get_local_path c export)

  unfoldable pub run_kubectl : Kubectl C → KubeAction → String → Bool → Go (Host C) (Option Failure)
  unfolding kubectl_args
  run_kubectl kubectl action path validate = run_command kubectl (kubectl_args action path validate)

  -- The errors of the command are dropped.
  abbrev pub delete_all : Kubectl C → List String → Go (Host C) (Unit {0})
  delete_all kubectl [] = done
  delete_all kubectl (name ∷ names) =
      run_command kubectl
        ("delete" ∷ "--grace-period=0" ∷ "-f" ∷ join_path (base_dir ∷ name ∷ []) ∷ [])
      >>= λ _. delete_all kubectl names

  abbrev pub delete_listed : Kubectl C → Option (List String) → Go (Host C) (Unit {0})
  delete_listed kubectl none = exit
  delete_listed kubectl (some names) = delete_all kubectl names

  unfoldable pub delete_test_resources : Kubectl C → Go (Host C) (Unit {0})
  unfolding base_dir
  delete_test_resources kubectl = read_dir base_dir >>= delete_listed kubectl

  -- what `RMExportDir` does, by what is there
  abbrev pub remove_if : String → Stat → Go (Host C) (Unit {0})
  remove_if dir (stat_error not_exist) = done
  remove_if dir (stat_error refused) = exit
  remove_if dir (stat_error exit_status) = exit
  remove_if dir (found (file text)) = exit
  remove_if dir (found directory) = remove_all dir >>= exit_if

  unfoldable pub rm_export_dir : Config → String → Go (Host C) (Unit {0})
  unfolding get_local_path
  rm_export_dir c dir = stat (get_local_path c dir) >>= remove_if (get_local_path c dir)
