-- ===== src/Kubectl/Config.antt =====
-- resource_writer.go: the variables that the environment gives, their getters, and `init`, which
-- makes the directory of the test resources.
use Prim.Native.String.{◌++◌}
use kubevoltracker.Base.{String, Bool, ◌||◌, List, [], ◌∷◌, Option, none, some, ◌==◌, if◌then◌else◌}
use kubevoltracker.Go.{Go, ◌>>=◌, ◌>>◌, done, exit}
use kubevoltracker.Strings.{join_path}
use kubevoltracker.Kubectl.Host.{
  directory, file, Failure, not_exist, refused, exit_status, Host, Stat, found, stat_error, stat,
  mkdir,
}

-- the values of the environment's variables
pub record Config : Type 0 where
  pub filer_ip : String
  pub export_root : String
  pub local_root : String
  pub target_portal : String
  pub iqn : String

unfoldable pub config : (String → String) → Config
config getenv = record {
  filer_ip = getenv "FILER_IP";
  export_root = getenv "EXPORT_ROOT";
  local_root = getenv "LOCAL_EXPORT_ROOT";
  target_portal = getenv "TARGET_PORTAL";
  iqn = getenv "IQN";
}

unfoldable pub base_dir : String
unfolding join_path
base_dir = join_path ("." ∷ "test-resources" ∷ [])

abbrev pub iscsi_fs_type : String
iscsi_fs_type = "ext4"

abbrev pub iscsi_access_modes : List String
iscsi_access_modes = "ReadWriteOnce" ∷ []

unfoldable pub get_export_path : Config → String → String
unfolding join_path
get_export_path c subdir = join_path (c.export_root ∷ subdir ∷ [])

unfoldable pub get_local_path : Config → String → String
unfolding join_path
get_local_path c subdir = join_path (c.local_root ∷ subdir ∷ [])

-- `getFilename`
unfoldable pub get_filename : String → String → String
unfolding join_path base_dir
get_filename name resource_type =
    join_path (base_dir ∷ (name ++ ("-" ++ (resource_type ++ ".json"))) ∷ [])

-- A variable is missing.
abbrev pub is_incomplete : Config → Bool
is_incomplete c =
    c.filer_ip == ""
    || c.export_root == ""
    || c.local_root == ""
    || c.target_portal == ""
    || c.iqn == ""

module _ {C : Type 0} where
  -- a failed call of `os.Mkdir` ends the process
  abbrev pub exit_if : Option Failure → Go (Host C) (Unit {0})
  exit_if none = done
  exit_if (some e) = exit

  -- A directory that must be there: it is made if nothing is; all else ends the process.
  abbrev pub need_directory : String → Stat → Go (Host C) (Unit {0})
  need_directory path (stat_error not_exist) = mkdir path >>= exit_if
  need_directory path (stat_error refused) = exit
  need_directory path (stat_error exit_status) = exit
  need_directory path (found (file text)) = exit
  need_directory path (found directory) = done

  -- the checks behind the setup of the directory
  abbrev pub check_config : Config → Go (Host C) (Unit {0})
  check_config c = if is_incomplete c then exit else done

  unfoldable pub init : Config → Go (Host C) (Unit {0})
  unfolding base_dir
  init c = stat base_dir >>= λ st. need_directory base_dir st >> check_config c
