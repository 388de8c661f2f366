-- ===== src/Kubectl/Create.antt =====
-- creator.go: new resources.
use kubevoltracker.Base.{ℤ, String, Bool, true, false, List, Option, none, some}
use kubevoltracker.Go.{Go, ◌>>=◌, ◌>>◌, give}
use kubevoltracker.Resources.{ContainerDesc}
use kubevoltracker.Resources.Objects.{Volume, NfsSource, IscsiSource}
use kubevoltracker.Kubectl.Host.{Failure, Host, Kubectl}
use kubevoltracker.Kubectl.Config.{Config, iscsi_fs_type, iscsi_access_modes, get_export_path}
use kubevoltracker.Kubectl.Utils.{KubeAction, create, wrap, make_export_directory, run_kubectl}
use kubevoltracker.Kubectl.Write.{Marshal, write_pod, write_pvc, write_pv}

unfoldable pub nfs_source : Config → String → NfsSource
unfolding get_export_path
nfs_source c export = record { server = c.filer_ip; path = get_export_path c export }

-- the LUN becomes an `int32`
unfoldable pub iscsi_source : Config → ℤ → IscsiSource
unfolding wrap
iscsi_source c lun = record {
  target_portal = c.target_portal;
  iqn = c.iqn;
  lun = wrap 32 lun;
  fs_type = iscsi_fs_type;
}

abbrev pub name_or : String → Option Failure → String × Option Failure
name_or filename none = (filename, none)
name_or filename (some e) = ("", some e)

module _ {C : Type 0} (kubectl : Kubectl C) where
  -- what every function does with the file that it has written
  abbrev pub submit :
      KubeAction → Bool → String × Option Failure → Go (Host C) (String × Option Failure)
  submit action validate (filename, some e) = give ("", some e)
  submit action validate (filename, none) =
      run_kubectl kubectl action filename validate >>= λ err. give (name_or filename err)

module _ {C : Type 0} (kubectl : Kubectl C) (marshal : Marshal) (c : Config) where
  unfoldable pub create_pod :
      (List Volume → List Volume)
      → String
      → String
      → List ContainerDesc
      → Go (Host C) (String × Option Failure)
  unfolding write_pod run_kubectl
  create_pod order name namespace descs =
      write_pod marshal order name namespace descs >>= submit kubectl create true

  unfoldable pub create_pvc :
      String → String → ℤ → List String → Go (Host C) (String × Option Failure)
  unfolding write_pvc run_kubectl
  create_pvc name namespace mb access_modes =
      write_pvc marshal name namespace mb access_modes >>= submit kubectl create true

  unfoldable pub create_pv_at_export :
      String → String → ℤ → List String → Go (Host C) (String × Option Failure)
  unfolding make_export_directory write_pv run_kubectl nfs_source
  create_pv_at_export name export mb access_modes =
      make_export_directory c export
      >> (write_pv marshal name (some (nfs_source c export)) none mb access_modes
          >>= submit kubectl create true)

  unfoldable pub create_pv : String → ℤ → List String → Go (Host C) (String × Option Failure)
  unfolding create_pv_at_export
  create_pv name mb access_modes = create_pv_at_export name "" mb access_modes

  unfoldable pub create_iscsi_pv : String → ℤ → ℤ → Go (Host C) (String × Option Failure)
  unfolding write_pv run_kubectl iscsi_source
  create_iscsi_pv name mb lun =
      write_pv marshal name none (some (iscsi_source c lun)) mb iscsi_access_modes
      >>= submit kubectl create false
