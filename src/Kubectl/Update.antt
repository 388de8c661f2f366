-- ===== src/Kubectl/Update.antt =====
-- updater.go: changed resources.
use kubevoltracker.Base.{ℤ, String, true, false, List, Option, none, some}
use kubevoltracker.Go.{Go, ◌>>=◌, ◌>>◌}
use kubevoltracker.Kubectl.Host.{Failure, Host, Kubectl}
use kubevoltracker.Kubectl.Config.{Config, iscsi_access_modes}
use kubevoltracker.Kubectl.Utils.{apply, make_export_directory, run_kubectl}
use kubevoltracker.Kubectl.Write.{Marshal, write_pvc, write_pv}
use kubevoltracker.Kubectl.Create.{nfs_source, iscsi_source, submit}

module _ {C : Type 0} (kubectl : Kubectl C) (marshal : Marshal) (c : Config) where
  unfoldable pub update_pvc :
      String → String → ℤ → List String → Go (Host C) (String × Option Failure)
  unfolding write_pvc run_kubectl
  update_pvc name namespace mb access_modes =
      write_pvc marshal name namespace mb access_modes >>= submit kubectl apply true

  unfoldable pub update_pv_at_export :
      String → String → ℤ → List String → Go (Host C) (String × Option Failure)
  unfolding make_export_directory write_pv run_kubectl nfs_source
  update_pv_at_export name export mb access_modes =
      make_export_directory c export
      >> (write_pv marshal name (some (nfs_source c export)) none mb access_modes
          >>= submit kubectl apply true)

  unfoldable pub update_pv : String → ℤ → List String → Go (Host C) (String × Option Failure)
  unfolding update_pv_at_export
  update_pv name mb access_modes = update_pv_at_export name "" mb access_modes

  unfoldable pub update_iscsi_pv : String → ℤ → ℤ → Go (Host C) (String × Option Failure)
  unfolding write_pv run_kubectl iscsi_source
  update_iscsi_pv name mb lun =
      write_pv marshal name none (some (iscsi_source c lun)) mb iscsi_access_modes
      >>= submit kubectl apply false
