-- ===== src/Kubectl/Deploy/Calls.antt =====
-- Every function of creator.go and updater.go deploys its object.
use kubevoltracker.Base.{String, ◌≡◌, Bool, true, false, Option, some}
use kubevoltracker.Go.{Outcome, exited, Go}
use kubevoltracker.Kubectl.Host.{directory, node_at, Failure, Host, Kubectl}
use kubevoltracker.Kubectl.Config.{Config}
use kubevoltracker.Kubectl.Utils.{KubeAction, kubectl_args}
use kubevoltracker.Kubectl.Write.{Manifest, Marshal}
use kubevoltracker.Kubectl.Deploy.{Deployed}

module _ {C : Type 0} where
  -- What a function for an export does: it ends the process, or the directory is there at the end and the
  -- object has been deployed.
  abbrev pub WithDirectory :
      Bool
      → String
      → (Host C → Outcome (String × Option Failure) × Host C → Type 0)
      → Host C
      → Outcome (String × Option Failure) × Host C
      → Type 0
  WithDirectory true dir Deploys old (r, new) =
      (node_at new.nodes dir ≡ some directory) × Deploys old (r, new)
  WithDirectory false dir Deploys old (r, new) = (r ≡ exited) × (new.cluster ≡ old.cluster)

-- json.Marshal turns every object into the text that `text` gives.
abbrev pub Marshals : Marshal → (Manifest → String) → Type 0
Marshals marshal text = (m : Manifest) → marshal m ≡ some (text m)

module _ {C : Type 0} (kubectl : Kubectl C) (text : Manifest → String) where
  -- deployed as `filename` by the action, with or without the validation of the client
  abbrev pub DeployedAs :
      KubeAction
      → Bool
      → String
      → Manifest
      → Host C
      → Outcome (String × Option Failure) × Host C
      → Type 0
  DeployedAs action validate path m =
      Deployed kubectl (kubectl_args action path validate) path (text m)
