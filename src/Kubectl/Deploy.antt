-- ===== src/Kubectl/Deploy.antt =====
-- What a caller of creator.go and updater.go can rely on: the file stands before the command runs, and
-- a name comes back exactly if both ended well.
pub mod Directory
pub mod Init
pub mod Calls
use kubevoltracker.Base.{
  ℤ, String, ◌≡◌, ◌≢◌, ◌∙◌, ne_false, refl, sym, ap, ◌⊎◌, inl, inr, Bool, true, false, List, [],
  ◌∷◌, Option, none, some, arith, ◌==◌, eq_refl,
}
use kubevoltracker.Go.{Outcome, returned, exited, Go, ◌>>=◌, give}
use kubevoltracker.Resources.{ContainerDesc}
use kubevoltracker.Resources.Objects.{Volume, NfsSource, IscsiSource}
use kubevoltracker.Kubectl.Host.{
  Node, directory, file, Fate, works, fails, stops, Failure, refused, exit_status, Host, Kubectl,
  node_at, fate_of, spend, write_by, write_file, put_node, ran,
}
use kubevoltracker.Kubectl.Host.Laws.{put_node_elsewhere}
use kubevoltracker.Kubectl.Utils.{KubeAction, kubectl_args, run_kubectl}
use kubevoltracker.Kubectl.Write.{Manifest, Marshal, write_manifest, write_text}
use kubevoltracker.Kubectl.Create.{submit, name_or}

-- A path at which no directory stands is not that of one.
apart :
    {C : Type 0} (path dir : String) (h : Host C) (there : Option Node)
    → node_at h.nodes path ≡ there
    → node_at h.nodes dir ≡ some directory
    → there ≢ some directory
    → (path == dir) ≡ false
apart path dir h there e d n = ne_false path dir (λ q. n (sym e ∙ ap (node_at h.nodes) q ∙ d))

module _ {C : Type 0} (kubectl : Kubectl C) where
  -- The text stands in the file, and the command ran on the files as they are now, once, and so ended.
  abbrev pub RanOn : List String → String → String → Host C → Bool → Host C → Type 0
  RanOn args path text old ended new =
      (node_at new.nodes path ≡ some (file text))
      × (kubectl args new.nodes old.cluster ≡ (ended, new.cluster))

  -- the three ways in which it may end
  abbrev pub Deployed :
      List String → String → String → Host C → Outcome (String × Option Failure) × Host C → Type 0
  Deployed args path text old (r, new) =
      ((r ≡ returned ("", some refused)) × (new.cluster ≡ old.cluster))
      ⊎ ((r ≡ returned ("", some exit_status)) × RanOn args path text old false new)
      ⊎ ((r ≡ returned (path, none)) × RanOn args path text old true new)

  -- what `submit` does by how the command ended
  abbrev settled : String → Host C → Bool × C → Outcome (String × Option Failure) × Host C
  settled path h (ended, cluster) =
      (returned (name_or path (ran ended)), record h { cluster = cluster })

  settled-Deployed :
      (args : List String) (path text : String) (old h : Host C) (end : Bool × C)
      → node_at h.nodes path ≡ some (file text)
      → kubectl args h.nodes old.cluster ≡ end
      → Deployed args path text old (settled path h end)
  settled-Deployed args path text old h (true, c) e q = inr (inr (refl, (e, q)))
  settled-Deployed args path text old h (false, c) e q = inr (inl (refl, (e, q)))

  submit-Deployed :
      (action : KubeAction) (validate : Bool) (path text : String) (old h : Host C)
      → node_at h.nodes path ≡ some (file text)
      → h.cluster ≡ old.cluster
      → Deployed
          (kubectl_args action path validate)
          path
          text
          old
          (submit kubectl action validate (path, none) h)
  unfolding run_kubectl
  submit-Deployed action validate path text old h e k =
      let args = kubectl_args action path validate in
      settled-Deployed args path text old h (kubectl args h.nodes h.cluster) e
        (ap (kubectl args h.nodes) (sym k))

  -- what `submit` makes of a written file
  abbrev then_submit :
      KubeAction
      → Bool
      → String
      → Outcome (Option Failure) × Host C
      → Outcome (String × Option Failure) × Host C
  then_submit action validate path out =
      (((λ (h : Host C). out) >>= λ err. give (path, err)) >>= submit kubectl action validate) out.1

  written-Deployed :
      (action : KubeAction) (validate : Bool) (path text : String) (old h : Host C) (f : Fate)
      (there : Option Node)
      → h.cluster ≡ old.cluster
      → Deployed
          (kubectl_args action path validate)
          path
          text
          old
          (then_submit action validate path (write_by f there path text h))
  written-Deployed action validate path text old h f (some directory) k = inl (refl, k)
  written-Deployed action validate path text old h works none k =
      submit-Deployed action validate path text old (put_node path (file text) h)
        (rw (eq_refl path) refl) k
  written-Deployed action validate path text old h works (some (file t)) k =
      submit-Deployed action validate path text old (put_node path (file text) h)
        (rw (eq_refl path) refl) k
  written-Deployed action validate path text old h fails none k = inl (refl, k)
  written-Deployed action validate path text old h fails (some (file t)) k = inl (refl, k)
  written-Deployed action validate path text old h (stops part) none k = inl (refl, k)
  written-Deployed action validate path text old h (stops part) (some (file t)) k = inl (refl, k)

  -- A directory stays, whatever becomes of the file.
  written_keeps :
      (action : KubeAction) (validate : Bool) (path text dir : String) (h : Host C) (f : Fate)
      (there : Option Node)
      → node_at h.nodes path ≡ there
      → node_at h.nodes dir ≡ some directory
      → node_at (then_submit action validate path (write_by f there path text h)).1.nodes dir
        ≡ some directory
  unfolding run_kubectl
  written_keeps action validate path text dir h f (some directory) e d = d
  written_keeps action validate path text dir h works none e d =
      put_node_elsewhere path dir (file text) h (apart path dir h none e d (λ n. cc)) ∙ d
  written_keeps action validate path text dir h works (some (file t)) e d =
      put_node_elsewhere path dir (file text) h (apart path dir h (some (file t)) e d (λ n. cc)) ∙ d
  written_keeps action validate path text dir h fails none e d = d
  written_keeps action validate path text dir h fails (some (file t)) e d = d
  written_keeps action validate path text dir h (stops part) none e d =
      put_node_elsewhere path dir (file part) h (apart path dir h none e d (λ n. cc)) ∙ d
  written_keeps action validate path text dir h (stops part) (some (file t)) e d =
      put_node_elsewhere path dir (file part) h (apart path dir h (some (file t)) e d (λ n. cc)) ∙ d

  module _ (marshal : Marshal) where
    -- the whole of a function: the file, then the command
    abbrev pub deploy :
        KubeAction → Bool → String → Manifest → Go (Host C) (String × Option Failure)
    deploy action validate path m = write_manifest marshal path m >>= submit kubectl action validate

    -- on files that have changed since `old`, on its cluster
    pub deploy_from :
        (action : KubeAction) (validate : Bool) (path text : String) (m : Manifest) (old h : Host C)
        → marshal m ≡ some text
        → h.cluster ≡ old.cluster
        → Deployed
            (kubectl_args action path validate)
            path
            text
            old
            (deploy action validate path m h)
    unfolding write_manifest
    deploy_from action validate path text m old h e k = rw e (
        written-Deployed action validate path text old (spend h) (fate_of h.fates)
          (node_at h.nodes path) k)

    pub deploy-Deployed :
        (action : KubeAction) (validate : Bool) (path text : String) (m : Manifest) (h : Host C)
        → marshal m ≡ some text
        → Deployed (kubectl_args action path validate) path text h (deploy action validate path m h)
    deploy-Deployed action validate path text m h e =
        deploy_from action validate path text m h h e refl

    pub deploy_keeps :
        (action : KubeAction) (validate : Bool) (path text dir : String) (m : Manifest) (h : Host C)
        → marshal m ≡ some text
        → node_at h.nodes dir ≡ some directory
        → node_at (deploy action validate path m h).1.nodes dir ≡ some directory
    unfolding write_manifest
    deploy_keeps action validate path text dir m h e d = rw e (
        written_keeps action validate path text dir (spend h) (fate_of h.fates)
          (node_at h.nodes path) refl d)
