-- ===== src/Kubectl/Deploy/Init.antt =====
-- `init` of resource_writer.go: what holds when the process goes on.
use kubevoltracker.Base.{
  ◌≡◌, ◌≢◌, refl, ◌⊎◌, inl, inr, Bool, true, false, Option, none, some, arith, eq_iff,
  if◌then◌else◌,
}
use kubevoltracker.Go.{Outcome, returned, exited, ◌>>=◌, ◌>>◌, panicked, hung, exit, done}
use kubevoltracker.Kubectl.Host.{
  Node, directory, file, Fate, works, fails, stops, Host, node_at, fate_of, rest_of, spend, stat,
  stat_by, mkdir_by, put_node,
}
use kubevoltracker.Kubectl.Config.{
  Config, base_dir, need_directory, exit_if, init, check_config, is_incomplete,
}
use kubevoltracker.Kubectl.Deploy.Directory.{HasDirectory, ExitsOr, needed-ExitsOr}

-- The variables are all set.
abbrev pub IsComplete : Config → Type 0
IsComplete c =
    (c.filer_ip ≢ "")
    × (c.export_root ≢ "")
    × (c.local_root ≢ "")
    × (c.target_portal ≢ "")
    × (c.iqn ≢ "")

is_incomplete-IsComplete : (c : Config) → is_incomplete c ≡ false → IsComplete c
is_incomplete-IsComplete c e = ground (
  arith,
  eq_iff c.filer_ip "",
  eq_iff c.export_root "",
  eq_iff c.local_root "",
  eq_iff c.target_portal "",
  eq_iff c.iqn "",
)

-- how `init` ends if the directory is there
abbrev pub config_end : Config → Outcome (Unit {0})
config_end c = if is_incomplete c then exited else returned tt

-- how `init` ends, by what becomes of `os.Stat` and `os.Mkdir` and by what is at the directory's path
abbrev pub init_end : Config → Fate → Fate → Option Node → Outcome (Unit {0})
init_end c works f (some directory) = config_end c
init_end c works f (some (file text)) = exited
init_end c works works none = config_end c
init_end c works fails none = exited
init_end c works (stops text) none = exited
init_end c fails f there = exited
init_end c (stops text) f there = exited

module _ {C : Type 0} where
  -- how the process stands after `init`
  abbrev pub Started : Config → Host C → Outcome (Unit {0}) × Host C → Type 0
  Started c old (r, new) =
      ((r ≡ exited) × (new.cluster ≡ old.cluster))
      ⊎ ((r ≡ returned tt) × HasDirectory base_dir old new × IsComplete c)

  checked-Started :
      (c : Config) (old new : Host C) (b : Bool)
      → is_incomplete c ≡ b
      → HasDirectory base_dir old new
      → Started c old ((if b then exit else done) new)
  checked-Started c old new true e d = inl (refl, d.1)
  checked-Started c old new false e d = inr (refl, d, is_incomplete-IsComplete c e)

  then_checked :
      (c : Config) (old : Host C) (first : Outcome (Unit {0}) × Host C)
      → ExitsOr base_dir old first
      → Started c old (((λ (s : Host C). first) >> check_config c) old)
  then_checked c old (returned u, mid) (inl (e, k)) = absurd (ground arith)
  then_checked c old (returned u, mid) (inr (e, d)) =
      checked-Started c old mid (is_incomplete c) refl d
  then_checked c old (exited, mid) (inl (e, k)) = inl (refl, k)
  then_checked c old (exited, mid) (inr (e, k)) = absurd (ground arith)
  then_checked c old (panicked, mid) (inl (e, k)) = absurd (ground arith)
  then_checked c old (panicked, mid) (inr (e, k)) = absurd (ground arith)
  then_checked c old (hung, mid) (inl (e, k)) = absurd (ground arith)
  then_checked c old (hung, mid) (inr (e, k)) = absurd (ground arith)

  checked_end :
      (b : Bool) (h : Host C)
      → ((if b then exit {A = Unit {0}} else done) h).0 ≡ (if b then exited else returned tt)
  checked_end true h = refl
  checked_end false h = refl

  made_end :
      (c : Config) (h : Host C) (f : Fate) (there : Option Node)
      → there ≡ none
      → (((mkdir_by f there base_dir >>= exit_if) >> check_config c) h).0 ≡ init_end c works f none
  made_end c h works none k = checked_end (is_incomplete c) (put_node base_dir directory h)
  made_end c h works (some n) k = absurd (ground arith)
  made_end c h fails there k = refl
  made_end c h (stops text) there k = refl

  init_end_by :
      (c : Config) (h : Host C) (f : Fate) (there : Option Node)
      → node_at h.nodes base_dir ≡ there
      → ((need_directory base_dir (stat_by f there) >> check_config c) h).0
        ≡ init_end c f (fate_of h.fates) there
  init_end_by c h works (some directory) e = checked_end (is_incomplete c) h
  init_end_by c h works (some (file t)) e = refl
  init_end_by c h works none e = made_end c (spend h) (fate_of h.fates) (node_at h.nodes base_dir) e
  init_end_by c h fails there e = refl
  init_end_by c h (stops text) there e = refl

  -- The init function of the package ends the process or goes on, and never runs kubectl. If it goes on,
  -- the directory of the test resources is there and no variable of the environment is empty. It
  -- goes on exactly if `os.Stat` works, a directory is found or nothing is found and `os.Mkdir` works,
  -- and no variable is empty.
  pub init-Started :
      (c : Config) (h : Host C)
      → Started c h (init c h)
        × ((init c h).0
            ≡ init_end c (fate_of h.fates) (fate_of (rest_of h.fates)) (node_at h.nodes base_dir))
  unfolding init
  init-Started c h = (
    then_checked c h ((stat base_dir >>= need_directory base_dir) h) (
        needed-ExitsOr base_dir h (spend h) (fate_of h.fates) (node_at h.nodes base_dir) refl refl),
    init_end_by c (spend h) (fate_of h.fates) (node_at h.nodes base_dir) refl,
  )
