-- ===== src/Kubectl/Deploy/Directory.antt =====
-- The directories that the package kubectl needs: its own and those of the exports.
use kubevoltracker.Base.{
  Bool, true, false, arith, String, ◌≡◌, refl, ◌⊎◌, inl, inr, Option, none, some, eq_refl,
}
use kubevoltracker.Go.{Outcome, returned, exited, ◌>>=◌}
use kubevoltracker.Kubectl.Host.{
  Node, directory, file, Fate, works, fails, stops, Host, node_at, fate_of, rest_of, spend, stat_by,
  mkdir_by,
}
use kubevoltracker.Kubectl.Config.{Config, need_directory, exit_if, get_local_path}
use kubevoltracker.Kubectl.Utils.{make_export_directory}

module _ {C : Type 0} where
  -- The path is a directory, and the cluster is as it was.
  abbrev pub HasDirectory : String → Host C → Host C → Type 0
  HasDirectory path old new =
      (node_at new.nodes path ≡ some directory) × (new.cluster ≡ old.cluster)

  -- The process has ended, or the directory is there.
  abbrev pub ExitsOr : String → Host C → Outcome (Unit {0}) × Host C → Type 0
  ExitsOr path old (r, new) =
      ((r ≡ exited) × (new.cluster ≡ old.cluster)) ⊎ ((r ≡ returned tt) × HasDirectory path old new)

  made-ExitsOr :
      (path : String) (old h : Host C) (f : Fate) (there : Option Node)
      → h.cluster ≡ old.cluster
      → ExitsOr path old ((mkdir_by f there path >>= exit_if) h)
  made-ExitsOr path old h works none k = inr (refl, (rw (eq_refl path) refl, k))
  made-ExitsOr path old h works (some n) k = inl (refl, k)
  made-ExitsOr path old h fails o k = inl (refl, k)
  made-ExitsOr path old h (stops t) o k = inl (refl, k)

  pub needed-ExitsOr :
      (path : String) (old h : Host C) (f : Fate) (there : Option Node)
      → node_at h.nodes path ≡ there
      → h.cluster ≡ old.cluster
      → ExitsOr path old (need_directory path (stat_by f there) h)
  needed-ExitsOr path old h works none e k =
      made-ExitsOr path old (spend h) (fate_of h.fates) (node_at h.nodes path) k
  needed-ExitsOr path old h works (some directory) e k = inr (refl, (e, k))
  needed-ExitsOr path old h works (some (file t)) e k = inl (refl, k)
  needed-ExitsOr path old h fails o e k = inl (refl, k)
  needed-ExitsOr path old h (stops t) o e k = inl (refl, k)

-- Whether the process goes on once it has seen to a directory, by what becomes of `os.Stat` and
-- `os.Mkdir` and by what is at the path.
abbrev pub goes_on : Fate → Fate → Option Node → Bool
goes_on works f (some directory) = true
goes_on works f (some (file text)) = false
goes_on works works none = true
goes_on works fails none = false
goes_on works (stops text) none = false
goes_on fails f there = false
goes_on (stops text) f there = false

module _ {C : Type 0} where
  abbrev pub goes_on_at : String → Host C → Bool
  goes_on_at path h = goes_on (fate_of h.fates) (fate_of (rest_of h.fates)) (node_at h.nodes path)

  -- The directory is there, or the process has ended.
  abbrev pub SeenTo : Bool → String → Host C → Outcome (Unit {0}) × Host C → Type 0
  SeenTo true path old (r, new) = (r ≡ returned tt) × HasDirectory path old new
  SeenTo false path old (r, new) = (r ≡ exited) × (new.cluster ≡ old.cluster)

  made-SeenTo :
      (path : String) (old h : Host C) (f : Fate) (there : Option Node)
      → there ≡ none
      → h.cluster ≡ old.cluster
      → SeenTo (goes_on works f none) path old ((mkdir_by f there path >>= exit_if) h)
  made-SeenTo path old h works none e k = (refl, (rw (eq_refl path) refl, k))
  made-SeenTo path old h works (some n) e k = absurd (ground arith)
  made-SeenTo path old h fails there e k = (refl, k)
  made-SeenTo path old h (stops t) there e k = (refl, k)

  needed-SeenTo :
      (path : String) (old h : Host C) (f : Fate) (there : Option Node)
      → node_at h.nodes path ≡ there
      → h.cluster ≡ old.cluster
      → SeenTo
          (goes_on f (fate_of h.fates) there)
          path
          old
          (need_directory path (stat_by f there) h)
  needed-SeenTo path old h works none e k =
      made-SeenTo path old (spend h) (fate_of h.fates) (node_at h.nodes path) e k
  needed-SeenTo path old h works (some directory) e k = (refl, (e, k))
  needed-SeenTo path old h works (some (file t)) e k = (refl, k)
  needed-SeenTo path old h fails o e k = (refl, k)
  needed-SeenTo path old h (stops t) o e k = (refl, k)

  pub make_export_directory-SeenTo :
      (c : Config) (export : String) (h : Host C)
      → SeenTo
          (goes_on_at (get_local_path c export) h)
          (get_local_path c export)
          h
          (make_export_directory c export h)
  unfolding make_export_directory
  make_export_directory-SeenTo c export h =
      needed-SeenTo (get_local_path c export) h (spend h) (fate_of h.fates)
        (node_at h.nodes (get_local_path c export)) refl refl
