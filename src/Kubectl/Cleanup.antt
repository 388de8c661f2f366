-- ===== src/Kubectl/Cleanup.antt =====
-- The removal of what the tests have made: files of resources and directories of exports.
use Prim.Native.String.{◌++◌, compare}
use text.Mathlib.TextPositions.{starts_with-append, slice-append_right, len-append}
use mathlib.Core.List.{foldl}
use mathlib.Core.Path.{subst}
use kubevoltracker.Base.{
  String, ◌≡◌, refl, sym, ap, ◌∙◌, ◌⊎◌, inl, inr, Bool-cases, List, [], ◌∷◌, Option, none, some,
  arith, Among, ◌==◌, eq_iff, if◌then◌else◌,
}
use kubevoltracker.Go.{Outcome, returned, exited, ◌>>=◌}
use kubevoltracker.Strings.{split, join_path}
use kubevoltracker.Kubectl.Host.{
  Node, directory, file, Fate, works, fails, stops, Host, Kubectl, node_at, fate_of, rest_of, spend,
  stat_by, remove_by, is_under, base_name, insert_sorted, insert_all, is_before, names_in,
}
use kubevoltracker.Kubectl.Host.Laws.{node_at-without}
use kubevoltracker.Kubectl.Config.{Config, base_dir, get_local_path, exit_if}
use kubevoltracker.Kubectl.Utils.{remove_if, rm_export_dir, delete_all, delete_test_resources}

module _ {C : Type 0} where
  -- The path and what lies below it is gone, and nothing else.
  abbrev IsRemoved : String → Host C → Host C → Type 0
  IsRemoved dir old new =
      (path : String)
      → node_at new.nodes path ≡ (if is_under dir path then none else node_at old.nodes path)

  -- the three ways in which a removal ends
  abbrev RemovedOr : String → Host C → Outcome (Unit {0}) × Host C → Type 0
  RemovedOr dir old (r, new) =
      ((r ≡ exited) × (new.nodes ≡ old.nodes))
      ⊎ ((r ≡ returned tt) × (node_at old.nodes dir ≡ none) × (new.nodes ≡ old.nodes))
      ⊎ ((r ≡ returned tt) × (node_at old.nodes dir ≡ some directory) × IsRemoved dir old new)

  removed-RemovedOr :
      (dir : String) (old h : Host C) (f : Fate)
      → h.nodes ≡ old.nodes
      → node_at old.nodes dir ≡ some directory
      → RemovedOr dir old ((remove_by f (is_under dir) >>= exit_if) h)
  removed-RemovedOr dir old h works k e = inr (
      inr (
        refl,
        e,
        λ path.
            node_at-without (is_under dir) h.nodes path
            ∙ ap
                (λ (nodes : List (String × Node)).
                  if is_under dir path then none else node_at nodes path)
                k,
      ))
  removed-RemovedOr dir old h fails k e = inl (refl, k)
  removed-RemovedOr dir old h (stops t) k e = inl (refl, k)

  found-RemovedOr :
      (dir : String) (old h : Host C) (f : Fate) (there : Option Node)
      → h.nodes ≡ old.nodes
      → node_at old.nodes dir ≡ there
      → RemovedOr dir old (remove_if dir (stat_by f there) h)
  found-RemovedOr dir old h works none k e = inr (inl (refl, e, k))
  found-RemovedOr dir old h works (some directory) k e =
      removed-RemovedOr dir old (spend h) (fate_of h.fates) k e
  found-RemovedOr dir old h works (some (file t)) k e = inl (refl, k)
  found-RemovedOr dir old h fails o k e = inl (refl, k)
  found-RemovedOr dir old h (stops t) o k e = inl (refl, k)

  -- RMExportDir ends in one of three ways. The process exits, and all files are as they were. Or it
  -- returns, nothing was at the local path of the export, and all files are as they were. Or it returns,
  -- a directory was there, and now it and all that lies below it is gone and every other path is as it
  -- was.
  rm_export_dir-RemovedOr :
      (c : Config) (dir : String) (h : Host C)
      → RemovedOr (get_local_path c dir) h (rm_export_dir c dir h)
  unfolding rm_export_dir
  rm_export_dir-RemovedOr c dir h =
      found-RemovedOr (get_local_path c dir) h (spend h) (fate_of h.fates)
        (node_at h.nodes (get_local_path c dir)) refl refl

-- an element of a list with one more in the second place
Among-later :
    (x y z : String) (ys rest : List String)
    → (Among x (y ∷ ys) → Among x rest)
    → Among x (y ∷ z ∷ ys)
    → Among x (z ∷ rest)
Among-later x y z ys rest h (inl q) = inr (h (inl q))
Among-later x y z ys rest h (inr (inl q)) = inl q
Among-later x y z ys rest h (inr (inr m)) = inr (h (inr m))

insert_sorted-Among :
    (x y : String) (ys : List String) → Among x (y ∷ ys) → Among x (insert_sorted y ys)
insert_sorted-Among x y [] n = n
insert_sorted-Among x y (z ∷ ys) n = elim (Bool-cases (is_before (compare y z))) [
  | inl b ↦ rw b n
  | inr b ↦ rw b (Among-later x y z ys (insert_sorted y ys) (insert_sorted-Among x y ys) n)
]

insert_all-Among :
    (x : String) (xs ys : List String) → Among x xs ⊎ Among x ys → Among x (insert_all xs ys)
insert_all-Among x [] ys (inl n) = absurd n
insert_all-Among x [] ys (inr n) = n
insert_all-Among x (y ∷ xs) ys (inl (inl q)) = insert_sorted-Among x y (insert_all xs ys) (inl q)
insert_all-Among x (y ∷ xs) ys (inl (inr n)) =
    insert_sorted-Among x y (insert_all xs ys) (inr (insert_all-Among x xs ys (inl n)))
insert_all-Among x (y ∷ xs) ys (inr n) =
    insert_sorted-Among x y (insert_all xs ys) (inr (insert_all-Among x xs ys (inr n)))

base_name_lem :
    (dir name : String)
    → split b'/' name ≡ name ∷ []
    → base_name dir ((dir ++ "/") ++ name) ≡ name ∷ []
base_name_lem dir name e =
    rw (starts_with-append (dir ++ "/") name)
      (rw (len-append (dir ++ "/") name) (rw (slice-append_right (dir ++ "/") name) (rw e refl)))

-- The name has no slash.
abbrev IsPlain : String → Type 0
IsPlain name = split b'/' name ≡ name ∷ []

names_in-Among :
    (dir name : String) (nodes : List (String × Node)) (node : Node)
    → IsPlain name
    → node_at nodes ((dir ++ "/") ++ name) ≡ some node
    → Among name (names_in dir nodes)
unfolding names_in
names_in-Among dir name [] node e f = absurd (ground arith)
names_in-Among dir name ((path, other) ∷ nodes) node e f =
    elim (Bool-cases (path == (dir ++ "/") ++ name)) [
      | inl q ↦ insert_all-Among name (base_name dir path) (names_in dir nodes) (
          inl (
            subst (Among name)
              (sym (
                ap (base_name dir) ((eq_iff path ((dir ++ "/") ++ name)).0 q)
                ∙ base_name_lem dir name e))
              (inl refl)))
      | inr q ↦
          insert_all-Among name (base_name dir path) (names_in dir nodes)
            (inr (names_in-Among dir name nodes node e (ground arith)))
    ]

module _ {C : Type 0} (kubectl : Kubectl C) where
  -- The command is run to delete each of the files, in their order, whatever its status.
  abbrev deleted : List (String × Node) → C → String → C
  deleted nodes cluster name =
      (kubectl ("delete" ∷ "--grace-period=0" ∷ "-f" ∷ join_path (base_dir ∷ name ∷ []) ∷ []) nodes
        cluster).1

  delete_all_lem :
      (names : List String) (h : Host C)
      → delete_all kubectl names h
        ≡ (returned tt, record h { cluster = foldl (deleted h.nodes) h.cluster names })
  delete_all_lem [] h = refl
  delete_all_lem (name ∷ names) h =
      delete_all_lem names (record h { cluster = deleted h.nodes h.cluster name })

  -- If the directory of the test resources can be read, DeleteTestResources returns and leaves the files
  -- alone. Kubectl has been run to delete each of the names in the directory, in their order, on
  -- whatever the runs before it have left, those that failed included; and every file in the
  -- directory whose name has no slash is among the names.
  delete_test_resources-deleted :
      (h : Host C) (name : String) (node : Node)
      → fate_of h.fates ≡ works
      → node_at h.nodes base_dir ≡ some directory
      → IsPlain name
      → node_at h.nodes ((base_dir ++ "/") ++ name) ≡ some node
      → (delete_test_resources kubectl h ≡ (
        returned tt,
        record h {
          fates = rest_of h.fates;
          cluster = foldl (deleted h.nodes) h.cluster (names_in base_dir h.nodes);
        },
      ))
        × Among name (names_in base_dir h.nodes)
  unfolding delete_test_resources
  delete_test_resources-deleted h name node e d p f = (
    rw (e, d) (delete_all_lem (names_in base_dir h.nodes) (spend h)),
    names_in-Among base_dir name h.nodes node p f,
  )
