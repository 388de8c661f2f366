-- ===== src/Kubectl/Host.antt =====
-- The machine that the package kubectl runs on: its file system, the calls of the packages os and
-- io/ioutil that the package makes, and the command kubectl, which is a parameter.
pub mod Laws
use Prim.Native.Nat.{Ordering}
use Prim.Native.String.{◌++◌, compare, len, slice}
use text.Mathlib.Text.{starts_with}
use kubevoltracker.Strings.{split}
use kubevoltracker.Base.{
  ◌||◌, String, Bool, true, false, List, [], ◌∷◌, Option, none, some, ◌==◌, if◌then◌else◌,
}
use kubevoltracker.Go.{returned, Go}

pub data Node : Type 0 where
  directory : Node
  file : String → Node

-- What becomes of the next call of the file system. A write that stops leaves some text in the file.
pub data Fate : Type 0 where
  works : Fate
  fails : Fate
  stops : String → Fate

-- the errors that the package tells apart or passes on
pub data Failure : Type 0 where
  not_exist : Failure
  refused : Failure
  exit_status : Failure

-- `cluster` is whatever the command kubectl changes. A path has at most one node.
-- `fates` says how the calls end; when it is used up, they work.
pub record Host (C : Type 0) : Type 0 where
  pub nodes : List (String × Node)
  pub fates : List Fate
  pub cluster : C

-- The command: by its arguments and the files it gives a new cluster and says whether it ended well.
abbrev pub Kubectl : Type 0 → Type 0
Kubectl C = List String → List (String × Node) → C → Bool × C

abbrev pub node_at : List (String × Node) → String → Option Node
node_at [] path = none
node_at ((name, node) ∷ rest) path = if name == path then some node else node_at rest path

-- without the entries for which the test holds
abbrev pub without : (String → Bool) → List (String × Node) → List (String × Node)
without under [] = []
without under ((name, node) ∷ rest) =
    if under name then without under rest else (name, node) ∷ without under rest

abbrev pub fate_of : List Fate → Fate
fate_of [] = works
fate_of (f ∷ fates) = f

abbrev pub rest_of : List Fate → List Fate
rest_of [] = []
rest_of (f ∷ fates) = fates

-- `os.Stat`
pub data Stat : Type 0 where
  found : Node → Stat
  stat_error : Failure → Stat

abbrev pub stat_node : Option Node → Stat
stat_node none = stat_error not_exist
stat_node (some node) = found node

abbrev pub stat_by : Fate → Option Node → Stat
stat_by works there = stat_node there
stat_by fails _ = stat_error refused
stat_by (stops text) _ = stat_error refused

abbrev pub ran : Bool → Option Failure
ran true = none
ran false = some exit_status

-- the base names of the nodes in a directory, as `ioutil.ReadDir` gives them, in their order
abbrev pub only : List String → List String
only (part ∷ []) = part ∷ []
only _ = []

abbrev pub base_name : String → String → List String
base_name dir path =
    if starts_with path (dir ++ "/")
    then only (split b'/' (slice path (len (dir ++ "/")) (len path)))
    else []

abbrev pub is_before : Ordering → Bool
is_before Ordering.gt = false
is_before _ = true

abbrev pub insert_sorted : String → List String → List String
insert_sorted x [] = x ∷ []
insert_sorted x (y ∷ ys) = if is_before (compare x y) then x ∷ y ∷ ys else y ∷ insert_sorted x ys

abbrev pub insert_all : List String → List String → List String
insert_all [] ys = ys
insert_all (x ∷ xs) ys = insert_sorted x (insert_all xs ys)

unfoldable pub names_in : String → List (String × Node) → List String
unfolding split
names_in dir [] = []
names_in dir ((path, node) ∷ rest) = insert_all (base_name dir path) (names_in dir rest)

-- the path, or one below it
abbrev pub is_under : String → String → Bool
is_under path p = p == path || starts_with p (path ++ "/")

abbrev pub list_by : Fate → Option Node → List String → Option (List String)
list_by works (some directory) names = some names
list_by _ _ names = none

module _ {C : Type 0} where
  abbrev pub spend : Host C → Host C
  spend h = record h { fates = rest_of h.fates }

  abbrev pub put_node : String → Node → Host C → Host C
  put_node path node h = record h { nodes = (path, node) ∷ without (λ p. p == path) h.nodes }

  abbrev pub stat : String → Go (Host C) Stat
  stat path h = (returned (stat_by (fate_of h.fates) (node_at h.nodes path)), spend h)

  abbrev pub mkdir_by : Fate → Option Node → String → Go (Host C) (Option Failure)
  mkdir_by works none path h = (returned none, put_node path directory h)
  mkdir_by works (some node) path h = (returned (some refused), h)
  mkdir_by fails _ path h = (returned (some refused), h)
  mkdir_by (stops text) _ path h = (returned (some refused), h)

  -- `os.Mkdir`
  abbrev pub mkdir : String → Go (Host C) (Option Failure)
  mkdir path h = mkdir_by (fate_of h.fates) (node_at h.nodes path) path (spend h)

  abbrev pub write_by : Fate → Option Node → String → String → Go (Host C) (Option Failure)
  write_by f (some directory) path text h = (returned (some refused), h)
  write_by works _ path text h = (returned none, put_node path (file text) h)
  write_by fails _ path text h = (returned (some refused), h)
  write_by (stops part) _ path text h = (returned (some refused), put_node path (file part) h)

  -- `ioutil.WriteFile`
  abbrev pub write_file : String → String → Go (Host C) (Option Failure)
  write_file path text h = write_by (fate_of h.fates) (node_at h.nodes path) path text (spend h)

  -- `ioutil.ReadDir`; `none` is an error
  abbrev pub read_dir : String → Go (Host C) (Option (List String))
  read_dir dir h =
      (returned (list_by (fate_of h.fates) (node_at h.nodes dir) (names_in dir h.nodes)), spend h)

  abbrev pub remove_by : Fate → (String → Bool) → Go (Host C) (Option Failure)
  remove_by works under h = (returned none, record h { nodes = without under h.nodes })
  remove_by fails under h = (returned (some refused), h)
  remove_by (stops text) under h = (returned (some refused), h)

  -- `os.RemoveAll`
  abbrev pub remove_all : String → Go (Host C) (Option Failure)
  remove_all path h = remove_by (fate_of h.fates) (is_under path) (spend h)

  -- `exec.Command("kubectl", args...).Run()`
  abbrev pub run_command : Kubectl C → List String → Go (Host C) (Option Failure)
  run_command kubectl args h =
      let (ended, cluster) = kubectl args h.nodes h.cluster in
      (returned (ran ended), record h { cluster = cluster })
