-- ===== src/Mysql/Insert/Pods.antt =====
-- The rows that a pod brings: one for each container, and for each mount of a container one for each
-- claim that the mount belongs to. Nothing here looks at a namespace.
pub mod Deadlock
pub mod Mount
pub mod Containers
pub mod Effects
pub mod Choice
pub mod Latest
use kubevoltracker.Base.{
  ℕ, suc, String, ◌≡◌, refl, ap, sym, ◌∙◌, Bool, true, false, not, List, [], ◌∷◌, ◌++◌, map, Option,
  none, some, arith, length, ltb, nat_eq, any, ◌==◌, if◌then◌else◌,
}
use kubevoltracker.Go.{returned}
use kubevoltracker.Resources.{VolumeMount, ContainerDesc, pods}
use kubevoltracker.Mysql.Schema.{Pvc, Pod, PodMount, Container, Tables}
use kubevoltracker.Mysql.Conn.{
  Conn, Result, ok, err, plain, mysql, err_duplicate_key, Tx, pure, raise, call, on_tables,
  drop_error,
}
use kubevoltracker.Mysql.Sql.{Server, is_null}
use kubevoltracker.Mysql.Rv.{set_rv}
use kubevoltracker.Mysql.Insert.{
  insert_pod_mount, insert_late_mount, insert_fallback_mount, early_mount, late_mount,
  fallback_mount, add_mounts, mount_of, early_claims, late_claims, insert_mounts, insert_containers,
  new_container,
}
use kubevoltracker.Mysql.Tx.Refines.{Plain, runs, gives, fails, then_plain, wraps}
use kubevoltracker.Mysql.Tx.Quiet.{
  Computes, drops, Computes-pure, Computes-raise, Computes-statement, Computes-rows,
  Computes-check_rows, Computes-wrap, Computes-bind, Computes-if, Computes-drop, Computes-do,
}
use kubevoltracker.Mysql.Tx.Blocks.{changes}

abbrev pub or_else : List Pvc → List Pvc → List Pvc
or_else [] ys = ys
or_else (x ∷ xs) ys = x ∷ xs

-- The claims that a mount of this name belongs to: the last that was created up to the start of the
-- pod, or else the first from then on.
abbrev pub claims_for : Server → String → ℕ → List Pvc → List Pvc
claims_for server name time rows =
    or_else (early_claims server name time rows) (late_claims server name time rows)

abbrev pub rows_for : String → String → VolumeMount → List Pvc → List PodMount
rows_for uid container_name mount [] = mount_of uid container_name mount none ∷ []
rows_for uid container_name mount (x ∷ xs) =
    map (λ (r : Pvc). mount_of uid container_name mount (some r.uid)) (x ∷ xs)

-- The rows that are recorded for a mount: one for each such claim, or one without a claim.
abbrev pub mounts_for : Server → String → String → VolumeMount → ℕ → List Pvc → List PodMount
mounts_for server uid container_name mount time rows =
    rows_for uid container_name mount (claims_for server mount.name time rows)

-- the rows for the mounts of a container, and for those of all containers
abbrev pub mounts_of : Server → String → String → List VolumeMount → ℕ → List Pvc → List PodMount
mounts_of server uid container_name [] time rows = []
mounts_of server uid container_name (mount ∷ mounts) time rows =
    mounts_for server uid container_name mount time rows
    ++ mounts_of server uid container_name mounts time rows

abbrev pub mounts_of_all : Server → String → List ContainerDesc → ℕ → List Pvc → List PodMount
mounts_of_all server uid [] time rows = []
mounts_of_all server uid (desc ∷ containers) time rows =
    mounts_of server uid desc.name desc.pvc_mounts time rows
    ++ mounts_of_all server uid containers time rows

abbrev pub add_rows : List PodMount → Tables → Tables
add_rows rows t = record t { pod_mount = t.pod_mount ++ rows }
