-- ===== src/Mysql/Insert/Pods/Effects.antt =====
-- What `InsertPod` of dbmanager/mysql/insert.go records, when the server fails no call.
use mathlib.Core.Path.{subst}
use kubevoltracker.Base.{
  Option, none, some, not, sym, map, ℕ, suc, String, ◌≡◌, refl, ap, ◌∙◌, Bool, true, false, List,
  [], ◌∷◌, ◌++◌, any, ◌==◌, if◌then◌else◌,
}
use kubevoltracker.Resources.{ContainerDesc, pods}
use kubevoltracker.Mysql.Schema.{Pod, Tables}
use kubevoltracker.Mysql.Conn.{Conn, ok, err, mysql, err_duplicate_key, raise}
use kubevoltracker.Mysql.Sql.{Server, is_null}
use kubevoltracker.Mysql.Rv.{set_rv}
use kubevoltracker.Mysql.Insert.{insert_pod, insert_pod_tx, insert_pod_row, new_pod, new_container}
use kubevoltracker.Mysql.View.{pod_at, Put, Recorded}
use kubevoltracker.Mysql.View.Laws.{any-row_at, append-Put, set_rv-Recorded}
use kubevoltracker.Mysql.Tx.Total.{Settles}
use kubevoltracker.Mysql.Insert.Pods.{mounts_of_all}
use kubevoltracker.Mysql.Insert.Pods.Containers.{
  all_containers, insert_containers-Computes, with_containers, all_containers_lem,
}
use kubevoltracker.Mysql.Tx.Refines.{Plain, IsCalm, then_plain}
use kubevoltracker.Mysql.Tx.Blocks.{changes, counted}
use kubevoltracker.Mysql.Tx.Quiet.{
  Computes, exits, at_tables, Computes-bind, Computes-fatal, Computes-do_of, Computes-update_rv,
}
use kubevoltracker.Mysql.Tx.Quiet.Run.{method_quiet, method_quiet_duplicate}

-- What a pod that was not known brings.
pub record PodInserted (server : Server) (row : Pod) (descs : List ContainerDesc)
    (watcher_ns rv : String) (t t' : Tables) : Type 0 where
  pub inserted : Put (pod_at t) (pod_at t') row.uid (λ _. row)
  pub containers : t'.container ≡ t.container ++ map (new_container row.uid) descs
  pub mounts :
      t'.pod_mount ≡ t.pod_mount ++ mounts_of_all server row.uid descs row.create_time t.pvc
  pub recorded : Recorded t t' pods watcher_ns rv
  pub rest : t' ≡ record t {
    pod = t'.pod;
    container = t'.container;
    pod_mount = t'.pod_mount;
    resource_version = t'.resource_version;
  }

module _ (server : Server) (fuel : ℕ) (uid name : String) (time : ℕ) (namespace : String)
    (containers : List ContainerDesc) (json watcher_ns rv : String) where
  abbrev is_known : Tables → Bool
  is_known t = any (λ (r : Pod). r.uid == uid) t.pod

  abbrev with_pod : Tables → Tables
  with_pod t = record t { pod = t.pod ++ new_pod uid name time namespace json ∷ [] }

  abbrev row_if : Bool → Plain ℕ
  row_if true t = (err (mysql err_duplicate_key), t)
  row_if false t = (ok 1, with_pod t)

  abbrev row : Plain ℕ
  row t = row_if (is_known t) t

  row-Computes : Computes row (insert_pod_row uid name time namespace json)
  row-Computes = record { at = λ c t. by_known (is_known t) c t }
    where
      by_known :
          (known : Bool) (c : Conn) (t : Tables)
          → (if known
              then raise (mysql err_duplicate_key) (at_tables c t)
              else (ok 1, at_tables c (with_pod t)))
            ≡ (let (r, t') = row_if known t in (r, at_tables c t'))
      by_known true c t = refl
      by_known false c t = refl

  abbrev meaning : Plain (Unit {0})
  meaning = then_plain (counted row) (λ _.
      then_plain (all_containers server uid time containers)
        (λ _. exits (changes (set_rv pods watcher_ns rv))))

  insert_pod_tx-Computes :
      Computes meaning (insert_pod_tx server uid name time namespace containers json watcher_ns rv)
  unfolding insert_pod_tx
  insert_pod_tx-Computes =
      Computes-bind (counted row) _ _ _
        (Computes-do_of row _ row-Computes (λ c t. calm (is_known t) c t))
        (λ _.
          Computes-bind (all_containers server uid time containers) _ _ _
            (insert_containers-Computes server uid time containers)
            (λ _.
              Computes-fatal (changes (set_rv pods watcher_ns rv)) _
                (Computes-update_rv pods watcher_ns rv)))
    where
      calm :
          (known : Bool) (c : Conn) (t : Tables)
          → IsCalm (let (r, t') = row_if known t in (r, at_tables c t'))
      calm true c t = refl
      calm false c t = tt

  -- the tables with the rows of a new pod
  abbrev pub inserted : Tables → Tables
  inserted t =
      (set_rv pods watcher_ns rv (with_containers server uid time containers (with_pod t))).1

  abbrev rest_of : Plain ℕ → Plain (Unit {0})
  rest_of first = then_plain (counted first) (λ _.
      then_plain (all_containers server uid time containers)
        (λ _. exits (changes (set_rv pods watcher_ns rv))))

  known_by : (t : Tables) (o : Option Pod) → pod_at t uid ≡ o → is_known t ≡ not (is_null o)
  known_by t o e = any-row_at (λ (r : Pod). r.uid) uid t.pod ∙ ap (λ o. not (is_null o)) e

  meaning_new : (t : Tables) → pod_at t uid ≡ none → meaning t ≡ (ok tt, inserted t)
  meaning_new t e =
      ap (λ (known : Bool). rest_of (row_if known) t) (known_by t none e)
      ∙ ap (λ out. then_plain (λ _. out) (λ _. exits (changes (set_rv pods watcher_ns rv))) t)
          (all_containers_lem server uid time containers (with_pod t))

  meaning_known :
      (t : Tables) (r : Pod)
      → pod_at t uid ≡ some r
      → meaning t ≡ (err (mysql err_duplicate_key), t)
  meaning_known t r e = ap (λ (known : Bool). rest_of (row_if known) t) (known_by t (some r) e)

  PodInserted-inserted :
      (t : Tables)
      → pod_at t uid ≡ none
      → PodInserted server
          (new_pod uid name time namespace json)
          containers
          watcher_ns
          rv
          t
          (inserted t)
  PodInserted-inserted t e = record {
    inserted =
        append-Put (λ (r : Pod). r.uid) uid (new_pod uid name time namespace json) t.pod refl e;
    containers = refl;
    mounts = refl;
    recorded =
        set_rv-Recorded pods watcher_ns rv
          (with_containers server uid time containers (with_pod t));
    rest = refl;
  }

  pub insert_pod_tables :
      (c : Conn)
      → c.faults ≡ []
      → pod_at c.tables uid ≡ none
      → (insert_pod server
          (suc fuel)
          uid
          name
          time
          namespace
          containers
          json
          watcher_ns
          rv
          c).1.tables
        ≡ inserted c.tables
  unfolding insert_pod
  insert_pod_tables c f e =
      ap (λ out. out.1.tables)
        (method_quiet meaning _ insert_pod_tx-Computes fuel c (inserted c.tables) f
          (meaning_new c.tables e))

  -- `InsertPod` of a pod that is not known returns if the server fails no call. The pod has a row;
  -- each container has one row more, and each mount one for each claim that it belongs to, or one
  -- without a claim; the version is recorded under the watcher's namespace; nothing else has
  -- changed, and no transaction is open.
  pub insert_pod_effect :
      (c : Conn)
      → c.faults ≡ []
      → pod_at c.tables uid ≡ none
      → Settles
          (insert_pod server (suc fuel) uid name time namespace containers json watcher_ns rv c)
          (PodInserted server
            (new_pod uid name time namespace json)
            containers
            watcher_ns
            rv
            c.tables)
  unfolding insert_pod
  insert_pod_effect c f e =
      subst
        (λ out. Settles out (
          PodInserted server (new_pod uid name time namespace json) containers watcher_ns rv
            c.tables))
        (sym (
          method_quiet meaning _ insert_pod_tx-Computes fuel c (inserted c.tables) f
            (meaning_new c.tables e)))
        (refl, PodInserted-inserted c.tables e, (refl, refl))

  -- `InsertPod` of a pod that is known returns if the server fails no call, and has changed nothing:
  -- neither a row of the pod, nor the recorded version.
  pub insert_pod_known :
      (c : Conn) (r : Pod)
      → c.faults ≡ []
      → pod_at c.tables uid ≡ some r
      → Settles
          (insert_pod server (suc fuel) uid name time namespace containers json watcher_ns rv c)
          (λ t. t ≡ c.tables)
  unfolding insert_pod
  insert_pod_known c r f e =
      subst (λ out. Settles out (λ t. t ≡ c.tables))
        (sym (
          method_quiet_duplicate meaning _ insert_pod_tx-Computes fuel c c.tables f
            (meaning_known c.tables r e)))
        (refl, refl, (refl, refl))
