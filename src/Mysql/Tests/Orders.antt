-- ===== src/Mysql/Tests/Orders.antt =====
-- The theorems about the order of transactions, at concrete events.
use kubevoltracker.Base.{List, some, false, true, ◌∷◌, refl, [], arith}
use kubevoltracker.Mysql.Tests.{server, tables, connected, calm, failing}
use kubevoltracker.Mysql.Bind.{bind_pvc}
use kubevoltracker.Mysql.Insert.{insert_pvc, insert_pod}
use kubevoltracker.Resources.{ContainerDesc}
use kubevoltracker.Mysql.Conn.{Conn, mysql}
use kubevoltracker.Mysql.Orders.Pods.{insert_pod-insert_pvc}
use kubevoltracker.Mysql.Orders.{SameView}
use kubevoltracker.Mysql.Orders.Claims.{bind_pvc-insert_pvc}

-- the connections of the second transactions, which see what the first have left
abbrev after_insert : Conn
after_insert =
    connected []
      (insert_pvc server 9 "pvc-2" "data" 9 "default" 70 [] "{}" "default" "25" failing).1.tables

abbrev after_bind : Conn
after_bind = connected [] (bind_pvc 9 "pv-1" "pvc-2" 8 "21" failing).1.tables

bind_pvc-insert_pvc_example :
    SameView
      (bind_pvc 9 "pv-1" "pvc-2" 8 "21" after_insert).1.tables
      (insert_pvc server 9 "pvc-2" "data" 9 "default" 70 [] "{}" "default" "25" after_bind).1.tables
bind_pvc-insert_pvc_example =
    bind_pvc-insert_pvc server "pvc-2" "data" 9 "default" 70 [] "{}" "default" "25" "pv-1" 8 "21" 9
      tables failing after_insert failing after_bind (λ r e. cc)
      (refl, (refl, refl), (refl, (refl, tt)), omega arith) (refl, (refl, refl), tt, omega arith)
      (refl, (refl, refl), (refl, (refl, tt)), omega arith) (refl, (refl, refl), tt, omega arith)

-- a pod that mounts a claim that is not known yet, and one that is
abbrev two_mounts : List ContainerDesc
two_mounts =
    record {
      name = "nginx";
      image = "nginx";
      command = "";
      pvc_mounts =
          record { name = "logs"; read_only = false }
          ∷ (record { name = "data"; read_only = true } ∷ []);
    }
    ∷ []

-- the connections of the second transactions
abbrev after_pod : Conn
after_pod =
    connected (some (mysql 1213) ∷ [])
      (insert_pod server 9 "pod-2" "web" 12 "default" two_mounts "{}" "default" "26" calm).1.tables

abbrev after_claim : Conn
after_claim =
    connected []
      (insert_pvc server 9 "pvc-2" "logs" 13 "default" 70 [] "{}" "default" "27" failing).1.tables

insert_pod-insert_pvc_example :
    SameView
      (insert_pvc server 9 "pvc-2" "logs" 13 "default" 70 [] "{}" "default" "27" after_pod).1.tables
      (insert_pod server 9 "pod-2" "web" 12 "default" two_mounts "{}" "default" "26"
        after_claim).1.tables
insert_pod-insert_pvc_example =
    insert_pod-insert_pvc server 8 "pod-2" "web" 12 "default" two_mounts "{}" "26" "pvc-2" "logs" 13
      "default" 70 [] "{}" "27" "default" tables calm after_pod failing after_claim (λ v. refl)
      (((λ v. refl), ((λ v. refl), tt)), tt) refl refl refl refl (refl, refl)
      (refl, (refl, refl), (refl, tt), omega arith)
      (refl, (refl, refl), (refl, (refl, tt)), omega arith) (refl, refl)
