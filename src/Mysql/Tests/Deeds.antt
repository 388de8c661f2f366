-- ===== src/Mysql/Tests/Deeds.antt =====
-- The theorems about the methods that insert, update, bind and delete, at concrete calls.
use kubevoltracker.Base.{◌≡◌, refl, pos, List, [], ◌∷◌, some, arith, inl, inr, true, false}
use kubevoltracker.Go.{hung, returned}
use kubevoltracker.DbManager.{nfs, iscsi}
use kubevoltracker.Mysql.Tests.{server, claim, tables, calm, failing}
use kubevoltracker.Mysql.Tx.Total.{Settles}
use kubevoltracker.Mysql.Bind.{bind_pvc}
use kubevoltracker.Mysql.Bind.Effects.{bind_pvc_effect, bind_pvc_again_hangs, PvcBound}
use kubevoltracker.Mysql.Update.{update_pv, update_pvc}
use kubevoltracker.Mysql.Update.Effects.{
  updates_effect, PvUpdated, PvcUpdated, updated_pv, updated_pvc,
}
use kubevoltracker.Mysql.Delete.{delete_pv, delete_pvc, delete_pod}
use kubevoltracker.Mysql.Delete.Effects.{deletes_effect, PvDeleted, PvcDeleted}
use kubevoltracker.Mysql.Delete.Pods.{delete_pod_effect, PodDeleted}
use kubevoltracker.Mysql.Insert.{insert_pod, insert_pvc, insert_pv, new_pod, new_pvc, refresh_pvc}
use kubevoltracker.Mysql.Insert.Volumes.{insert_pv_effect, PvInserted, row_for}
use kubevoltracker.Mysql.Insert.Claims.{insert_pvc_effect, PvcInserted}
use kubevoltracker.Mysql.Insert.Pods.{claims_for}
use kubevoltracker.Mysql.Insert.Pods.Choice.{claims_for-moved, moved}
use kubevoltracker.Mysql.Insert.Pods.Latest.{IsLatest, early_claims-IsLatest}
use kubevoltracker.Mysql.Insert.Pods.Effects.{insert_pod_effect, insert_pod_known, PodInserted}
use kubevoltracker.Mysql.Util.{get_access_mode_string}
use kubevoltracker.Resources.{ContainerDesc, pods}
use kubevoltracker.Mysql.Rv.{set_rv}
use kubevoltracker.Mysql.Insert.Pods.Deadlock.{deadlock_in_mount, insert_pod_deadlock}

bind_pvc_effect_example :
    Settles (bind_pvc 9 "pv-1" "pvc-2" 8 "21" failing) (PvcBound "pv-1" "pvc-2" 8 "21" tables)
bind_pvc_effect_example =
    bind_pvc_effect 9 "pv-1" "pvc-2" 8 "21" failing (λ r e. cc) (refl, refl) (refl, (refl, tt))
      (omega arith)

bind_pvc_again_hangs_example :
    let (out, d) = bind_pvc 9 "pv-1" "pvc-1" 6 "21" failing in (out ≡ hung) × (d.tables ≡ tables)
bind_pvc_again_hangs_example =
    bind_pvc_again_hangs 9 "pv-1" "pvc-1" 6 "21" failing claim refl refl refl (refl, refl)
      (refl, (refl, tt))

updates_effect_example :
    Settles
      (update_pv 9 "pv-1" (pos 1) nfs 200 ("ReadOnlyMany" ∷ []) "{}" "22" failing)
      (PvUpdated "pv-1" (updated_pv (pos 1) (pos 0) 200 ("ReadOnlyMany" ∷ []) "{}") "22" tables)
    × Settles
        (update_pvc 9 "pv-1" 200 ("ReadOnlyMany" ∷ []) "{}" "default" "22" failing)
        (PvcUpdated "pv-1" (updated_pvc 200 ("ReadOnlyMany" ∷ []) "{}") "default" "22" tables)
updates_effect_example =
    updates_effect 9 "pv-1" 200 ("ReadOnlyMany" ∷ []) "{}" (pos 1) nfs "default" "22" failing
      (inl refl) (refl, refl) (refl, (refl, tt)) (omega arith)

deletes_effect_example :
    Settles (delete_pv 9 "pv-1" 30 "23" failing) (PvDeleted "pv-1" 30 "23" tables)
    × Settles
        (delete_pvc 9 "pv-1" 30 "default" "23" failing)
        (PvcDeleted "pv-1" 30 "default" "23" tables)
deletes_effect_example =
    deletes_effect 9 "pv-1" 30 "default" "23" failing (refl, refl) (refl, (refl, tt)) (omega arith)

delete_pod_effect_example :
    Settles
      (delete_pod 9 "pod-1" 3 "default" "23" failing)
      (PodDeleted "pod-1" 3 "default" "23" tables)
delete_pod_effect_example =
    delete_pod_effect 9 "pod-1" 3 "default" "23" failing (refl, refl) (refl, (refl, tt))
      (omega arith)

insert_pv_effect_example :
    Settles
      (insert_pv 9 "pv-2" "other" 9 (pos 4) iscsi 50 [] "{}" "24" failing)
      (PvInserted (row_for "pv-2" "other" 9 (pos 4) iscsi 50 [] "{}") "24" tables)
insert_pv_effect_example =
    insert_pv_effect 9 "pv-2" "other" 9 (pos 4) iscsi 50 [] "{}" "24" failing (refl, refl)
      (refl, (refl, tt)) (omega arith) (inr refl) refl

insert_pvc_effect_example :
    Settles (insert_pvc server 9 "pvc-2" "data" 9 "default" 70 [] "{}" "default" "25" failing) (
      PvcInserted server "pvc-2" "data"
        (new_pvc "pvc-2" "data" 9 "default" 70 (get_access_mode_string []) "{}")
        (refresh_pvc "data" 9 "default" 70 (get_access_mode_string []) "{}")
        "default"
        "25"
        tables)
insert_pvc_effect_example =
    insert_pvc_effect server 9 "pvc-2" "data" 9 "default" 70 [] "{}" "default" "25" failing
      (refl, refl) (refl, (refl, tt)) (omega arith)

abbrev containers : List ContainerDesc
containers =
    record {
      name = "nginx";
      image = "nginx:1";
      command = "run";
      pvc_mounts = record { name = "data"; read_only = true } ∷ [];
    }
    ∷ []

insert_pod_effect_example :
    Settles (insert_pod server 1 "pod-2" "web" 12 "default" containers "{}" "default" "26" calm) (
      PodInserted server (new_pod "pod-2" "web" 12 "default" "{}") containers "default" "26" tables)
insert_pod_effect_example =
    insert_pod_effect server 0 "pod-2" "web" 12 "default" containers "{}" "default" "26" calm refl
      refl

insert_pod_known_example :
    Settles
      (insert_pod server 1 "pod-1" "web" 12 "default" containers "{}" "default" "26" calm)
      (λ t. t ≡ tables)
insert_pod_known_example =
    insert_pod_known server 0 "pod-1" "web" 12 "default" containers "{}" "default" "26" calm _ refl
      refl

claims_for-moved_example :
    claims_for server "data" 12 (moved (λ r. some "other") tables.pvc)
    ≡ moved (λ r. some "other") (claims_for server "data" 12 tables.pvc)
claims_for-moved_example = claims_for-moved (λ r. some "other") server "data" 12 tables.pvc

early_claims-IsLatest_example : IsLatest server "data" 12 tables.pvc claim
early_claims-IsLatest_example = early_claims-IsLatest server "data" 12 tables.pvc claim (inl refl)

abbrev stuck_pod : ContainerDesc
stuck_pod = record {
  name = "nginx";
  image = "nginx:1";
  command = "run";
  pvc_mounts = record { name = "data"; read_only = false } ∷ [];
}

insert_pod_deadlock_example :
    let (out, d) =
      insert_pod server 1 "pod-2" "web" 12 "default"
        (stuck_pod ∷ [])
        "{}"
        "default"
        "26"
        (record calm { faults = deadlock_in_mount }) in
    (out ≡ returned tt) × (d.tables ≡ (set_rv pods "default" "26" tables).1)
insert_pod_deadlock_example =
    insert_pod_deadlock server 0 "pod-2" "web" "default" "{}" "default" "26" 12 stuck_pod
      (record { name = "data"; read_only = false }) calm refl refl
