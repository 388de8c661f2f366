-- ===== src/Mysql/Tests/Sources.antt =====
-- The theorems about volume sources and resource versions, at concrete calls.
use kubevoltracker.Go.{returned}
use kubevoltracker.Base.{ℕ, [], ◌∷◌, ◌++◌, Among, pos, ◌≡◌, refl, some, none, arith}
use kubevoltracker.Mysql.Tests.{server, pattern_server, tables, calm}
use kubevoltracker.Mysql.Insert.Sources.Targets.{IscsiOutcome, insert_iscsi_effect}
use kubevoltracker.Mysql.Insert.Sources.{insert_nfs, insert_iscsi}
use kubevoltracker.Mysql.Insert.Sources.Ids.{insert_nfs_effect, NfsOutcome, NfsIdsValid}
use kubevoltracker.Mysql.Insert.Sources.Again.{insert_nfs_again, insert_nfs_wildcard}

ids_valid : NfsIdsValid calm
ids_valid = (omega arith, omega arith)

insert_nfs_effect_example :
    NfsOutcome server "10.0.0.1" "/vola1" calm none
      (some 167772161)
      (insert_nfs server "10.0.0.1" "/vola1" calm)
insert_nfs_effect_example = insert_nfs_effect server "10.0.0.1" "/vola1" calm ids_valid refl

insert_nfs_again_example :
    let (first, d) = insert_nfs server "10.0.0.1" "/vola1" calm in
    let (second, e) = insert_nfs server "10.0.0.1" "/vola1" d in
    (id : ℕ) × (first ≡ returned (pos id))
    × Among (record { id = id; ip_addr = 167772161; path = "/vola1" }) d.tables.nfs
    × (second ≡ returned (pos id))
    × (e.tables ≡ d.tables)
insert_nfs_again_example =
    insert_nfs_again server "10.0.0.1" "/vola1" 167772161 refl calm (λ v. refl) ids_valid refl

insert_nfs_wildcard_example :
    let (first, d) = insert_nfs pattern_server "10.0.0.1" "/vola1" calm in
    let (second, e) = insert_nfs pattern_server "10.0.0.1" "/vol_1" d in
    (first ≡ returned (pos 2))
    × (d.tables ≡ record tables {
      nfs = tables.nfs ++ record { id = 2; ip_addr = 167772161; path = "/vola1" } ∷ [];
    })
    × (second ≡ returned (pos 2))
    × (e.tables ≡ d.tables)
insert_nfs_wildcard_example =
    insert_nfs_wildcard pattern_server "10.0.0.1" "/vola1" 167772161 refl "/vol_1" calm refl refl
      refl ids_valid refl

insert_iscsi_effect_example :
    IscsiOutcome server 0 "10.0.0.7:3260" "iqn.2016"
      (pos 1)
      "ext4"
      calm
      none
      (insert_iscsi server 1 "10.0.0.7:3260" "iqn.2016" (pos 1) "ext4" calm)
insert_iscsi_effect_example =
    insert_iscsi_effect server 0 "10.0.0.7:3260" "iqn.2016" (pos 1) "ext4" calm (λ e. cc) refl
