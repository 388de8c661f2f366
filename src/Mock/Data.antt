-- ===== src/Mock/Data.antt =====
-- The data of dbmanager/mock/mock.go. A map is a list of keys and values, of which the first with a key
-- counts.
use kubevoltracker.Base.{
  ℕ, ℤ, String, Bool, ◌&&◌, List, [], ◌∷◌, Option, none, some, ◌==◌, int_eq, if◌then◌else◌,
}
use kubevoltracker.Resources.{ContainerDesc}

pub record NfsId : Type 0 where
  pub ip_addr : String
  pub path : String

pub record IscsiId : Type 0 where
  pub target_portal : String
  pub iqn : String
  pub lun : ℤ
  pub fs_type : String

pub record PodAttrs : Type 0 where
  pub name : String
  pub create_time : ℕ
  pub namespace : String
  pub uid : String
  pub containers : List ContainerDesc

pub record PvAttrs : Type 0 where
  pub name : String
  pub create_time : ℕ
  pub nfs_id : ℤ
  pub iscsi_id : ℤ
  pub uid : String
  pub storage : ℕ

pub record PvcAttrs : Type 0 where
  pub name : String
  pub create_time : ℕ
  pub namespace : String
  pub uid : String
  pub storage : ℕ

pub record MockManager : Type 0 where
  pub nfs_id_map : List (NfsId × ℕ)
  pub iscsi_id_map : List (IscsiId × ℕ)
  pub last_nfs_id : ℕ
  pub last_iscsi_id : ℕ
  pub pod_for_uid : List (String × PodAttrs)
  pub pv_for_uid : List (String × PvAttrs)
  pub pvc_for_uid : List (String × PvcAttrs)
  pub deletions : ℕ
  pub invalid_rvs : Bool

abbrev pub same_nfs : NfsId → NfsId → Bool
same_nfs a b = a.ip_addr == b.ip_addr && a.path == b.path

abbrev pub same_iscsi : IscsiId → IscsiId → Bool
same_iscsi a b =
    a.target_portal == b.target_portal
    && (a.iqn == b.iqn && (int_eq a.lun b.lun && a.fs_type == b.fs_type))

module _ {K V : Type 0} (same : K → K → Bool) where
  abbrev pub lookup : K → List (K × V) → Option V
  lookup k [] = none
  lookup k ((k', v) ∷ m) = if same k' k then some v else lookup k m

  abbrev pub remove : K → List (K × V) → List (K × V)
  remove k [] = []
  remove k ((k', v) ∷ m) = if same k' k then remove k m else (k', v) ∷ remove k m

  abbrev pub put : K → V → List (K × V) → List (K × V)
  put k v m = (k, v) ∷ remove k m
