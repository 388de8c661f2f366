-- ===== src/Mysql/Schema.antt =====
-- dbmanager/mysql/schema.sql: the tables that the prepared statements read and write, a list of
-- rows each, in the order of insertion. A nullable column is an `Option`. The surrogate ids of
-- `container` and `resource_version`, which no statement reads, are left out. Times are numbers.
use kubevoltracker.Base.{ℕ, ℤ, String, Bool, List, [], Option}

pub record Nfs : Type 0 where
  pub id : ℕ
  pub ip_addr : ℕ
  pub path : String

pub record Iscsi : Type 0 where
  pub id : ℕ
  pub target_portal : String
  pub iqn : String
  pub lun : ℤ
  pub fs_type : String

pub record Pv : Type 0 where
  pub uid : String
  pub name : String
  pub create_time : ℕ
  pub delete_time : Option ℕ
  pub storage : ℕ
  pub access_modes : String
  pub json : String
  pub nfs_id : ℤ
  pub iscsi_id : ℤ

pub record Pvc : Type 0 where
  pub uid : String
  pub name : Option String
  pub create_time : Option ℕ
  pub delete_time : Option ℕ
  pub bind_time : Option ℕ
  pub namespace : Option String
  pub storage : Option ℕ
  pub access_modes : Option String
  pub json : Option String
  pub pv_uid : Option String

pub record Pod : Type 0 where
  pub uid : String
  pub name : String
  pub create_time : ℕ
  pub delete_time : Option ℕ
  pub namespace : String
  pub json : String

pub record PodMount : Type 0 where
  pub pod_uid : String
  pub pvc_uid : Option String
  pub container_name : String
  pub pvc_name : String
  pub read_only : Bool

pub record Container : Type 0 where
  pub pod_uid : String
  pub name : String
  pub image : String
  pub command : String

pub record ResourceVersion : Type 0 where
  pub resource : String
  pub namespace : String
  pub resource_version : String

pub record Tables : Type 0 where
  pub nfs : List Nfs
  pub iscsi : List Iscsi
  pub pv : List Pv
  pub pvc : List Pvc
  pub pod : List Pod
  pub pod_mount : List PodMount
  pub container : List Container
  pub resource_version : List ResourceVersion

-- the tables as `create_db.sh` leaves them
abbrev pub empty : Tables
empty = record {
  nfs = [];
  iscsi = [];
  pv = [];
  pvc = [];
  pod = [];
  pod_mount = [];
  container = [];
  resource_version = [];
}
