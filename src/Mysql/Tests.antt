-- ===== src/Mysql/Tests.antt =====
-- Concrete tables, servers and schedules of failures, on which the theorems about dbmanager/mysql are
-- applied.
pub mod Deeds
pub mod Sources
pub mod Retries
pub mod Checks
pub mod Orders
use kubevoltracker.Base.{
  ℕ, pos, String, ◌≡◌, refl, List, [], ◌∷◌, Option, none, some, Bool, false, true, ◌||◌, ◌&&◌, ◌==◌,
  if◌then◌else◌,
}
use kubevoltracker.Mysql.Schema.{Pvc, Tables, empty}
use kubevoltracker.Mysql.Conn.{Conn, Err, mysql, plain}
use kubevoltracker.Mysql.Sql.{Server}

abbrev pub inet_aton : String → Option ℕ
inet_aton host = if host == "10.0.0.1" then some 167772161 else none

-- a server on texts without wildcards
abbrev pub server : Server
server = record { like = λ value pattern. value == pattern; inet_aton = inet_aton }

-- a server that knows one pattern, and one text that matches it
abbrev pub pattern_server : Server
pattern_server = record {
  like = λ value pattern. value == pattern || (pattern == "/vol_1" && value == "/vola1");
  inet_aton = inet_aton;
}

abbrev pub claim : Pvc
claim = record {
  uid = "pvc-1";
  name = some "data";
  create_time = some 5;
  delete_time = none;
  bind_time = some 6;
  namespace = some "default";
  storage = some 100;
  access_modes = some "ReadWriteOnce";
  json = some "{}";
  pv_uid = some "pv-1";
}

abbrev pub tables : Tables
tables = record empty {
  pvc = claim ∷ [];
  pv =
      record {
        uid = "pv-1";
        name = "volume";
        create_time = 4;
        delete_time = none;
        storage = 100;
        access_modes = "ReadWriteOnce";
        json = "{}";
        nfs_id = pos 1;
        iscsi_id = pos 0;
      }
      ∷ [];
  nfs = record { id = 1; ip_addr = 167772161; path = "/exports" } ∷ [];
  pod =
      record {
        uid = "pod-1";
        name = "web";
        create_time = 7;
        delete_time = none;
        namespace = "default";
        json = "{}";
      }
      ∷ [];
  pod_mount =
      record {
        pod_uid = "pod-1";
        pvc_uid = some "pvc-1";
        container_name = "nginx";
        pvc_name = "data";
        read_only = false;
      }
      ∷ [];
  resource_version =
      record { resource = "pods"; namespace = "default"; resource_version = "17" } ∷ [];
}

abbrev pub connected : List (Option Err) → Tables → Conn
connected faults t = record {
  tables = t;
  saved = t;
  in_tx = false;
  next_nfs = 2;
  next_iscsi = 1;
  last_insert_id = 0;
  faults = faults;
  slept = 0;
  captured = pos 0;
}

-- a server that fails no call
abbrev pub calm : Conn
calm = connected [] tables

-- a deadlock at once, then a failed statement
abbrev pub failing : Conn
failing = connected (some (mysql 1213) ∷ none ∷ some (plain "bad connection") ∷ []) tables
