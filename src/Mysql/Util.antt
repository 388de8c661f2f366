-- ===== src/Mysql/Util.antt =====
-- dbmanager/mysql/util.go. The access modes of the Kubernetes API are strings.
use kubevoltracker.Base.{String, List}
use kubevoltracker.Util.{join}

pub get_access_mode_string : List String → String
unfolding join
get_access_mode_string access_modes = join access_modes ","
