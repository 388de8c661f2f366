-- ===== src/Main.antt =====
-- kubevoltracker.go: the main program, from its flags to the end after a signal.
pub mod Laws
pub mod Tests
use kubevoltracker.Watcher.Channels
use kubevoltracker.Mysql.Setup.{Db, MySqlManager, new, destroy}
use kubevoltracker.Base.{
  String, Bool, true, false, List, [], ◌∷◌, Option, none, some, ◌==◌, if◌then◌else◌, ◌||◌,
}
use kubevoltracker.Go.{Outcome, returned, exited, panicked, hung}
use kubevoltracker.Resources.{pods, pvs, pvcs}
use kubevoltracker.ApiClient.{ApiClient, new_api_client}
use kubevoltracker.Watcher.Channels.{Watcher, new_watcher, watch}

-- `NewWatcher`: the error, or the watcher; `has_dbm` says that dbm is not nil
pub data Created : Type 0 where
  failed : String → Created
  created : Watcher → Created

abbrev pub with_client : Option ApiClient → String → Created
with_client none namespace = failed "No master IP and port specified."
with_client (some client) namespace = created (new_watcher namespace)

unfoldable pub create_watcher : Bool → String → String → Created
unfolding new_api_client
create_watcher false namespace master = failed "dbm cannot be nil when calling NewWatcher."
create_watcher true namespace master = with_client (new_api_client master) namespace

-- the variables that the flags set
pub record Credentials : Type 0 where
  pub user : String
  pub password : String

abbrev pub defaults : Credentials
defaults = record { user = "root"; password = "root" }

-- A flag with its value; for an unknown flag flag.Parse ends the process.
unfoldable pub set_flag : String → String → Credentials → Option Credentials
set_flag name value c =
    if name == "username" || name == "u"
    then some (record c { user = value })
    else if name == "password" || name == "p"
    then some (record c { password = value })
    else none

abbrev pub then_flags : Option Credentials → (Credentials → Option Credentials) → Option Credentials
then_flags none next = none
then_flags (some c) next = next c

-- flag.Parse on a command line that is split into flags with their values
unfoldable pub parse_flags : List (String × String) → Credentials → Option Credentials
unfolding set_flag
parse_flags [] c = some c
parse_flags ((name, value) ∷ settings) c = then_flags (set_flag name value c) (parse_flags settings)

-- the three watches; their errors are dropped
abbrev pub watch_all : Watcher → Watcher
watch_all w = (watch pvcs false (watch pvs false (watch pods false w).1).1).1

-- the deferred `Destroy` of the watcher, which ends with that of the data store
abbrev pub destroyed :
    MySqlManager → Outcome (Unit {0}) × Watcher → Outcome (Watcher × MySqlManager)
destroyed m (returned _, w) = returned (w, destroy m)
destroyed m (exited, w) = exited
destroyed m (panicked, w) = panicked
destroyed m (hung, w) = hung

-- the watches, until the signal to end arrives
abbrev pub with_watcher : MySqlManager → Created → Outcome (Watcher × MySqlManager)
with_watcher m (failed message) = exited
with_watcher m (created w) = destroyed m (Channels.destroy (watch_all w))

abbrev pub with_manager : String → Outcome MySqlManager → Outcome (Watcher × MySqlManager)
with_manager master (returned m) = with_watcher m (create_watcher true "" master)
with_manager master exited = exited
with_manager master panicked = panicked
with_manager master hung = hung

abbrev pub with_flags :
    (String → Option Db) → String → String → Option Credentials → Outcome (Watcher × MySqlManager)
with_flags open_db mysql_ip master none = exited
with_flags open_db mysql_ip master (some c) =
    with_manager master (new open_db c.user c.password mysql_ip)

-- `init`, which wants both addresses, and `main`, up to the signal and what it defers
unfoldable pub main :
    (String → Option Db)
    → String
    → String
    → List (String × String)
    → Outcome (Watcher × MySqlManager)
unfolding create_watcher parse_flags
main open_db mysql_ip master settings =
    if mysql_ip == "" || master == ""
    then exited
    else with_flags open_db mysql_ip master (parse_flags settings defaults)
