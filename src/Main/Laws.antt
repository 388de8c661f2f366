-- ===== src/Main/Laws.antt =====
-- How the main program ends.
use kubevoltracker.Base.{
  ℕ, String, ◌≡◌, ◌≢◌, refl, ap, ne_false, true, false, List, [], ◌∷◌, map, Option, some, Among,
  any, nat_eq,
}
use kubevoltracker.Go.{returned}
use kubevoltracker.Resources.{pods, pvs, pvcs}
use kubevoltracker.ApiClient.{new_api_client}
use kubevoltracker.Mysql.Setup.{
  Db, MySqlManager, new_params, new_for_db, new, set_up, connection_string, destroy, unprepared,
}
use kubevoltracker.Watcher.Channels
use kubevoltracker.Watcher.Channels.{Watcher, Watch, watch, new_watcher}
use kubevoltracker.Watcher.Channels.Laws.{Reachable, begun, watched}
use kubevoltracker.Watcher.Channels.Running.{destroy_stops_all}
use kubevoltracker.Main.{
  Credentials, defaults, parse_flags, watch_all, created, create_watcher, with_watcher, main,
}

-- The handle is new, and the server answers at once and prepares every statement.
abbrev pub calm_db : Db
calm_db = record {
  pings = [];
  prepares = [];
  statements = 0;
  closed = [];
  is_open = true;
  slept = 0;
}

-- A watch for each of the three types has been started, and all are told to stop.
abbrev pub WatchedAll : Watcher → Type 0
WatchedAll w =
    (map (λ (g : Watch). g.resource) w.watches ≡ pods ∷ pvs ∷ pvcs ∷ [])
    × ((g : Watch) → Among g w.watches → any (nat_eq g.stop) w.closed ≡ true)

-- The handle is closed; the statements of updates are not.
abbrev pub ClosedBut : MySqlManager → Type 0
ClosedBut m =
    (a b : ℕ) × (m.db.is_open ≡ false)
    × (m.update_statements ≡ some (("pvc", b) ∷ ("pv", a) ∷ []))
    × (any (nat_eq a) m.db.closed ≡ false)
    × (any (nat_eq b) m.db.closed ≡ false)

created_for :
    (master : String) → master ≢ "" → create_watcher true "" master ≡ created (new_watcher "")
unfolding create_watcher
created_for master j = rw (ne_false master "" j) refl

watched_all : Reachable "" (watch_all (new_watcher ""))
watched_all = watched pvcs false (watched pvs false (watched pods false begun))

-- The addresses of the database and of the master are given, all flags are known, and the database is
-- opened with the credentials that the flags give, answers and prepares every statement. Then the
-- main program, when it is told to end, has started one watch for each of the three resource types
-- and closed their channels, and has closed the database; but it has not closed the two prepared
-- statements of updates.
pub main_ends :
    (open_db : String → Option Db) (mysql_ip master : String) (settings : List (String × String))
    (c : Credentials)
    → mysql_ip ≢ ""
    → master ≢ ""
    → parse_flags settings defaults ≡ some c
    → open_db (connection_string c.user c.password mysql_ip "kubevoltracker" "parseTime=true")
      ≡ some calm_db
    → (w : Watcher) × (m : MySqlManager) × (main open_db mysql_ip master settings ≡ returned (w, m))
      × WatchedAll w
      × ClosedBut m
unfolding main new new_for_db new_params set_up destroy watch new_api_client Channels.destroy
main_ends open_db mysql_ip master settings c i j p o =
    let started : main open_db mysql_ip master settings
        ≡ returned (
          (Channels.destroy (watch_all (new_watcher ""))).1,
          destroy (set_up (unprepared calm_db)).1,
        ) =
      rw (ne_false mysql_ip "" i, ne_false master "" j, p, o)
        (ap (with_watcher (set_up (unprepared calm_db)).1) (created_for master j)) in
    let ran = Channels.destroy (watch_all (new_watcher "")) in
    (
      ran.1,
      destroy (set_up (unprepared calm_db)).1,
      started,
      (refl, (λ g n. (destroy_stops_all "" (watch_all (new_watcher "")) g watched_all n).1)),
      (15, 16, refl, refl, refl, refl),
    )
