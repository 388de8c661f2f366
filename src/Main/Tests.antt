-- ===== src/Main/Tests.antt =====
-- The theorem about the main program, on a command line with two flags.
use kubevoltracker.Base.{String, ◌≡◌, refl, List, [], ◌∷◌, some}
use kubevoltracker.Go.{returned}
use kubevoltracker.Mysql.Setup.{MySqlManager}
use kubevoltracker.Watcher.Channels.{Watcher}
use kubevoltracker.Main.{parse_flags, main}
use kubevoltracker.Main.Laws.{calm_db, WatchedAll, ClosedBut, main_ends}

abbrev settings : List (String × String)
settings = ("u", "reader") ∷ ("username", "tracker") ∷ []

main_ends_example :
    (w : Watcher) × (m : MySqlManager) × (main
        (λ connection. some calm_db)
        "10.0.0.3"
        "10.0.0.4:8080"
        settings
      ≡ returned (w, m))
    × WatchedAll w
    × ClosedBut m
unfolding parse_flags
main_ends_example =
    main_ends (λ connection. some calm_db) "10.0.0.3" "10.0.0.4:8080" settings
      (record { user = "tracker"; password = "root" }) (λ e. cc) (λ e. cc) refl refl
