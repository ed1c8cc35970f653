-- ===== src/Examples/Children.antt =====
-- Two spawns for one workspace, of which the second loses the race.
use cli_server.Common.{ℕ, String, ◌≡◌, refl, some, string_eq, nat_eq}
use cli_server.Common.Text.{codes}
use cli_server.Common.Dict.{Dict, get, put, remove, find, without, empty}
use cli_server.Supervisor.{Supervisor, new_supervisor, make_dir, commit}
use cli_server.Supervisor.Owned.{Reach, begun, dir_made, committed, IsOwned, Reach-IsOwned}

abbrev both_made : Supervisor
both_made = make_dir (make_dir new_supervisor "w") "w"

-- the directories of both spawns
abbrev both_spawning : Dict ℕ String
both_spawning = put (put empty 0 "w") 1 "w"

first_spawning : get both_spawning 0 ≡ some "w"
unfolding get put find without empty
first_spawning = refl

second_spawning : get (remove both_spawning 0) 1 ≡ some "w"
unfolding get put remove find without empty
second_spawning = refl

raced-Reach :
    Reach
      (commit (commit both_made 5 "w" 0 (codes "a")).0 6 "w" 1 (codes "b")).0
      (remove (remove both_spawning 0) 1)
unfolding make_dir new_supervisor
raced-Reach =
    committed 6 "w" 1 (codes "b")
      (committed 5 "w" 0 (codes "a") (dir_made "w" (dir_made "w" begun)) first_spawning)
      second_spawning

first_kept :
    get (commit (commit both_made 5 "w" 0 (codes "a")).0 6 "w" 1 (codes "b")).0.dirs 0 ≡ some "w"
unfolding commit make_dir new_supervisor get put remove find without empty
first_kept = refl

Reach-IsOwned_example :
    IsOwned
      (commit (commit both_made 5 "w" 0 (codes "a")).0 6 "w" 1 (codes "b")).0
      (remove (remove both_spawning 0) 1)
      0
      "w"
Reach-IsOwned_example = Reach-IsOwned 0 "w" raced-Reach first_kept
