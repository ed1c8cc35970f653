-- ===== src/Supervisor.antt =====
-- Supervisor of internal/codexappgateway/supervisor/supervisor.go: one subprocess per workspace. A
-- handle is a number; the sections that hold the lock are steps, and what happens between them (minting
-- a token, building the configuration, the S3 transfers, the spawn) gives their arguments. The
-- directories that were made and not yet removed are in `dirs`, those of a spawn under way included. The
-- removal of a directory, which follows the release of the lock and which nothing else looks at, counts
-- to the step that gives the directory up, and succeeds.
pub mod Owned
use cli_server.Common.{
  ℕ, ◌≡◌, suc, Option, some, none, List, [], ◌∷◌, Bool, true, false, not, if◌then◌else◌, ◌==◌,
  string_eq, nat_eq, String, is_nil,
}
use cli_server.Common.Dict.{Dict, get, put, remove, empty}
use cli_server.Common.Text.{Text, text_eq}

-- `handle` and `codex_home` have the number of their spawn.
pub record Entry : Type 0 where
  pub handle : ℕ
  pub codex_home : ℕ
  pub last_active : ℕ
  pub loopback_token : Text

-- `dirs` has the workspace of each directory, `spawned` counts the directories that were made.
pub record Supervisor : Type 0 where
  pub children : Dict String Entry
  pub dirs : Dict ℕ String
  pub spawned : ℕ

unfoldable pub new_supervisor : Supervisor
new_supervisor = record { children = empty; dirs = empty; spawned = 0 }

-- LookupWorkspaceForLoopbackToken, over the entries of the map in some order
unfoldable pub find_token : List (String × Entry) → Text → Option String
find_token [] token = none
find_token ((ws, e) ∷ es) token = if e.loopback_token == token then some ws else find_token es token

unfoldable pub lookup_workspace_for_loopback_token : Supervisor → Text → Option String
unfolding find_token
lookup_workspace_for_loopback_token s token =
    if is_nil token then none else find_token s.children.entries token

abbrev pub remove_dir : Supervisor → ℕ → Supervisor
remove_dir s d = record s { dirs = remove s.dirs d }

-- What the first section of EnsureSubprocess found: a live child, or the need to spawn.
pub data Ensured : Type 0 where
  alive : ℕ → Ensured
  must_spawn : Ensured

abbrev pub ensure_entry : Supervisor → ℕ → String → Bool → Option Entry → Supervisor × Ensured
ensure_entry s now ws is_alive none = (s, must_spawn)
ensure_entry s now ws is_alive (some e) =
    if is_alive
    then (
      record s { children = put s.children ws (record e { last_active = now }) },
      alive e.handle,
    )
    else (remove_dir (record s { children = remove s.children ws }) e.codex_home, must_spawn)

-- EnsureSubprocess up to the spawn path; `is_alive` is IsAlive of the entry's handle
unfoldable pub ensure : Supervisor → ℕ → String → Bool → Supervisor × Ensured
ensure s now ws is_alive = ensure_entry s now ws is_alive (get s.children ws)

-- HomeMgr.NewTmpDir of a spawn
unfoldable pub make_dir : Supervisor → String → Supervisor
make_dir s ws = record s { dirs = put s.dirs s.spawned ws; spawned = suc s.spawned }

-- the end of a spawn whose download, configuration or start failed
unfoldable pub spawn_failed : Supervisor → ℕ → Supervisor
spawn_failed s d = remove_dir s d

abbrev pub commit_entry : Supervisor → ℕ → String → ℕ → Text → Option Entry → Supervisor × ℕ
commit_entry s now ws d token none =
    let e : Entry = record {
      handle = d;
      codex_home = d;
      last_active = now;
      loopback_token = token;
    } in
    (record s { children = put s.children ws e }, d)
commit_entry s now ws d token (some e) = (
  remove_dir (record s { children = put s.children ws (record e { last_active = now }) }) d,
  e.handle,
)

-- The last section of EnsureSubprocess, with the handle that it returns: the loser of a race discards
-- its own spawn.
unfoldable pub commit : Supervisor → ℕ → String → ℕ → Text → Supervisor × ℕ
commit s now ws d token = commit_entry s now ws d token (get s.children ws)

abbrev pub touch_child : Supervisor → ℕ → String → Option Entry → Supervisor
touch_child s now ws none = s
touch_child s now ws (some e) = record s {
  children = put s.children ws (record e { last_active = now });
}

unfoldable pub touch : Supervisor → ℕ → String → Supervisor
touch s now ws = touch_child s now ws (get s.children ws)

abbrev pub shutdown_entry : Supervisor → String → Option Entry → Supervisor
shutdown_entry s ws none = s
shutdown_entry s ws (some e) =
    remove_dir (record s { children = remove s.children ws }) e.codex_home

-- Shutdown, whether the stop and the upload succeed or not
unfoldable pub shutdown : Supervisor → String → Supervisor
shutdown s ws = shutdown_entry s ws (get s.children ws)
