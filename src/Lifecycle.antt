-- ===== src/Lifecycle.antt =====
-- Statuses of sandboxes (internal/sbxstore/state.go) and the idle watcher that pauses them
-- (internal/sbxstore/idlewatcher.go). The statuses of the database are a map; whether its statements and
-- the process manager succeed, and which sandboxes it lists as idle, are arguments. The clearing of a pod's
-- IP and the hook before a pause do not change a status.
use cli_server.Common.{
  ℕ, ◌≡◌, refl, sym, ap, ◌∙◌, inl, inr, Bool-cases, String, Bool, true, false, not, ◌||◌, Option,
  none, some, List, [], ◌∷◌, if◌then◌else◌, ◌==◌, ==_iff, string_eq, nat_eq, arith,
}
use cli_server.Common.Dict.{Dict, get, put, get-put}

abbrev pub status_creating : String
status_creating = "creating"

abbrev pub status_running : String
status_running = "running"

abbrev pub status_pausing : String
status_pausing = "pausing"

abbrev pub status_paused : String
status_paused = "paused"

abbrev pub status_resuming : String
status_resuming = "resuming"

abbrev pub status_deleting : String
status_deleting = "deleting"

abbrev pub status_offline : String
status_offline = "offline"

unfoldable pub valid_transition : String → String → Bool
valid_transition s t =
    if s == status_creating
    then t == status_running || t == status_deleting
    else if s == status_running
    then t == status_pausing || t == status_deleting || t == status_offline
    else if s == status_pausing
    then t == status_paused
    else if s == status_paused
    then t == status_resuming || t == status_deleting
    else if s == status_resuming
    then t == status_running
    else if s == status_offline
    then t == status_running || t == status_deleting
    else false

-- Whether each call for one sandbox succeeds, in the order of the calls.
pub record Outcome : Type 0 where
  pub marked : Bool
  pub process_paused : Bool
  pub reverted : Bool
  pub finished : Bool

abbrev pub update_found : Option String → Dict String String → String → String → Dict String String
update_found none db id s = db
update_found (some old) db id s = put db id s

-- UPDATE sandboxes SET status = s WHERE id = id: no row is changed for a sandbox that is not there
unfoldable pub update_row : Dict String String → String → String → Dict String String
update_row db id s = update_found (get db id) db id s

-- UpdateStatus
abbrev pub update_status : Bool → Dict String String → String → String → Dict String String
update_status true db id s = update_row db id s
update_status false db id s = db

-- the body of the loop of `check`
unfoldable pub pause_idle : (String → Outcome) → Dict String String → String → Dict String String
pause_idle outcome db id =
    if not (outcome id).marked
    then db
    else let db' = update_row db id status_pausing in
      if not (outcome id).process_paused
      then update_status (outcome id).reverted db' id status_running
      else update_status (outcome id).finished db' id status_paused

unfoldable pub pause_all :
    (String → Outcome) → Dict String String → List String → Dict String String
unfolding pause_idle
pause_all outcome db [] = db
pause_all outcome db (id ∷ ids) = pause_all outcome (pause_idle outcome db id) ids

-- `none` for a list of idle sandboxes that cannot be read
abbrev pub check_listed :
    (String → Outcome) → Dict String String → Option (List String) → Dict String String
check_listed outcome db none = db
check_listed outcome db (some ids) = pause_all outcome db ids

unfoldable pub check :
    ℕ → (String → Outcome) → Option (List String) → Dict String String → Dict String String
unfolding pause_all
check timeout outcome idle db = if timeout == 0 then db else check_listed outcome db idle

-- a status where there was one
abbrev pub set_to : Option String → String → Option String
set_to none s = none
set_to (some old) s = some s

-- The status that the calls for an idle sandbox leave.
abbrev pub left_by : Outcome → Option String → Option String
left_by o before =
    if not o.marked
    then before
    else if not o.process_paused
    then (if o.reverted then set_to before status_running else set_to before status_pausing)
    else (if o.finished then set_to before status_paused else set_to before status_pausing)

get-update_row :
    (db : Dict String String) (id k s : String)
    → get (update_row db id s) k ≡ (if id == k then set_to (get db k) s else get db k)
unfolding update_row
get-update_row db id k s = get-update_found (get db id) refl
  where
    get-update_found :
        (m : Option String)
        → get db id ≡ m
        → get (update_found m db id s) k ≡ (if id == k then set_to (get db k) s else get db k)
    get-update_found none found = elim (Bool-cases (id == k)) [
      | inl e ↦
          let here : get db k ≡ none = (ap (get db) (sym ((==_iff id k).0 e)) ∙ found) in
          rw (e, here) refl
      | inr e ↦ rw e refl
    ]
    get-update_found (some old) found = elim (Bool-cases (id == k)) [
      | inl e ↦
          let here : get db k ≡ some old = (ap (get db) (sym ((==_iff id k).0 e)) ∙ found) in
          get-put db id k s ∙ (rw (e, here) refl)
      | inr e ↦ get-put db id k s ∙ (rw e refl)
    ]

get-pause_idle :
    (outcome : String → Outcome) (db : Dict String String) (id k : String)
    → get (pause_idle outcome db id) k
      ≡ (if id == k then left_by (outcome id) (get db k) else get db k)
unfolding pause_idle
get-pause_idle outcome db id k = ground (
  arith,
  get-update_row db id k status_pausing,
  get-update_row (update_row db id status_pausing) id k status_running,
  get-update_row (update_row db id status_pausing) id k status_paused,
)

unfoldable pub is_listed : String → List String → Bool
is_listed k [] = false
is_listed k (id ∷ ids) = id == k || is_listed k ids

left_by-again :
    (o : Outcome) (before : Option String) → left_by o (left_by o before) ≡ left_by o before
left_by-again o before = ground arith

get-pause_all :
    (outcome : String → Outcome) (db : Dict String String) (ids : List String) (k : String)
    → get (pause_all outcome db ids) k
      ≡ (if is_listed k ids then left_by (outcome k) (get db k) else get db k)
unfolding pause_all is_listed
get-pause_all outcome db [] k = refl
get-pause_all outcome db (id ∷ ids) k = ground (
  arith,
  get-pause_all outcome (pause_idle outcome db id) ids k,
  get-pause_idle outcome db id k,
  ==_iff id k,
  left_by-again (outcome k) (get db k),
)

-- After a round of the idle watcher with a timeout, a sandbox of the table that was listed as idle is paused
-- if every call succeeded, running if its process could not be paused and the status was set back, pausing
-- if the last update failed, and as before if the first one did; a sandbox that was not listed is as
-- before, and one that the table does not have is not added.
pub check_statuses :
    (timeout : ℕ) (outcome : String → Outcome) (ids : List String) (db : Dict String String)
    (k : String)
    → (timeout == 0) ≡ false
    → get (check timeout outcome (some ids) db) k
      ≡ (if is_listed k ids then left_by (outcome k) (get db k) else get db k)
unfolding check
check_statuses timeout outcome ids db k t = rw t (get-pause_all outcome db ids k)
