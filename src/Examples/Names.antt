-- ===== src/Examples/Names.antt =====
-- Names of environments, approval requests, and a round of the idle watcher.
use cli_server.Common.{
  ◌≡◌, ◌↔◌, refl, true, false, String, Option, none, some, List, [], ◌∷◌, ok, if◌then◌else◌, ◌==◌,
  string_eq, nat_eq,
}
use cli_server.Common.Dict.{Dict, get, find}
use cli_server.Names.Resolver.{
  Resolver, ConnectedEntry, no_environment, resolve, found_or, last_of, resolve_miss,
}
use cli_server.Names.Approval.{
  Frame, method_item_user_input, answer_in, accepted_answers, listed, methods, try_reply,
  try_reply_iff,
}
use cli_server.Lifecycle.{Outcome, check, is_listed, left_by, check_statuses}

abbrev resolver : Resolver
resolver = record { cache_ttl = 10; cache = record { entries = ("a", "x") ∷ [] }; cached_at = 100 }

abbrev entries : List ConnectedEntry
entries = record { exe_id = "y"; name = "b" } ∷ record { exe_id = "z"; name = "b" } ∷ []

b_missing : get resolver.cache "b" ≡ none
unfolding get find
b_missing = refl

resolve_miss_example :
    ((resolve resolver 101 "b" (ok entries)).fetched ≡ true)
    × ((resolve resolver 101 "b" (ok entries)).answer
        ≡ found_or (no_environment "b") (last_of "b" entries none))
resolve_miss_example = resolve_miss resolver 101 "b" entries refl b_missing

a_cached : get resolver.cache "a" ≡ some "x"
unfolding get find
a_cached = refl

-- Stand-ins for the JSON package: every frame is one request, and a reply is its result.
abbrev decode : String → Option Frame
decode s = some (record { id = "7"; method = method_item_user_input })

abbrev encode : String → String → Option String
encode i result = some result

try_reply_iff_example : (try_reply decode encode "{}" ≡ some "{\"answers\":{}}") ↔ (
    (f : Frame) × (a : String) × (decode "{}" ≡ some f)
    × (listed f.method methods ≡ true)
    × (answer_in f.method accepted_answers ≡ some a)
    × ((f.id == "") ≡ false)
    × ((f.id == "null") ≡ false)
    × (encode f.id a ≡ some "{\"answers\":{}}"))
try_reply_iff_example = try_reply_iff decode encode "{}" "{\"answers\":{}}"

abbrev outcome : String → Outcome
outcome id = record { marked = true; process_paused = id == "s"; reverted = true; finished = true }

abbrev statuses : Dict String String
statuses = record { entries = ("s", "running") ∷ ("t", "running") ∷ [] }

check_statuses_example : get (check 30 outcome (some ("s" ∷ "t" ∷ [])) statuses) "t" ≡ (
    if is_listed "t" ("s" ∷ "t" ∷ [])
    then left_by (outcome "t") (get statuses "t")
    else get statuses "t")
check_statuses_example = check_statuses 30 outcome ("s" ∷ "t" ∷ []) statuses "t" refl
