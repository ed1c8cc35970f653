-- ===== src/Relay/Pairing.antt =====
-- One ticket's byte pump (internal/codexexecgateway/relay/relay.go): AcceptPut and AcceptGet of any
-- number of handlers, and the pairing goroutine `run`. The mutex and the unbuffered channels make the
-- atomic steps: a claim; a rendezvous of a claimant with `run`; a claimant's finding `done` closed;
-- the deadline; and the copy with the answers that follow it. What the peers do (how many bytes
-- the PUT body has, whether the copy fails, when the deadline fires) comes with the events.
pub mod Answers
pub mod Progress
use cli_server.Common.{
  ℕ, zero, suc, ◌+◌, ◌≤◌, Bool, true, false, not, ◌&&◌, ◌||◌, Option, none, some, List, [], ◌∷◌,
  ◌++◌, if◌then◌else◌, ltb, leb,
}
use cli_server.Common.Int.{ℤ, pos, negsuc}

-- What a handler writes. `streamed` is status 0: the bytes went out by the GET's writer.
pub data Answer : Type 0 where
  locked gone timed_out streamed : Answer
  stats : ℕ → Answer
  copy_error : ℕ → Answer

abbrev pub status : Answer → ℕ
status locked = 423
status gone = 410
status timed_out = 408
status streamed = 0
status (stats n) = 200
status (copy_error n) = 500

-- The handler that holds the claim of a side: none yet, before the channel send, waiting for its
-- `req.done`, or answered.
pub data Claim : Type 0 where
  unclaimed claimed sent : Claim
  answered : Answer → Claim

pub data Failure : Type 0 where
  timeout io_failure exceeded_max_bytes : Failure

pub record Relay : Type 0 where
  pub max_bytes : ℤ
  pub put : Claim
  pub get : Claim
  -- `done` is closed
  pub finished : Bool
  pub bytes : ℕ
  pub failure : Option Failure

unfoldable pub new_relay : ℤ → Relay
new_relay max_bytes = record {
  max_bytes = max_bytes;
  put = unclaimed;
  get = unclaimed;
  finished = false;
  bytes = 0;
  failure = none;
}

pub data Event : Type 0 where
  -- a request arrives and asks for the claim
  put_request get_request : Event
  -- the claimant goes on: to the rendezvous, or away if `done` is closed
  put_ready get_ready : Event
  deadline : Event
  -- the PUT body yields so many bytes before it ends or, by the flag, before the copy fails
  copy : ℕ → Bool → Event

-- under r.mu: the first takes the claim, and a later request is answered at once
abbrev pub request : Claim → Claim × List Answer
request unclaimed = (claimed, [])
request claimed = (claimed, locked ∷ [])
request sent = (sent, locked ∷ [])
request (answered a) = (answered a, locked ∷ [])

-- the two selects of AcceptPut and AcceptGet
abbrev pub ready : Bool → Claim → Claim × List Answer
ready finished unclaimed = (unclaimed, [])
ready true claimed = (answered gone, gone ∷ [])
ready false claimed = (sent, [])
ready finished sent = (sent, [])
ready finished (answered a) = (answered a, [])

abbrev pub is_sent : Claim → Bool
is_sent sent = true
is_sent c = false

-- `close(req.done)` for a side that `run` holds
abbrev pub answer : Answer → Claim → Claim × List Answer
answer a unclaimed = (unclaimed, [])
answer a claimed = (claimed, [])
answer a sent = (answered a, a ∷ [])
answer a (answered b) = (answered b, [])

-- io.Copy from the limited reader: how many of `available` bytes pass
unfoldable pub copied : ℤ → ℕ → ℕ
copied (pos zero) available = available
copied (negsuc m) available = available
copied (pos (suc m)) available = if leb available (suc m + 1) then available else suc m + 1

-- `r.MaxBytes > 0 && n > r.MaxBytes`
unfoldable pub exceeds : ℤ → ℕ → Bool
exceeds (pos zero) n = false
exceeds (negsuc m) n = false
exceeds (pos (suc m)) n = ltb (suc m) n

unfoldable pub copy_failure : ℤ → ℕ → Bool → Option Failure
copy_failure max n io_error =
    if io_error then some io_failure else if exceeds max n then some exceeded_max_bytes else none

unfoldable pub put_answer : ℕ → Option Failure → Answer
put_answer n none = stats n
put_answer n (some f) = copy_error n

-- The answers of the PUT handlers, and those of the GET handlers.
abbrev pub Answers : Type 0
Answers = List Answer × List Answer

-- `run` at the deadline
unfoldable pub expire : Relay → Relay × Answers
expire r =
    let (put', a) = answer timed_out r.put in
    let (get', b) = answer timed_out r.get in
    (record r { put = put'; get = get'; finished = true; failure = some timeout }, (a, b))

-- `run` behind its loop
unfoldable pub stream : Relay → ℕ → Bool → Relay × Answers
unfolding put_answer
stream r available io_error =
    let n = copied r.max_bytes available in
    let failure' = copy_failure r.max_bytes n io_error in
    let (get', b) = answer streamed r.get in
    let (put', a) = answer (put_answer n failure') r.put in
    (record r { put = put'; get = get'; finished = true; bytes = n; failure = failure' }, (a, b))

-- One event. `run` ends once, and waits for its deadline only while a side is missing.
unfoldable pub step : Relay → Event → Relay × Answers
unfolding expire stream
step r put_request = let (c, a) = request r.put in (record r { put = c }, (a, []))
step r get_request = let (c, b) = request r.get in (record r { get = c }, ([], b))
step r put_ready = let (c, a) = ready r.finished r.put in (record r { put = c }, (a, []))
step r get_ready = let (c, b) = ready r.finished r.get in (record r { get = c }, ([], b))
step r deadline = if r.finished || is_sent r.put && is_sent r.get then (r, ([], [])) else expire r
step r (copy available io_error) =
    if not r.finished && (is_sent r.put && is_sent r.get)
    then stream r available io_error
    else (r, ([], []))

unfoldable pub run : Relay → List Event → Relay × Answers
unfolding step
run r [] = (r, ([], []))
run r (e ∷ es) =
    let (r', (a, b)) = step r e in let (r'', (as', bs')) = run r' es in (r'', (a ++ as', b ++ bs'))
