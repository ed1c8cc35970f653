-- ===== src/Relay/Pairing/Progress.antt =====
-- Every request at a ticket is answered, and once.
use cli_server.Common.{ℕ, ◌+◌, ◌≡◌, refl, Bool, true, List, [], ◌∷◌, arith, length, length-append}
use cli_server.Common.Int.{ℤ}
use cli_server.Relay.Pairing.{
  Relay, Claim, unclaimed, claimed, sent, answered, Event, put_request, get_request, put_ready,
  get_ready, deadline, copy, step, run, new_relay,
}
use cli_server.Relay.Pairing.Answers.{IsSound, run-IsSound}

-- 1 while the handler that holds the claim has no answer
abbrev pub waiting : Claim → ℕ
waiting unclaimed = 0
waiting claimed = 1
waiting sent = 1
waiting (answered a) = 0

abbrev pub is_put_request : Event → ℕ
is_put_request put_request = 1
is_put_request e = 0

abbrev pub is_get_request : Event → ℕ
is_get_request get_request = 1
is_get_request e = 0

-- how many events are requests of a kind
abbrev pub requests : (Event → ℕ) → List Event → ℕ
requests kind [] = 0
requests kind (e ∷ es) = kind e + requests kind es

-- Requests are neither lost nor answered twice.
abbrev Conserved : Relay → Event → Type 0
Conserved r e =
    (length (step r e).1.0 + waiting (step r e).0.put ≡ is_put_request e + waiting r.put)
    × (length (step r e).1.1 + waiting (step r e).0.get ≡ is_get_request e + waiting r.get)

step-Conserved : (r : Relay) (e : Event) → Conserved r e
unfolding step
step-Conserved r put_request = ground arith
step-Conserved r get_request = ground arith
step-Conserved r put_ready = ground arith
step-Conserved r get_ready = ground arith
step-Conserved r deadline = ground arith
step-Conserved r (copy n e) = ground arith

run_conserved :
    (r : Relay) (es : List Event)
    → (length (run r es).1.0 + waiting (run r es).0.put
        ≡ requests is_put_request es + waiting r.put)
      × (length (run r es).1.1 + waiting (run r es).0.get
          ≡ requests is_get_request es + waiting r.get)
unfolding run
run_conserved r [] = (refl, refl)
run_conserved r (e ∷ es) =
    let (r', (a, b)) = step r e in
    let one = step-Conserved r e in
    let more = run_conserved r' es in
    let put_sum = length-append a (run r' es).1.0 in
    let get_sum = length-append b (run r' es).1.1 in
    (omega (arith, one.0, more.0, put_sum), omega (arith, one.1, more.1, get_sum))

-- Of the PUT requests at a ticket, as of the GET requests, each has had exactly one answer, but for
-- the one that still waits, if one does.
pub run_answers :
    (max_bytes : ℤ) (es : List Event)
    → let (r, (puts, gets)) = run (new_relay max_bytes) es in
      (length puts + waiting r.put ≡ requests is_put_request es)
      × (length gets + waiting r.get ≡ requests is_get_request es)
run_answers max_bytes es =
    let h = run_conserved (new_relay max_bytes) es in
    (unfold new_relay in omega (arith, h.0), unfold new_relay in omega (arith, h.1))

-- What is left to happen at a ticket: the payload ends or the deadline fires, and both claimants go on.
abbrev pub wind_up : ℕ → Bool → List Event
wind_up n io_error = copy n io_error ∷ deadline ∷ put_ready ∷ get_ready ∷ []

wind_up_done :
    (r : Relay) (n : ℕ) (e : Bool)
    → IsSound r
    → let r' = (run r (wind_up n e)).0 in
      (r'.finished ≡ true) × (waiting r'.put ≡ 0) × (waiting r'.get ≡ 0)
unfolding run
wind_up_done r n e v = ground arith

-- After any events, once the payload has ended or the deadline has fired and each claimant has taken
-- its next step, the relay is finished and nobody waits for an answer.
pub run_terminates :
    (max_bytes : ℤ) (es : List Event) (n : ℕ) (io_error : Bool)
    → let r = (run (run (new_relay max_bytes) es).0 (wind_up n io_error)).0 in
      (r.finished ≡ true) × (waiting r.put ≡ 0) × (waiting r.get ≡ 0)
run_terminates max_bytes es n io_error =
    wind_up_done (run (new_relay max_bytes) es).0 n io_error (run-IsSound max_bytes es)
