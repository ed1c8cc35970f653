-- ===== src/Relay/Pairing/Answers.antt =====
-- What the handlers of one ticket are answered, whatever arrives and in whatever order.
use cli_server.Common.{
  ℕ, zero, suc, ◌+◌, ◌≤◌, ◌≡◌, refl, inl, inr, Bool, true, false, not, ◌&&◌, none, List, [], ◌∷◌,
  arith, Bool-cases, Option-cases,
}
use cli_server.Common.Int.{ℤ, pos, negsuc}
use cli_server.Relay.Pairing.{
  Relay, Claim, sent, answered, streamed, stats, Event, put_request, get_request, put_ready,
  get_ready, deadline, copy, is_sent, copied, exceeds, copy_failure, stream, step, run, new_relay,
}

-- The bytes that a limit admits: one more than the limit, so that an overflow shows.
abbrev pub WithinLimit : ℤ → ℕ → Type 0
WithinLimit (pos zero) n = Unit
WithinLimit (negsuc m) n = Unit
WithinLimit (pos (suc m)) n = n ≤ suc m + 1

-- A payload that does not exceed the limit.
abbrev pub Fits : ℤ → ℕ → Type 0
Fits (pos zero) n = Unit
Fits (negsuc m) n = Unit
Fits (pos (suc m)) n = n ≤ suc m

-- What a 200 for the PUT says.
abbrev pub Delivered : Relay → Claim → Type 0
Delivered r (answered (stats n)) =
    (r.finished ≡ true)
    × (r.get ≡ answered streamed)
    × (r.bytes ≡ n)
    × (r.failure ≡ none)
    × Fits r.max_bytes n
Delivered r c = Unit

pub record IsSound (r : Relay) : Type 0 where
  pub released : r.finished ≡ true → (is_sent r.put ≡ false) × (is_sent r.get ≡ false)
  pub delivered : Delivered r r.put
  pub limited : WithinLimit r.max_bytes r.bytes

new_relay-IsSound : (m : ℤ) → IsSound (new_relay m)
unfolding new_relay
new_relay-IsSound (pos zero) = record { released = λ h. cc; delivered = tt; limited = tt }
new_relay-IsSound (pos (suc m)) = record {
  released = λ h. cc;
  delivered = tt;
  limited = omega arith;
}
new_relay-IsSound (negsuc m) = record { released = λ h. cc; delivered = tt; limited = tt }

copied-WithinLimit : (m : ℤ) (n : ℕ) → WithinLimit m (copied m n)
unfolding copied
copied-WithinLimit (pos zero) n = tt
copied-WithinLimit (pos (suc m)) n = ground arith
copied-WithinLimit (negsuc m) n = tt

none-Fits : (m : ℤ) (n : ℕ) (io_error : Bool) → copy_failure m n io_error ≡ none → Fits m n
unfolding copy_failure exceeds
none-Fits (pos zero) n e h = tt
none-Fits (pos (suc m)) n e h = ground arith
none-Fits (negsuc m) n e h = tt

-- With copied and copy_failure shut.
stream-Delivered :
    (r : Relay) (n : ℕ) (e : Bool)
    → r.put ≡ sent
    → r.get ≡ sent
    → Delivered (stream r n e).0 (stream r n e).0.put
stream-Delivered r n e hp hg =
    elim (Option-cases (copy_failure r.max_bytes (copied r.max_bytes n) e)) [
      | inl q ↦
          let fits = none-Fits r.max_bytes (copied r.max_bytes n) e q in
          unfold stream in rw (hp, hg, q) (refl, refl, refl, refl, fits)
      | inr (f, q) ↦ unfold stream in rw (hp, hg, q) tt
    ]

stream-IsSound :
    (r : Relay) (n : ℕ) (e : Bool) → r.put ≡ sent → r.get ≡ sent → IsSound (stream r n e).0
unfolding stream
stream-IsSound r n e hp hg = record {
  released = λ _. ground arith;
  delivered = stream-Delivered r n e hp hg;
  limited = copied-WithinLimit r.max_bytes n;
}

step-IsSound : (r : Relay) (e : Event) → IsSound r → IsSound (step r e).0
unfolding step
step-IsSound r put_request v = ground arith
step-IsSound r get_request v = ground arith
step-IsSound r put_ready v = ground arith
step-IsSound r get_ready v = ground arith
step-IsSound r deadline v = ground arith
step-IsSound r (copy n e) v =
    elim (Bool-cases (not r.finished && (is_sent r.put && is_sent r.get))) [
      | inl t ↦ rw t (stream-IsSound r n e (ground (arith, t)) (ground (arith, t)))
      | inr f ↦ rw f v
    ]

run-IsSound_from : (r : Relay) (es : List Event) → IsSound r → IsSound (run r es).0
unfolding run
run-IsSound_from r [] v = v
run-IsSound_from r (e ∷ es) v = run-IsSound_from (step r e).0 es (step-IsSound r e v)

pub run-IsSound : (max_bytes : ℤ) (es : List Event) → IsSound (run (new_relay max_bytes) es).0
run-IsSound max_bytes es = run-IsSound_from (new_relay max_bytes) es (new_relay-IsSound max_bytes)
