-- ===== src/Gateway/Bridge/Paired.antt =====
-- What every paired bridge request has passed.
use cli_server.Common.{
  ℕ, ◌≡◌, refl, ap, ◌∙◌, inl, inr, String, Bool, true, false, ◌||◌, Option, none, some, Result, ok,
  err, >>=-eq-ok, ◌==◌, string_eq, nat_eq, is_nil, arith, Bool-cases,
}
use cli_server.Common.Text.{Text, has_prefix, trim_prefix}
use cli_server.Gateway.Revocation.{RevokedSet, contains}
use cli_server.Gateway.Mux.{Gateway, lookup_conn}
use cli_server.Gateway.Bridge.{
  Payload, FirstFrame, Refusal, bearer_prefix, connected, owned, admit_payload, admit, resumed,
  stream_of, upgraded, handle_bridge,
}

-- The ownership check lets a request pass.
abbrev pub MayUse : Option (Result (Unit {0}) Bool) → Type 0
MayUse none = Unit
MayUse (some (err e)) = ⊥
MayUse (some (ok false)) = ⊥
MayUse (some (ok true)) = Unit

owned-ok :
    (o : Option (Result (Unit {0}) Bool)) (next : Result Refusal ℕ) (i : ℕ)
    → owned o next ≡ ok i
    → MayUse o × (next ≡ ok i)
owned-ok none next i h = (tt, h)
owned-ok (some (err e)) next i h = cc
owned-ok (some (ok false)) next i h = cc
owned-ok (some (ok true)) next i h = (tt, h)

connected-ok : (o : Option ℕ) (i : ℕ) → connected o ≡ ok i → o ≡ some i
connected-ok none i h = cc
connected-ok (some j) i h = ground arith

-- What the guards before the upgrade have seen.
pub record Admitted (verify : Text → Option Payload) (revoked : RevokedSet)
    (owns : String → String → Option (Result (Unit {0}) Bool)) (g : Gateway) (exe : String)
    (authz : Text) (i : ℕ) : Type 0 where
  pub payload : Payload
  pub bears : has_prefix authz bearer_prefix ≡ true
  pub verified : verify (trim_prefix authz bearer_prefix) ≡ some payload
  pub not_revoked : contains revoked payload.turn_id ≡ false
  pub may_use : MayUse (owns payload.workspace_id exe)
  pub found : lookup_conn g.conns exe ≡ some i

module _ (verify : Text → Option Payload) (revoked : RevokedSet)
    (owns : String → String → Option (Result (Unit {0}) Bool)) (g : Gateway) (exe : String)
    (authz : Text) where
  payload-Admitted :
      (i : ℕ) (o : Option Payload)
      → has_prefix authz bearer_prefix ≡ true
      → verify (trim_prefix authz bearer_prefix) ≡ o
      → admit_payload revoked owns g exe o ≡ ok i
      → Admitted verify revoked owns g exe authz i
  unfolding admit_payload
  payload-Admitted i none b e h = cc
  payload-Admitted i (some p) b e h = elim (Bool-cases (contains revoked p.turn_id)) [
    | inl out ↦ absurd (ground (arith, out, h))
    | inr on ↦
        let (use_ok, found) =
          owned-ok (owns p.workspace_id exe) (connected (lookup_conn g.conns exe)) i
            (ground (arith, on, h)) in
        record {
          payload = p;
          bears = b;
          verified = e;
          not_revoked = on;
          may_use = use_ok;
          found = connected-ok (lookup_conn g.conns exe) i found;
        }
  ]

  admit-Admitted :
      (i : ℕ)
      → admit verify revoked owns g exe authz ≡ ok i
      → Admitted verify revoked owns g exe authz i
  unfolding admit
  admit-Admitted i h = elim (Bool-cases (has_prefix authz bearer_prefix)) [
    | inr bare ↦ absurd (ground (arith, bare, h))
    | inl bears ↦ elim (Bool-cases (exe == "" || is_nil (trim_prefix authz bearer_prefix))) [
      | inl missing ↦ absurd (ground (arith, bears, missing, h))
      | inr there ↦
          payload-Admitted i (verify (trim_prefix authz bearer_prefix)) bears refl
            (ground (arith, bears, there, h))
    ]
  ]

resumed-ok :
    (o : Option (Bool × String)) (stream : String)
    → resumed o ≡ ok stream
    → (o ≡ some (true, stream)) × ((stream == "") ≡ false)
resumed-ok none stream h = cc
resumed-ok (some (false, s)) stream h = cc
resumed-ok (some (true, s)) stream h = ground arith

upgraded-ok :
    (o : Option (Option FirstFrame)) (stream : String)
    → upgraded o ≡ ok stream
    → (o ≡ some (some (record { is_binary = true; decoded = some (true, stream) })))
      × ((stream == "") ≡ false)
unfolding stream_of
upgraded-ok none stream h = cc
upgraded-ok (some none) stream h = cc
upgraded-ok (some (some f)) stream h = elim (Bool-cases f.is_binary) [
  | inr no_binary ↦ absurd (ground (arith, no_binary, h))
  | inl binary ↦
      let (e, s) = resumed-ok f.decoded stream (ground (arith, binary, h)) in
      (ground (arith, binary, e), s)
]

-- A bridge request is paired with a connection and a stream only if it bears a token that verifies, whose
-- turn is not revoked and whose workspace may use the executor, the executor's registered connection is
-- that one, and the first frame is a binary Resume that names that stream.
pub handle_bridge-Admitted :
    (verify : Text → Option Payload) (revoked : RevokedSet)
    (owns : String → String → Option (Result (Unit {0}) Bool)) (g : Gateway) (exe : String)
    (authz : Text) (upgrade : Option (Option FirstFrame)) (i : ℕ) (stream : String)
    → handle_bridge verify revoked owns g exe authz upgrade ≡ ok (i, stream)
    → Admitted verify revoked owns g exe authz i
      × (upgrade ≡ some (some (record { is_binary = true; decoded = some (true, stream) })))
      × ((stream == "") ≡ false)
unfolding handle_bridge
handle_bridge-Admitted verify revoked owns g exe authz upgrade i stream h =
    let (j, admitted, rest) = >>=-eq-ok (admit verify revoked owns g exe authz) _ h in
    let (s, first, done) = >>=-eq-ok (upgraded upgrade) _ rest in
    let same : (j ≡ i) × (s ≡ stream) = ground arith in
    let resume = upgraded-ok upgrade stream (first ∙ ap ok same.1) in
    (admit-Admitted verify revoked owns g exe authz i (admitted ∙ ap ok same.0), resume.0, resume.1)
