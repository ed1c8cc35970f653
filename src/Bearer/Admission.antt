-- ===== src/Bearer/Admission.antt =====
-- The tokens at the bridge: handleBridge checks its bearer with VerifyCapabilityToken
-- (internal/codexexecgateway/bridge.go).
use cli_server.Common.{
  ℕ, ◌≡◌, refl, ◌∙◌, ◌+◌, ◌/◌, ◌≤◌, Option, some, none, [], ◌∷◌, ◌++◌, Bool, false, is_nil, Result,
  ok, err, ◌==◌, string_eq, String, arith, ltb, nat_eq,
}
use cli_server.Common.Text.{Text, split_on, trim_prefix, has_prefix-append, cut-append}
use cli_server.Bearer.{Codec, CodecLaws}
use cli_server.Bearer.Capability.{
  Json, CapPayload, TokenError, verify_capability_token, mint_cap_token, new_payload, header_json,
}
use cli_server.Bearer.RoundTrip.{mint_cap_token-verify}
use cli_server.Gateway.Revocation.{RevokedSet, contains}
use cli_server.Gateway.Mux.{Gateway, lookup_conn}
use cli_server.Gateway.Bridge.{Payload, bearer_prefix, admit, admit_payload, owned, connected}

-- what the bridge uses of the verifier's answer
abbrev pub bridge_payload : Result TokenError CapPayload → Option Payload
bridge_payload (err e) = none
bridge_payload (ok p) = some (record { turn_id = p.turn_id; workspace_id = p.workspace_id })

-- the check that the bridge is given
abbrev pub bridge_verify : Codec → Json → ℕ → Text → Text → Option Payload
bridge_verify C J now secret token = bridge_payload (verify_capability_token C J now token secret)

trim_prefix-append : (p s : Text) → trim_prefix (p ++ s) p ≡ s
unfolding trim_prefix
trim_prefix-append p s = rw (has_prefix-append p s) (cut-append p s)

-- A request with a bearer that is not empty is decided by what the check says of the bearer.
admit-bearer :
    (verify : Text → Option Payload) (revoked : RevokedSet)
    (owns : String → String → Option (Result (Unit {0}) Bool)) (g : Gateway) (exe : String)
    (token : Text)
    → (exe == "") ≡ false
    → is_nil token ≡ false
    → admit verify revoked owns g exe (bearer_prefix ++ token)
      ≡ admit_payload revoked owns g exe (verify token)
unfolding admit
admit-bearer verify revoked owns g exe token named filled =
    rw (has_prefix-append bearer_prefix token)
      (rw (trim_prefix-append bearer_prefix token) (rw named (rw filled refl)))

not_later : (e now : ℕ) → now ≤ e → ltb e now ≡ false
not_later e now h = ground (arith)

-- no accepted token is empty
accepted-filled :
    (C : Codec) (J : Json) (now : ℕ) (secret token : Text) {p : CapPayload}
    → verify_capability_token C J now token secret ≡ ok p
    → is_nil token ≡ false
unfolding verify_capability_token split_on
accepted-filled C J now secret [] h = cc
accepted-filled C J now secret (c ∷ token) h = refl

-- Under the laws of the codec, and if the JSON of the header and of the payload is read back and is not
-- empty: a token that MintCapToken made is let through /bridge for a named executor, until it expires and
-- while its turn is not revoked, exactly as the owner check of its workspace and the lookup of the
-- executor decide.
pub mint_cap_token-admit :
    (C : Codec) (laws : CodecLaws C) (J : Json) (now later ttl : ℕ) (secret token pj : Text)
    (turn workspace exe : String) (revoked : RevokedSet)
    (owns : String → String → Option (Result (Unit {0}) Bool)) (g : Gateway)
    → J.unmarshal_header header_json ≡ some (record { alg = "HS256"; typ = "CXG" })
    → J.marshal (new_payload now turn workspace ttl) ≡ some pj
    → is_nil pj ≡ false
    → J.unmarshal pj ≡ some (new_payload now turn workspace ttl)
    → mint_cap_token C J now secret turn workspace ttl ≡ ok token
    → later ≤ now + ttl / 1000000000
    → contains revoked turn ≡ false
    → (exe == "") ≡ false
    → admit (bridge_verify C J later secret) revoked owns g exe (bearer_prefix ++ token)
      ≡ owned (owns workspace exe) (connected (lookup_conn g.conns exe))
unfolding admit_payload
mint_cap_token-admit C laws J now later ttl secret token pj turn workspace exe revoked owns g header
      written filled readable minted live kept named =
    let verified =
      mint_cap_token-verify C laws J now later ttl secret token pj turn workspace header written
        filled readable minted in
    let accepted : verify_capability_token C J later token secret
        ≡ ok (new_payload now turn workspace ttl) =
      verified ∙ (rw (not_later (now + ttl / 1000000000) later live) refl) in
    admit-bearer (bridge_verify C J later secret) revoked owns g exe token named
      (accepted-filled C J later secret token accepted)
    ∙ (rw accepted (rw kept refl))
