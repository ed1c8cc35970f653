-- ===== src/Bearer/RoundTrip.antt =====
-- What the verifiers say of a bearer that was minted with the same secret.
use cli_server.Common.{
  ℕ, ◌≡◌, refl, ap, ◌∙◌, ◌+◌, ◌/◌, ◌^◌, ◌<◌, some, [], ◌∷◌, ◌++◌, false, not, ◌||◌, if◌then◌else◌,
  is_nil, ok, err, ◌==◌, ==_self, string_eq, String, append_assoc, Bool-cases, arith, inl, inr, leb,
  ltb,
}
use cli_server.Common.Text.{Text, text_eq, split_on, has_code, split_on-append, split_on-single}
use cli_server.Bearer.{Codec, CodecLaws, dot, passed}
use cli_server.Bearer.Ticket.{
  mint_ws_ticket, verify_ws_ticket, ticket_payload, check_parts, exe_id_mismatch, ticket_expired,
}
use cli_server.Bearer.Capability.{
  Json, CapPayload, mint_cap_token, mint_workspace_token, verify_capability_token, header_json,
  signed_part, new_payload, sdk_cap_token_ttl, check_token, expired,
}

-- three parts without a dot are what a split at the dots gives back
split_on-three :
    (a b c : Text)
    → has_code dot a ≡ false
    → has_code dot b ≡ false
    → has_code dot c ≡ false
    → split_on dot ((a ++ dot ∷ b) ++ dot ∷ c) ≡ a ∷ b ∷ c ∷ []
split_on-three a b c ha hb hc =
    ap (split_on dot) (append_assoc a (dot ∷ b) (dot ∷ c))
    ∙ split_on-append dot a (b ++ dot ∷ c) ha
    ∙ ap (λ ps. a ∷ ps) (split_on-append dot b c hb ∙ ap (λ ps. b ∷ ps) (split_on-single dot c hc))

-- what a verifier says of the ticket that is signed with its secret
verify-signed :
    (C : Codec) (laws : CodecLaws C) (now later : ℕ) (exe_id expected secret : Text)
    → now + 300 < 2 ^ 63
    → has_code dot exe_id ≡ false
    → let payload = ticket_payload exe_id (C.format_int (now + 300)) in
      check_parts C later expected secret
        (split_on dot (payload ++ dot ∷ C.encode (C.hmac secret payload)))
      ≡ (if not (exe_id == expected)
          then err exe_id_mismatch
          else if leb (now + 300) later
          then err ticket_expired
          else ok tt)
verify-signed C laws now later exe_id expected secret bound no_dot =
    let expiry = C.format_int (now + 300) in
    let digest = C.hmac secret (ticket_payload exe_id expiry) in
    rw
      (split_on-three exe_id expiry (C.encode digest) no_dot (laws.format_dot (now + 300))
        (laws.encode_dot digest))
      (rw (laws.parse_format (now + 300) bound)
        (rw (laws.decode_encode digest) (rw (==_self digest) refl)))

-- Under the laws of the codec: a ticket that MintWSTicket made for an exe_id without a dot, checked with
-- the same secret, is refused for another exe_id, is refused as expired from 300 seconds after it was
-- made, and is accepted otherwise.
pub mint_ws_ticket-verify :
    (C : Codec) (laws : CodecLaws C) (now later : ℕ) (exe_id expected secret ticket : Text)
    → now + 300 < 2 ^ 63
    → has_code dot exe_id ≡ false
    → mint_ws_ticket C now exe_id secret ≡ ok ticket
    → verify_ws_ticket C later ticket expected secret ≡ (
        if not (exe_id == expected)
        then err exe_id_mismatch
        else if leb (now + 300) later
        then err ticket_expired
        else ok tt)
unfolding mint_ws_ticket verify_ws_ticket
mint_ws_ticket-verify C laws now later exe_id expected secret ticket bound no_dot minted =
    elim (Bool-cases (is_nil secret)) [
      | inl e ↦ ground (arith)
      | inr e ↦
          let signed = verify-signed C laws now later exe_id expected secret bound no_dot in cc
    ]

-- what the verifier says of a payload that is signed with its secret
check_token-signed :
    (C : Codec) (laws : CodecLaws C) (J : Json) (later : ℕ) (secret pj : Text) (p : CapPayload)
    → J.unmarshal_header header_json ≡ some (record { alg = "HS256"; typ = "CXG" })
    → is_nil pj ≡ false
    → J.unmarshal pj ≡ some p
    → let message = signed_part (C.encode header_json) (C.encode pj) in
      check_token C J later secret
        (split_on dot (message ++ dot ∷ C.encode (C.hmac secret message)))
      ≡ (if passed p.exp later then err expired else ok p)
check_token-signed C laws J later secret pj p header filled readable =
    let digest = C.hmac secret (signed_part (C.encode header_json) (C.encode pj)) in
    rw
      (split_on-three (C.encode header_json) (C.encode pj) (C.encode digest)
        (laws.encode_dot header_json) (laws.encode_dot pj) (laws.encode_dot digest))
      (rw (laws.encode_nil header_json) (
        rw (laws.encode_nil pj) (
          rw (laws.encode_nil digest) (
            rw filled (
              rw (laws.hmac_nil secret (signed_part (C.encode header_json) (C.encode pj))) (
                rw (laws.decode_encode header_json) (
                  rw header (
                    rw (laws.decode_encode digest)
                      (rw (==_self digest) (rw (laws.decode_encode pj) (rw readable refl)))))))))))

-- Under the laws of the codec, and if the JSON of the header and of the payload is read back and is not
-- empty: a capability token that MintCapToken made verifies with the same secret as exactly its payload
-- until its expiry has passed, and is refused as expired afterwards.
pub mint_cap_token-verify :
    (C : Codec) (laws : CodecLaws C) (J : Json) (now later ttl : ℕ) (secret token pj : Text)
    (turn workspace : String)
    → J.unmarshal_header header_json ≡ some (record { alg = "HS256"; typ = "CXG" })
    → J.marshal (new_payload now turn workspace ttl) ≡ some pj
    → is_nil pj ≡ false
    → J.unmarshal pj ≡ some (new_payload now turn workspace ttl)
    → mint_cap_token C J now secret turn workspace ttl ≡ ok token
    → verify_capability_token C J later token secret ≡ (
        if ltb (now + ttl / 1000000000) later
        then err expired
        else ok (new_payload now turn workspace ttl))
unfolding mint_cap_token verify_capability_token
mint_cap_token-verify C laws J now later ttl secret token pj turn workspace header written filled
      readable minted =
    let signed =
      check_token-signed C laws J later secret pj (new_payload now turn workspace ttl) header filled
        readable in
    elim (Bool-cases (is_nil secret)) [
      | inl e ↦ cc
      | inr e ↦ elim (Bool-cases (turn == "" || workspace == "")) [ inl f ↦ cc | inr f ↦ cc ]
    ]

-- The token of the SDK pool is the token that MintCapToken makes for the turn "sdk" and 24 hours.
pub mint_workspace_token-eq :
    (C : Codec) (J : Json) (now : ℕ) (secret : Text) (workspace : String)
    → mint_workspace_token C J now secret workspace
      ≡ mint_cap_token C J now secret "sdk" workspace sdk_cap_token_ttl
unfolding mint_cap_token mint_workspace_token
mint_workspace_token-eq C J now secret workspace = refl
