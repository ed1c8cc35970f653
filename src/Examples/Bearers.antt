-- ===== src/Examples/Bearers.antt =====
-- A small codec, and a ticket and a token that are minted and checked with it.
use cli_server.Common.{
  ℕ, ◌≡◌, refl, ap, ◌∙◌, ◌+◌, ◌-◌, ◌/◌, string_eq, Option, some, none, List, [], ◌∷◌, ◌++◌, Bool,
  true, false, if◌then◌else◌, ◌==◌, is_nil, Result, ok, err, String, map, arith, leb, ltb, not,
}
use cli_server.Common.Text.{Text, codes, text_eq, has_code, join_on, text_beq}
use cli_server.Common.Int.{ℤ, pos}
use cli_server.Bearer.{Codec, CodecLaws, dot}
use cli_server.Bearer.Ticket.{
  mint_ws_ticket, verify_ws_ticket, ticket_payload, exe_id_mismatch, ticket_expired,
}
use cli_server.Bearer.Capability.{
  Json, CapPayload, mint_cap_token, verify_capability_token, new_payload, header_json, signed_part,
  expired,
}
use cli_server.Bearer.RoundTrip.{mint_ws_ticket-verify, mint_cap_token-verify}
use cli_server.Bearer.Genuine.{verify_capability_token-AreGenuine, AreGenuine}
use cli_server.Bearer.Admission.{mint_cap_token-admit, bridge_verify}
use cli_server.Gateway.Mux.{Gateway, lookup_conn}
use cli_server.Gateway.Bridge.{admit, bearer_prefix, owned, connected}
use cli_server.Gateway.Revocation.{new_revoked_set, contains}

unfoldable shift_up : Text → Text
shift_up [] = []
shift_up (c ∷ t) = (c + 100) ∷ shift_up t

unfoldable shift_down : Text → Text
shift_down [] = []
shift_down (c ∷ t) = (c - 100) ∷ shift_down t

abbrev read_number : Text → Option ℤ
read_number (c ∷ []) = some (pos (c - 100))
read_number _ = none

abbrev shifted : Codec
shifted = record {
  hmac = λ key message. 1 ∷ key ++ message;
  encode = shift_up;
  decode = λ t. some (shift_down t);
  format_int = λ n. (n + 100) ∷ [];
  parse_int = read_number;
}

shift_down-shift_up : (t : Text) → shift_down (shift_up t) ≡ t
unfolding shift_down shift_up
shift_down-shift_up [] = refl
shift_down-shift_up (c ∷ t) = grind (arith, shift_down-shift_up t)

shift_up-has_code : (t : Text) → has_code dot (shift_up t) ≡ false
unfolding shift_up has_code
shift_up-has_code [] = refl
shift_up-has_code (c ∷ t) = ground (arith, shift_up-has_code t)

shift_up-is_nil : (t : Text) → is_nil (shift_up t) ≡ is_nil t
unfolding shift_up
shift_up-is_nil [] = refl
shift_up-is_nil (c ∷ t) = refl

read_number-format : (n : ℕ) → read_number ((n + 100) ∷ []) ≡ some (pos n)
read_number-format n = grind (arith)

format-has_code : (n : ℕ) → has_code dot ((n + 100) ∷ []) ≡ false
unfolding has_code
format-has_code n = ground (arith)

shifted_laws : CodecLaws shifted
shifted_laws = record {
  decode_encode = λ t. ap some (shift_down-shift_up t);
  encode_dot = shift_up-has_code;
  encode_nil = shift_up-is_nil;
  hmac_nil = λ k m. refl;
  parse_format = λ n h. read_number-format n;
  format_dot = format-has_code;
}

abbrev signing_secret : Text
signing_secret = codes "k"

abbrev made_ticket : Text
made_ticket =
    ticket_payload (codes "exe_a") (shifted.format_int 1300)
    ++ dot
      ∷ shifted.encode
          (shifted.hmac signing_secret (ticket_payload (codes "exe_a") (shifted.format_int 1300)))

no_dot_in_id : has_code dot (codes "exe_a") ≡ false
unfolding has_code
no_dot_in_id = refl

ticket_made : mint_ws_ticket shifted 1000 (codes "exe_a") signing_secret ≡ ok made_ticket
unfolding mint_ws_ticket
ticket_made = refl

mint_ws_ticket-verify_example :
    verify_ws_ticket shifted 1200 made_ticket (codes "exe_a") signing_secret ≡ (
      if not (codes "exe_a" == codes "exe_a")
      then err exe_id_mismatch
      else if leb (1000 + 300) 1200
      then err ticket_expired
      else ok tt)
mint_ws_ticket-verify_example =
    mint_ws_ticket-verify shifted shifted_laws 1000 1200 (codes "exe_a") (codes "exe_a")
      signing_secret made_ticket (omega arith) no_dot_in_id ticket_made

-- JSON, as far as one payload goes
abbrev turn_payload : CapPayload
turn_payload = new_payload 1000 "t1" "w1" 900000000000

abbrev payload_text : CapPayload → Text
payload_text p =
    codes "{turn:" ++ codes p.turn_id ++ codes ",workspace:" ++ codes p.workspace_id ++ codes "}"

abbrev small_json : Json
small_json = record {
  marshal = λ p. some (payload_text p);
  unmarshal = λ t. if t == payload_text turn_payload then some turn_payload else none;
  unmarshal_header =
      λ t. if t == header_json then some (record { alg = "HS256"; typ = "CXG" }) else none;
}

abbrev made_token : Text
made_token =
    let message =
      signed_part (shifted.encode header_json) (shifted.encode (payload_text turn_payload)) in
    message ++ dot ∷ shifted.encode (shifted.hmac signing_secret message)

token_made :
    mint_cap_token shifted small_json 1000 signing_secret "t1" "w1" 900000000000 ≡ ok made_token
unfolding mint_cap_token
token_made = refl

header_read : small_json.unmarshal_header header_json ≡ some (record { alg = "HS256"; typ = "CXG" })
unfolding text_beq
header_read = refl

payload_read : small_json.unmarshal (payload_text turn_payload) ≡ some turn_payload
unfolding text_beq
payload_read = refl

mint_cap_token-verify_example :
    verify_capability_token shifted small_json 1200 made_token signing_secret
    ≡ (if ltb (1000 + 900000000000 / 1000000000) 1200 then err expired else ok turn_payload)
mint_cap_token-verify_example =
    mint_cap_token-verify shifted shifted_laws small_json 1000 1200 900000000000 signing_secret
      made_token (payload_text turn_payload) "t1" "w1" header_read refl refl payload_read token_made

token_accepted :
    verify_capability_token shifted small_json 1200 made_token signing_secret ≡ ok turn_payload
token_accepted = mint_cap_token-verify_example ∙ refl

verify_capability_token-AreGenuine_example :
    (parts : List Text) × (made_token ≡ join_on dot parts)
    × AreGenuine shifted small_json 1200 signing_secret turn_payload parts
verify_capability_token-AreGenuine_example =
    verify_capability_token-AreGenuine shifted small_json 1200 signing_secret made_token
      turn_payload token_accepted

abbrev one_conn : Gateway
one_conn = record {
  conns = record { entries = ("exe_a", 1) ∷ [] };
  inbounds = record { entries = [] };
  sessions = record { entries = [] };
  shown = record { entries = [] };
}

abbrev owner_check : String → String → Option (Result (Unit {0}) Bool)
owner_check workspace exe = some (ok (workspace == "w1"))

turn_kept : contains (new_revoked_set (pos 8)) "t1" ≡ false
unfolding contains new_revoked_set cli_server.Common.Dict.get cli_server.Common.Dict.empty
turn_kept = refl

mint_cap_token-admit_example :
    admit
      (bridge_verify shifted small_json 1200 signing_secret)
      (new_revoked_set (pos 8))
      owner_check
      one_conn
      "exe_a"
      (bearer_prefix ++ made_token)
    ≡ owned (owner_check "w1" "exe_a") (connected (lookup_conn one_conn.conns "exe_a"))
mint_cap_token-admit_example =
    mint_cap_token-admit shifted shifted_laws small_json 1000 1200 900000000000 signing_secret
      made_token (payload_text turn_payload) "t1" "w1" "exe_a" (new_revoked_set (pos 8)) owner_check
      one_conn header_read refl refl payload_read token_made (omega arith) turn_kept refl
