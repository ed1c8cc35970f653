-- ===== src/Examples/Tokens.antt =====
-- Tokens and device codes; the parameters for library code are simple functions on strings.
use cli_server.Common.{
  ℕ, ◌+◌, ◌≤◌, ◌≡◌, ◌⊎◌, refl, String, none, some, List, [], ◌∷◌, ok, err, if◌then◌else◌, ltb,
  string_eq, arith,
}
use cli_server.Auth.Refresh.{
  RefreshToken, refresh_token_reuse, find_token, insert_refresh_token, rotate_refresh_token,
  rotate_row, revoke_token,
}
use cli_server.Auth.Refresh.Family.{
  active, start, begin_family, rotated, Reach-IsSingle, rotate_refresh_token-replay,
}
use cli_server.Auth.Device.{Draw, Grant, PkceRequest, handle_device_token, consume_pkce_request}
use cli_server.Auth.Device.Grants.{
  Call, user_code, verify, consume, run, no_tables, handle_device_token-once, step,
}
use cli_server.Auth.Tokens.{
  Mint, TokenTables, TokenReply, mint_tokens_for, lookup_access_token, access_token_ttl,
  handle_token_authorization_code, insert_access_token, has_access,
}
use cli_server.Auth.Tokens.Access.{
  codes_of, handle_token_authorization_code-once, mint_tokens_for-lookup,
}

-- A stand-in for the digests: equal strings have equal digests, which is all that is used.
abbrev same_string : String → String
same_string s = s

abbrev first_token : RefreshToken
first_token = record {
  token_hash = "a";
  family_id = "f";
  user_id = "u";
  expires_at = 100;
  revoked_at = none;
}

first_inserted : insert_refresh_token "a" "f" "u" 100 [] ≡ ok (first_token ∷ [])
unfolding insert_refresh_token find_token
first_inserted = refl

none_active : active "f" [] ≡ 0
unfolding active
none_active = refl

Reach-IsSingle_example :
    active "f" (rotate_refresh_token same_string 5 "a" "b" 200 (first_token ∷ [])).tokens ≤ 1
Reach-IsSingle_example =
    Reach-IsSingle "f" (rotate_refresh_token same_string 5 "a" "b" 200 (first_token ∷ [])).tokens (
      rotated 5 "a" "b" 200 (first_token ∷ [])
        (begin_family "a" "f" "u" 100 [] (first_token ∷ []) start none_active first_inserted))

rotated_once : (rotate_refresh_token same_string 5 "a" "b" 200 (first_token ∷ [])).user ≡ ok "u"
unfolding rotate_refresh_token rotate_row find_token revoke_token insert_refresh_token
rotated_once = refl

rotate_refresh_token-replay_example :
    (t : RefreshToken) × (find_token "a" (first_token ∷ []) ≡ some t)
    × ((rotate_refresh_token same_string 9 "a" "c" 300
          (rotate_refresh_token same_string 5 "a" "b" 200 (first_token ∷ [])).tokens).user
        ≡ err refresh_token_reuse)
    × (active t.family_id
          (rotate_refresh_token same_string 9 "a" "c" 300
            (rotate_refresh_token same_string 5 "a" "b" 200 (first_token ∷ [])).tokens).tokens
        ≡ 0)
rotate_refresh_token-replay_example =
    rotate_refresh_token-replay same_string 5 9 "a" "b" "c" "u" 200 300 (first_token ∷ [])
      rotated_once

abbrev draw : Draw
draw = record {
  device_auth_id = "d";
  user_code = "ABCD";
  verifier = "v";
  challenge = "v";
  authorization_code = "z";
}

abbrev before : List (ℕ × Call)
before = (0, user_code draw) ∷ (1, verify "u" "ABCD" "approve") ∷ []

abbrev after : List (ℕ × Call)
after = (3, verify "u" "ABCD" "approve") ∷ (4, consume "z") ∷ []

abbrev grant : Grant
grant = record { authorization_code = "z"; code_challenge = "v"; code_verifier = "v" }

granted_once : (handle_device_token 2 "d" "ABCD" (run before no_tables)).1 ≡ ok grant
unfolding handle_device_token run step
granted_once = refl

handle_device_token-once_example :
    ((handle_device_token 5 "d" "ABCD"
        (run after (handle_device_token 2 "d" "ABCD" (run before no_tables)).0)).1
      ≡ err 404)
    ⊎ ((handle_device_token 5 "d" "ABCD"
          (run after (handle_device_token 2 "d" "ABCD" (run before no_tables)).0)).1
        ≡ err 400)
handle_device_token-once_example =
    handle_device_token-once before after 2 5 "d" "ABCD" "ABCD" grant granted_once

abbrev pkce_row : PkceRequest
pkce_row = record { code = "z"; code_challenge = "v"; state = "s"; user_id = "u"; expires_at = 600 }

abbrev tables : TokenTables
tables = record { requests = pkce_row ∷ []; access = []; refresh = [] }

abbrev mint : Mint
mint = record { access_jwt = some "j"; id_jwt = some "i"; refresh_token = "r"; family_id = "f" }

request_once : codes_of "z" tables.requests ≤ 1
unfolding codes_of
request_once = omega arith

request_found : (consume_pkce_request 1 "z" tables.requests).1 ≡ some pkce_row
unfolding consume_pkce_request
request_found = refl

handle_token_authorization_code-once_example :
    (handle_token_authorization_code same_string same_string same_string 2 "z" "v" mint
      (handle_token_authorization_code same_string same_string same_string 1 "z" "w" mint
        tables).0).1
    ≡ err 400
handle_token_authorization_code-once_example =
    handle_token_authorization_code-once same_string same_string same_string 1 2 "z" "w" "v" mint
      mint tables pkce_row request_once refl request_found

abbrev token_reply : TokenReply
token_reply = record { access_token = "j"; id_token = "i"; refresh_token = "r" }

minted : (mint_tokens_for same_string 1 "u" mint tables).1 ≡ ok token_reply
unfolding mint_tokens_for insert_access_token has_access insert_refresh_token find_token
minted = refl

mint_tokens_for-lookup_example :
    lookup_access_token same_string 9 "j" (mint_tokens_for same_string 1 "u" mint tables).0.access
    ≡ (if ltb 9 (1 + access_token_ttl) then "u" else "")
mint_tokens_for-lookup_example =
    mint_tokens_for-lookup same_string 1 9 "u" mint tables token_reply minted
