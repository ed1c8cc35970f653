-- ===== src/Bearer/Capability.antt =====
-- VerifyCapabilityToken (internal/codexexecgateway/auth.go), MintCapToken
-- (internal/codexappgateway/captoken.go) and mintWorkspaceToken
-- (internal/codexexecgateway/sdk/captoken.go). encoding/json is the record `Json`.
use cli_server.Common.{
  ℕ, ◌+◌, ◌/◌, Option, some, none, List, [], ◌∷◌, ◌++◌, not, ◌||◌, if◌then◌else◌, is_nil, Result,
  ok, err, ◌>>=◌, ◌==◌, string_eq, String,
}
use cli_server.Common.Text.{Text, codes, text_eq, split_on}
use cli_server.Common.Int.{ℤ, pos}
use cli_server.Bearer.{Codec, dot, passed}

pub record CapPayload : Type 0 where
  pub turn_id : String
  pub workspace_id : String
  pub iat : ℤ
  pub exp : ℤ

pub record Header : Type 0 where
  pub alg : String
  pub typ : String

pub record Json : Type 0 where
  pub marshal : CapPayload → Option Text
  pub unmarshal : Text → Option CapPayload
  pub unmarshal_header : Text → Option Header

pub data TokenError : Type 0 where
  malformed : TokenError
  wrong_signature : TokenError
  expired : TokenError

pub data MintError : Type 0 where
  empty_secret : MintError
  id_required : MintError
  marshal_failed : MintError

-- {"alg":"HS256","typ":"CXG"}
abbrev pub header_json : Text
header_json = codes "{\"alg\":\"HS256\",\"typ\":\"CXG\"}"

-- headerB64 "." payloadB64
abbrev pub signed_part : Text → Text → Text
signed_part header payload = header ++ dot ∷ payload

-- the end that both mints share
abbrev pub sign : Codec → Text → Option Text → Result MintError Text
sign C secret none = err marshal_failed
sign C secret (some pj) =
    let message = signed_part (C.encode header_json) (C.encode pj) in
    ok (message ++ dot ∷ C.encode (C.hmac secret message))

-- a token's payload, for a time to live in nanoseconds
abbrev pub new_payload : ℕ → String → String → ℕ → CapPayload
new_payload now turn workspace ttl = record {
  turn_id = turn;
  workspace_id = workspace;
  iat = pos now;
  exp = pos (now + ttl / 1000000000);
}

unfoldable pub mint_cap_token :
    Codec → Json → ℕ → Text → String → String → ℕ → Result MintError Text
mint_cap_token C J now secret turn workspace ttl =
    if is_nil secret
    then err empty_secret
    else if turn == "" || workspace == ""
    then err id_required
    else sign C secret (J.marshal (new_payload now turn workspace ttl))

-- sdkCapTokenTTL, 24 hours in nanoseconds
abbrev pub sdk_cap_token_ttl : ℕ
sdk_cap_token_ttl = 86400000000000

unfoldable pub mint_workspace_token : Codec → Json → ℕ → Text → String → Result MintError Text
mint_workspace_token C J now secret workspace =
    if is_nil secret
    then err empty_secret
    else if workspace == ""
    then err id_required
    else sign C secret (J.marshal (new_payload now "sdk" workspace sdk_cap_token_ttl))

abbrev pub decoded : Option Text → Result TokenError Text
decoded none = err malformed
decoded (some bytes) = ok bytes

abbrev pub check_header : Option Header → Result TokenError Header
check_header none = err malformed
check_header (some h) =
    if not (h.alg == "HS256") || not (h.typ == "CXG") then err malformed else ok h

abbrev pub check_payload : ℕ → Option CapPayload → Result TokenError CapPayload
check_payload now none = err malformed
check_payload now (some p) = if passed p.exp now then err expired else ok p

-- the comparison of the signatures and what follows it
abbrev pub check_signed :
    Codec → Json → ℕ → Text → Text → Text → Text → Result TokenError CapPayload
check_signed C J now secret header payload got =
    if not (got == C.hmac secret (signed_part header payload))
    then err wrong_signature
    else decoded (C.decode payload) >>= λ bytes. check_payload now (J.unmarshal bytes)

abbrev pub check_token : Codec → Json → ℕ → Text → List Text → Result TokenError CapPayload
check_token C J now secret (header ∷ payload ∷ sig ∷ []) =
    if is_nil header || is_nil payload || is_nil sig then err malformed else do
      header_bytes ← decoded (C.decode header)
      h ← check_header (J.unmarshal_header header_bytes)
      got ← decoded (C.decode sig)
      check_signed C J now secret header payload got
check_token C J now secret _ = err malformed

unfoldable pub verify_capability_token :
    Codec → Json → ℕ → Text → Text → Result TokenError CapPayload
verify_capability_token C J now token secret = check_token C J now secret (split_on dot token)
