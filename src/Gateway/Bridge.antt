-- ===== src/Gateway/Bridge.antt =====
-- handleBridge (internal/codexexecgateway/bridge.go) up to its pump: which requests are refused, and
-- what a paired one leaves. The capability token's check, the store's answer on ownership, the upgrade
-- and the decoded first frame are arguments. Replies are statuses; after the upgrade an error
-- closes the websocket with a protocol error.
pub mod Paired
use cli_server.Common.{
  ℕ, ◌≡◌, refl, ap, sym, ◌∙◌, inl, inr, String, Bool, true, false, not, ◌&&◌, ◌||◌, Option, none,
  some, List, [], ◌∷◌, Result, ok, err, ◌>>=◌, >>=-eq-ok, if◌then◌else◌, ◌==◌, ==_iff, ==_self,
  string_eq, nat_eq, is_nil, arith, Bool-cases,
}
use cli_server.Common.Text.{Text, codes, has_prefix, trim_prefix}
use cli_server.Common.Dict.{Dict, get, put, get-put}
use cli_server.Gateway.Revocation.{RevokedSet, contains}
use cli_server.Gateway.Mux.{
  Gateway, InboundConn, BridgeSession, lookup_conn, new_bridge_session, add_route, close_session,
}

-- What a verified token says.
pub record Payload : Type 0 where
  pub turn_id : String
  pub workspace_id : String

-- The first frame: none could be read, or its type, and what it decodes to: whether it is a Resume, and
-- its stream_id.
pub record FirstFrame : Type 0 where
  pub is_binary : Bool
  pub decoded : Option (Bool × String)

pub data Refusal : Type 0 where
  http_error : ℕ → Refusal
  accept_failed : Refusal
  protocol_error : Refusal

abbrev pub bearer_prefix : Text
bearer_prefix = codes "Bearer "

-- the lookup of the connection
abbrev pub connected : Option ℕ → Result Refusal ℕ
connected none = err (http_error 503)
connected (some i) = ok i

-- the ownership check; `none` for a server without a store
abbrev pub owned : Option (Result (Unit {0}) Bool) → Result Refusal ℕ → Result Refusal ℕ
owned none next = next
owned (some (err e)) next = err (http_error 500)
owned (some (ok false)) next = err (http_error 403)
owned (some (ok true)) next = next

unfoldable pub admit_payload :
    RevokedSet
    → (String → String → Option (Result (Unit {0}) Bool))
    → Gateway
    → String
    → Option Payload
    → Result Refusal ℕ
admit_payload revoked owns g exe none = err (http_error 401)
admit_payload revoked owns g exe (some p) =
    if contains revoked p.turn_id
    then err (http_error 401)
    else owned (owns p.workspace_id exe) (connected (lookup_conn g.conns exe))

-- The guards before the upgrade.
unfoldable pub admit :
    (Text → Option Payload)
    → RevokedSet
    → (String → String → Option (Result (Unit {0}) Bool))
    → Gateway
    → String
    → Text
    → Result Refusal ℕ
unfolding admit_payload
admit verify revoked owns g exe authz =
    if not (has_prefix authz bearer_prefix)
    then err (http_error 401)
    else if exe == "" || is_nil (trim_prefix authz bearer_prefix)
    then err (http_error 400)
    else admit_payload revoked owns g exe (verify (trim_prefix authz bearer_prefix))

-- The stream of a first frame that is a binary Resume with a stream_id.
abbrev pub resumed : Option (Bool × String) → Result Refusal String
resumed none = err protocol_error
resumed (some (resume, stream)) =
    if not resume
    then err protocol_error
    else if stream == ""
    then err protocol_error
    else ok stream

unfoldable pub stream_of : Option FirstFrame → Result Refusal String
stream_of none = err protocol_error
stream_of (some f) = if not f.is_binary then err protocol_error else resumed f.decoded

-- what the upgrade and the first frame of a request give; `none` for a failed upgrade
abbrev pub upgraded : Option (Option FirstFrame) → Result Refusal String
upgraded none = err accept_failed
upgraded (some first) = stream_of first

abbrev pub evict_session : Dict ℕ BridgeSession → Option ℕ → Dict ℕ BridgeSession
evict_session ss none = ss
evict_session ss (some b) = close_session ss b

-- the registration of the session `b` under its stream
unfoldable pub add_session : Gateway → ℕ → String → ℕ → InboundConn → Gateway
unfolding add_route
add_session g i stream b ic =
    let (ic', evicted) = add_route ic stream b in
    record g {
      inbounds = put g.inbounds i ic';
      sessions = evict_session (put g.sessions b (new_bridge_session stream)) evicted;
    }

-- The server's side of a request: what it is refused with, or the connection and stream it is paired with.
unfoldable pub handle_bridge :
    (Text → Option Payload)
    → RevokedSet
    → (String → String → Option (Result (Unit {0}) Bool))
    → Gateway
    → String
    → Text
    → Option (Option FirstFrame)
    → Result Refusal (ℕ × String)
unfolding admit stream_of
handle_bridge verify revoked owns g exe authz upgrade = do
  i ← admit verify revoked owns g exe authz
  stream ← upgraded upgrade
  ok (i, stream)
