-- ===== src/Gateway/Mux.antt =====
-- The inbound connections and the sessions multiplexed over them (internal/codexexecgateway/registry.go,
-- multiplex.go and handleInbound of inbound.go). Pointers are handles into a heap; each method runs under
-- its lock and is one step. The websockets themselves and what is written to them are not modelled.
pub mod Routes
pub mod Fanout
use cli_server.Common.{
  ℕ, ◌+◌, String, Bool, true, false, not, ◌&&◌, Option, none, some, List, [], ◌∷◌, if◌then◌else◌,
  ◌==◌, string_eq, nat_eq, map,
}
use cli_server.Common.Dict.{Dict, get, put, remove, empty}

-- bridgeSession and inboundConn: what closeOnce and the routes leave of them
pub record BridgeSession : Type 0 where
  pub stream_id : String
  pub closed : Bool

pub record InboundConn : Type 0 where
  pub exe_id : String
  pub routes : Dict String ℕ
  pub closed : Bool

-- ConnRegistry, the objects it leads to, and the executors that the store shows as connected
pub record Gateway : Type 0 where
  pub conns : Dict String ℕ
  pub inbounds : Dict ℕ InboundConn
  pub sessions : Dict ℕ BridgeSession
  pub shown : Dict String Bool

unfoldable pub new_inbound_conn : String → InboundConn
new_inbound_conn exe = record { exe_id = exe; routes = empty; closed = false }

unfoldable pub new_bridge_session : String → BridgeSession
new_bridge_session stream = record { stream_id = stream; closed = false }

abbrev pub same : Option ℕ → ℕ → Bool
same none i = false
same (some j) i = j == i

-- Register: the connection that it evicts, if it is another one
abbrev pub other_than : ℕ → Option ℕ → Option ℕ
other_than i none = none
other_than i (some j) = if j == i then none else some j

unfoldable pub register : Dict String ℕ → String → ℕ → Dict String ℕ × Option ℕ
register conns exe i = (put conns exe i, other_than i (get conns exe))

unfoldable pub lookup_conn : Dict String ℕ → String → Option ℕ
lookup_conn conns exe = get conns exe

unfoldable pub unregister : Dict String ℕ → String → ℕ → Dict String ℕ
unregister conns exe i = if same (get conns exe) i then remove conns exe else conns

unfoldable pub connected_ids : Dict String ℕ → List String
connected_ids conns = map (λ e. e.0) conns.entries

-- addRoute, removeRoute and lookup of a connection
unfoldable pub add_route : InboundConn → String → ℕ → InboundConn × Option ℕ
add_route ic stream b = (record ic { routes = put ic.routes stream b }, get ic.routes stream)

unfoldable pub remove_route : InboundConn → String → ℕ → InboundConn
remove_route ic stream b =
    if same (get ic.routes stream) b then record ic { routes = remove ic.routes stream } else ic

unfoldable pub lookup_route : InboundConn → String → Option ℕ
lookup_route ic stream = get ic.routes stream

-- close of a session: its closeOnce
abbrev pub closed_session : Dict ℕ BridgeSession → ℕ → Option BridgeSession → Dict ℕ BridgeSession
closed_session ss b none = ss
closed_session ss b (some s) = put ss b (record s { closed = true })

unfoldable pub close_session : Dict ℕ BridgeSession → ℕ → Dict ℕ BridgeSession
close_session ss b = closed_session ss b (get ss b)

-- the loop over the routes
unfoldable pub close_all : List (String × ℕ) → Dict ℕ BridgeSession → Dict ℕ BridgeSession
unfolding close_session
close_all [] ss = ss
close_all ((stream, b) ∷ rs) ss = close_all rs (close_session ss b)

-- close of a connection: its closeOnce, and the fan-out to the routes it had
abbrev pub closed_inbound : Gateway → ℕ → Option InboundConn → Gateway
closed_inbound g i none = g
closed_inbound g i (some ic) = if ic.closed then g else record g {
  inbounds = put g.inbounds i (record ic { routes = empty; closed = true });
  sessions = close_all ic.routes.entries g.sessions;
}

unfoldable pub close_inbound : Gateway → ℕ → Gateway
unfolding close_all
close_inbound g i = closed_inbound g i (get g.inbounds i)

abbrev pub close_evicted : Gateway → Option ℕ → Gateway
close_evicted g none = g
close_evicted g (some i) = close_inbound g i

-- handleInbound up to its reader loop: Register, close of the evicted connection, and MarkConnected
unfoldable pub connect : Gateway → String → ℕ → Gateway
unfolding register close_inbound new_inbound_conn
connect g exe i =
    let (conns, evicted) = register g.conns exe i in
    let g' =
      close_evicted (record g { conns = conns; inbounds = put g.inbounds i (new_inbound_conn exe) })
        evicted in
    record g' { shown = put g'.shown exe true }

-- handleInbound after its reader loop: Unregister, close, and MarkDisconnected
unfoldable pub disconnect : Gateway → String → ℕ → Gateway
unfolding unregister close_inbound
disconnect g exe i =
    let g' = close_inbound (record g { conns = unregister g.conns exe i }) i in
    record g' { shown = put g'.shown exe false }
