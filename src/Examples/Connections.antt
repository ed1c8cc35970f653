-- ===== src/Examples/Connections.antt =====
-- Connections of the gateway, and its revoked turns.
use cli_server.Common.{
  ℕ, ◌<◌, ◌≡◌, ◌≢◌, refl, ◌||◌, true, false, String, some, List, [], ◌∷◌, ◌==◌, string_eq, nat_eq,
  arith,
}
use cli_server.Common.Int.{pos}
use cli_server.Common.Dict.{get, put, without, empty, find}
use cli_server.Gateway.Mux.{Gateway, InboundConn, connect, disconnect, lookup_conn, close_inbound}
use cli_server.Gateway.Mux.Routes.{
  Event, arrive, depart, run, undisturbed, connect-keeps, disconnect-shown,
}
use cli_server.Gateway.Mux.Fanout.{is_closed, routed, close_inbound-closes}
use cli_server.Gateway.Revocation.{
  RevokedSet, new_revoked_set, add, contains, evict, refresh, push_back,
}
use cli_server.Common.{Option, Bool, Result, ok}
use cli_server.Common.Text.{Text, codes, has_prefix, trim_prefix}
use cli_server.Gateway.Bridge.{Payload, FirstFrame, handle_bridge}
use cli_server.Gateway.Bridge.Paired.{Admitted, handle_bridge-Admitted}
use cli_server.Gateway.Revocation.Bounded.{Reach, start, added, IsBounded, Reach-IsBounded}
use cli_server.Gateway.Revocation.Kept.{expiry, add_revokes, add_unreported, add_reported}

abbrev inbound : InboundConn
inbound = record { exe_id = "x"; routes = record { entries = ("s", 7) ∷ [] }; closed = false }

abbrev gateway : Gateway
gateway = record {
  conns = record { entries = ("x", 1) ∷ [] };
  inbounds = record { entries = (1, inbound) ∷ [] };
  sessions = record { entries = (7, record { stream_id = "s"; closed = false }) ∷ [] };
  shown = record { entries = ("x", true) ∷ [] };
}

abbrev others : List Event
others = depart "x" 1 ∷ arrive "y" 4 ∷ depart "y" 4 ∷ []

others-undisturbed : undisturbed "x" 2 others ≡ true
unfolding undisturbed
others-undisturbed = refl

connect-keeps_example : lookup_conn (run others (connect gateway "x" 2)).conns "x" ≡ some 2
connect-keeps_example = connect-keeps gateway "x" 2 others others-undisturbed

one_is_not_two : ◌≢◌ {A = ℕ} 1 2
one_is_not_two e = omega arith

disconnect-shown_example :
    (lookup_conn (disconnect (connect (connect gateway "x" 1) "x" 2) "x" 1).conns "x" ≡ some 2)
    × (get (disconnect (connect (connect gateway "x" 1) "x" 2) "x" 1).shown "x" ≡ some false)
disconnect-shown_example = disconnect-shown gateway "x" 1 2 one_is_not_two

inbound_held : get gateway.inbounds 1 ≡ some inbound
unfolding get find
inbound_held = refl

close_inbound-closes_example :
    (is_closed (get (close_inbound gateway 1).sessions 7)
      ≡ (routed 7 inbound.routes.entries || is_closed (get gateway.sessions 7)))
    × (get (close_inbound gateway 1).inbounds 1
        ≡ some (record inbound { routes = empty; closed = true }))
close_inbound-closes_example = close_inbound-closes gateway 1 inbound 7 inbound_held refl

abbrev revoked : RevokedSet
revoked = (add (new_revoked_set (pos 2)) "t" 50 1).0

revoked-Reach : Reach revoked
revoked-Reach = added "t" 50 1 (start (pos 2))

Reach-IsBounded_example : IsBounded revoked
Reach-IsBounded_example = Reach-IsBounded revoked-Reach

revoked-IsBounded : IsBounded revoked
revoked-IsBounded = Reach-IsBounded revoked-Reach

room : (add revoked "u" 60 2).1 ≡ false
unfolding add evict new_revoked_set get put find without empty refresh push_back
room = refl

t_revoked : expiry revoked "t" ≡ some 50
t_revoked = (add_revokes (new_revoked_set (pos 2)) (Reach-IsBounded (start (pos 2))) "t" 50 1).1

add_unreported_example : expiry (add revoked "u" 60 2).0 "t" ≡ some 50
add_unreported_example =
    add_unreported revoked revoked-IsBounded "u" 60 2 "t" 50 room refl t_revoked (omega arith)

abbrev full : RevokedSet
full = (add (new_revoked_set (pos 1)) "t" 50 1).0

full-IsBounded : IsBounded full
full-IsBounded = Reach-IsBounded (added "t" 50 1 (start (pos 1)))

no_room : (add full "u" 60 2).1 ≡ true
unfolding add evict new_revoked_set get put find without empty refresh push_back
no_room = refl

add_reported_example :
    (j : String) × (x : ℕ) × (expiry full j ≡ some x)
    × (2 < x)
    × (contains (add full "u" 60 2).0 j ≡ false)
add_reported_example = add_reported full full-IsBounded "u" 60 2 no_room

abbrev verified : Text → Option Payload
verified token = some (record { turn_id = "t"; workspace_id = "w" })

abbrev owned_by_all : String → String → Option (Result (Unit {0}) Bool)
owned_by_all w exe = some (ok true)

abbrev resume : Option (Option FirstFrame)
resume = some (some (record { is_binary = true; decoded = some (true, "s") }))

paired :
    handle_bridge verified
      (new_revoked_set (pos 2))
      owned_by_all
      gateway
      "x"
      (codes "Bearer abc")
      resume
    ≡ ok (1, "s")
unfolding handle_bridge contains new_revoked_set lookup_conn get find empty has_prefix trim_prefix
paired = refl

handle_bridge-Admitted_example :
    Admitted verified (new_revoked_set (pos 2)) owned_by_all gateway "x" (codes "Bearer abc") 1
    × (resume ≡ some (some (record { is_binary = true; decoded = some (true, "s") })))
    × (◌==◌ {Key = String} "s" "" ≡ false)
handle_bridge-Admitted_example =
    handle_bridge-Admitted verified (new_revoked_set (pos 2)) owned_by_all gateway "x"
      (codes "Bearer abc") resume 1 "s" paired
