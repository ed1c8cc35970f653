-- ===== src/Examples/Tickets.antt =====
-- Tickets of the relay.
use cli_server.Common.{
  ◌+◌, ◌≡◌, refl, true, false, none, some, List, [], ◌∷◌, ok, length, string_eq,
}
use cli_server.Common.Int.{pos}
use cli_server.Common.Dict.{get, put, find, without, empty, get-empty}
use cli_server.Relay.{
  Relay, Registry, CreateOptions, new_registry, create, cleanup, insert_relay, relay_of,
}
use cli_server.Relay.Capacity.{start, created, cleaned, IsExact, Reach-IsExact}
use cli_server.Relay.Pairing.{
  Event, put_request, get_request, put_ready, get_ready, copy, run, new_relay,
}
use cli_server.Relay.Pairing.Progress.{
  waiting, requests, is_put_request, is_get_request, wind_up, run_answers, run_terminates,
}

abbrev opt : CreateOptions
opt = record {
  workspace_id = "ws";
  source_exe_id = "s";
  dest_exe_id = "d";
  ttl = pos 0;
  max_bytes = pos 0;
}

abbrev empty_registry : Registry
empty_registry = new_registry (pos 1) (pos 60)

fresh-unused : get empty_registry.tickets "t" ≡ none
unfolding new_registry
fresh-unused = get-empty "t"

abbrev relay : Relay
relay = relay_of opt 60 5 "t"

Reach-IsExact_example : IsExact (cleanup empty_registry "t")
Reach-IsExact_example = Reach-IsExact (cleaned "t" (start (pos 1) (pos 60)))

fresh-IsExact : IsExact empty_registry
fresh-IsExact = Reach-IsExact (start (pos 1) (pos 60))

abbrev one_ticket : Registry
one_ticket = record empty_registry {
  tickets = record { entries = ("t", relay) ∷ [] };
  workspace_count = record { entries = ("ws", 1) ∷ [] };
}

one_ticket-created : create empty_registry opt 5 (some "t") ≡ ok (relay, one_ticket)
unfolding create insert_relay new_registry put get find without empty
one_ticket-created = refl

one_ticket-IsExact : IsExact one_ticket
one_ticket-IsExact =
    Reach-IsExact (created opt 5 "t" (start (pos 1) (pos 60)) fresh-unused one_ticket-created)

one_ticket-holds : get one_ticket.tickets "t" ≡ some relay
unfolding get find
one_ticket-holds = refl

abbrev events : List Event
events = put_request ∷ get_request ∷ put_ready ∷ put_request ∷ get_ready ∷ copy 3 false ∷ []

run_answers_example :
    (length (run (new_relay (pos 4)) events).1.0 + waiting (run (new_relay (pos 4)) events).0.put
      ≡ requests is_put_request events)
    × (length (run (new_relay (pos 4)) events).1.1 + waiting (run (new_relay (pos 4)) events).0.get
        ≡ requests is_get_request events)
run_answers_example = run_answers (pos 4) events

run_terminates_example :
    ((run (run (new_relay (pos 4)) events).0 (wind_up 9 true)).0.finished ≡ true)
    × (waiting (run (run (new_relay (pos 4)) events).0 (wind_up 9 true)).0.put ≡ 0)
    × (waiting (run (run (new_relay (pos 4)) events).0 (wind_up 9 true)).0.get ≡ 0)
run_terminates_example = run_terminates (pos 4) events 9 true
