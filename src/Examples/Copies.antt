-- ===== src/Examples/Copies.antt =====
-- Copies of one file, through the bridge and through the relay, a stream header, and a replaced tunnel.
use cli_server.Common.{
  Bool, ℕ, ◌≡◌, refl, ◌^◌, ◌||◌, some, [], ◌∷◌, ◌++◌, true, false, if◌then◌else◌, ltb, length, ok,
  err, arith,
}
use cli_server.Common.Text.{codes, text_beq, trim_space, trim_left, trim_right, is_space}
use cli_server.Common.Int.{pos}
use cli_server.CopyPath.{Reply, result}
use cli_server.CopyPath.Quote.{sh_quote, word_of, unquoted, word_of-sh_quote}
use cli_server.CopyPath.Pump.{pump_chunks, forward, total_bytes}
use cli_server.CopyPath.Pumped.{source_stdout}
use cli_server.CopyPath.Transfer.{Paths, WsEnv, CopyPathArgs, call_ws_pump, copied_ws, mv_ends}
use cli_server.CopyPath.Http.{
  HttpEnv, RelayTicket, Reachable, call_http_relay, call, transport_name, dispatch_transport,
}
use cli_server.CopyPath.Effects.{
  removals, renames, writes, after_error, without_error, call_ws_pump-partial, call_ws_pump-copied,
}
use cli_server.CopyPath.Relayed.{is_copied_http, call_http_relay-removes, call-relay_disabled}
use cli_server.Common.Keys.{string_eq, nat_eq}
use cli_server.Common.Dict.{get, put, find, without, empty}
use cli_server.Tunnel.Registry.{
  Registry, Tunnel, new_registry, make_tunnel, register_tunnel, running, shut_down,
  close_stored_tunnel, close_status,
}
use cli_server.Tunnel.Registry.Registered.{Reach, begun, made, registered, Reach-running}
use cli_server.Tunnel.Registry.Accounted.{mark, IsAccounted}
use cli_server.Tunnel.Stream.{
  write_stream_header, read_stream_header, metadata_too_large, write_stream_header-read,
}

abbrev plain_paths : Paths
plain_paths = record { dir = λ p. codes "/d"; base = λ p. p }

abbrev file_args : CopyPathArgs
file_args = record {
  source_environment_id = codes "a";
  source_path = codes "/s";
  destination_environment_id = codes "b";
  destination_path = codes "/d/t";
  recursive = false;
  transport = codes "http";
}

abbrev last_reply : Reply
last_reply = result (record {
  chunks = record { is_stdout = true; decoded = some (codes "hi") } ∷ [];
  exited = true;
  closed = false;
  exit_code = some (pos 0);
})

abbrev good_env : WsEnv
good_env = record {
  source_starts = true;
  destination_starts = true;
  accepts = λ n. true;
  source_replies = last_reply ∷ [];
  mv_starts = true;
  mv_replies = last_reply ∷ [];
}

-- the rename fails: `mv` cannot be started
abbrev no_mv_env : WsEnv
no_mv_env = record good_env { mv_starts = false }

call_ws_pump-partial_example :
    (removals (call_ws_pump plain_paths no_mv_env file_args (codes "x")).effects
      ≡ after_error
          (pump_chunks no_mv_env.accepts no_mv_env.source_replies []).failure
          (file_args.destination_path ++ codes ".partial-" ++ codes "x"))
    × (renames (call_ws_pump plain_paths no_mv_env file_args (codes "x")).effects
        ≡ without_error (pump_chunks no_mv_env.accepts no_mv_env.source_replies []).failure (
          file_args.destination_path ++ codes ".partial-" ++ codes "x",
          file_args.destination_path,
        ))
call_ws_pump-partial_example =
    call_ws_pump-partial plain_paths no_mv_env file_args (codes "x") refl refl refl

two_copied : (call_ws_pump plain_paths good_env file_args (codes "x")).outcome ≡ copied_ws 2
unfolding call_ws_pump pump_chunks forward total_bytes mv_ends
two_copied = refl

call_ws_pump-copied_example :
    (writes (call_ws_pump plain_paths good_env file_args (codes "x")).effects
      ≡ source_stdout good_env.source_replies)
    × (◌≡◌ {A = ℕ} 2 (total_bytes (source_stdout good_env.source_replies)))
    × ((file_args.recursive || mv_ends good_env.mv_replies) ≡ true)
call_ws_pump-copied_example =
    call_ws_pump-copied plain_paths good_env file_args (codes "x") 2 two_copied

abbrev relay_ticket : RelayTicket
relay_ticket = record { ticket = codes "t"; upload_url = codes "u"; download_url = codes "v" }

-- the source has no curl
abbrev curl_missing : HttpEnv
curl_missing = record {
  relay_enabled = true;
  created = some relay_ticket;
  source_shell_starts = true;
  source_shell_replies =
      result (record { chunks = []; exited = true; closed = false; exit_code = some (pos 127) })
      ∷ [];
  destination_shell_starts = true;
  destination_shell_replies = [];
  http_mv_starts = true;
  http_mv_replies = last_reply ∷ [];
}

call_http_relay-removes_example :
    removals (call_http_relay plain_paths curl_missing file_args (codes "x")).http_effects ≡ (
      if is_copied_http (call_http_relay plain_paths curl_missing file_args (codes "x")).answer
      then []
      else (file_args.destination_path ++ codes ".partial-" ++ codes "x") ∷ [])
call_http_relay-removes_example =
    call_http_relay-removes plain_paths curl_missing file_args (codes "x") relay_ticket refl refl
      refl

abbrev no_relay : HttpEnv
no_relay = record curl_missing { relay_enabled = false }

abbrev all_reachable : Reachable
all_reachable = record {
  source_resolves = true;
  destination_resolves = true;
  source_connects = true;
  destination_connects = true;
}

http_called :
    call plain_paths all_reachable no_relay good_env file_args (codes "h") (codes "x")
    ≡ ok (call_ws_pump plain_paths good_env file_args (codes "x"))
unfolding call transport_name dispatch_transport call_http_relay trim_space trim_left trim_right
    is_space text_beq
http_called = refl

call-relay_disabled_example :
    call_ws_pump plain_paths good_env file_args (codes "x")
    ≡ call_ws_pump plain_paths good_env file_args (codes "x")
call-relay_disabled_example =
    call-relay_disabled plain_paths all_reachable no_relay good_env file_args (codes "h")
      (codes "x") (call_ws_pump plain_paths good_env file_args (codes "x")) refl http_called

word_of-sh_quote_example :
    word_of unquoted (sh_quote (codes "it's; rm -rf /")) ≡ some (codes "it's; rm -rf /")
word_of-sh_quote_example = word_of-sh_quote (codes "it's; rm -rf /")

write_stream_header-read_example :
    read_stream_header (write_stream_header 1 (codes "{}") ++ codes "body") ≡ (
      if ltb (2 ^ 20) (length (codes "{}"))
      then err (metadata_too_large (length (codes "{}")))
      else ok (1, codes "{}", codes "body"))
write_stream_header-read_example =
    write_stream_header-read 1 (codes "{}") (codes "body") (omega arith)

abbrev first_made : Registry
first_made = make_tunnel new_registry "s" true

abbrev first_registered : Registry
first_registered = record first_made { tunnels = put empty "s" 0 }

abbrev second_made : Registry
second_made = make_tunnel first_registered "s" true

abbrev an_agent : Tunnel
an_agent = record { sandbox_id = "s"; status = running }

abbrev second_registered : Registry
second_registered = record {
  tunnels = record { entries = ("s", 1) ∷ [] };
  store = record { entries = (0, record an_agent { status = shut_down }) ∷ (1, an_agent) ∷ [] };
  count = 2;
  stuck = false;
}

first_stored : get first_made.store 0 ≡ some an_agent
unfolding make_tunnel new_registry get put find without empty
first_stored = refl

first_registers : register_tunnel first_made "s" 0 ≡ some first_registered
unfolding make_tunnel register_tunnel new_registry get put find without empty
first_registers = refl

second_stored : get second_made.store 1 ≡ some an_agent
unfolding make_tunnel new_registry get put find without empty
second_stored = refl

second_registers : register_tunnel second_made "s" 1 ≡ some second_registered
unfolding make_tunnel register_tunnel close_stored_tunnel close_status new_registry get put find
    without empty
second_registers = refl

newer_stored : get second_registered.store 1 ≡ some an_agent
unfolding get find
newer_stored = refl

abbrev none_pending : ℕ → Bool
none_pending = mark 1 false (mark 1 true (mark 0 false (mark 0 true (λ i. false))))

two_registered : Reach second_registered none_pending
unfolding make_tunnel new_registry
two_registered =
    registered 1 an_agent
      (made "s" true (registered 0 an_agent (made "s" true begun) first_stored first_registers))
      second_stored second_registers

Reach-running_example : IsAccounted second_registered none_pending 1 "s"
Reach-running_example = Reach-running 1 an_agent two_registered newer_stored refl
