-- ===== src/Examples/Brokers.antt =====
-- One turn of a broker: a call, two items, and the end of the turn; and a pool.
use cli_server.Common.{
  ℕ, ◌≡◌, refl, Option, some, none, List, [], ◌∷◌, ◌++◌, Bool, true, false, if◌then◌else◌, ◌==◌,
  string_eq, nat_eq, String, Result, ok, err, map, All, arith,
}
use cli_server.Common.Text.{codes, text_eq, text_beq}
use cli_server.Common.Int.{int_eq, pos}
use cli_server.Common.Dict.{Dict, get, put, empty}
use cli_server.Broker.{RpcResponse, RpcError, TurnPayload, ItemCompletedParams, Wire}
use cli_server.Broker.Waiters.{Waiters, shut}
use cli_server.Broker.Conn.{Conn, Handled, new_conn}
use cli_server.Broker.Dispatch.{dispatch_frame, reader_exit}
use cli_server.Broker.Call.{Started, responded, start_turn, start_call, ack_turn}
use cli_server.Broker.Sound.{ReadsTurns}
use cli_server.Broker.Steps.{
  Reach, dialed, turn_begun, turn_acked, Reach-dispatch_frame, Reach-reader_exit,
}
use cli_server.Broker.Replies.{owed_for, dispatch_frame-owed}
use cli_server.Broker.Pool.{Pool, PoolError, get_conn, is_dead}
use cli_server.Broker.Pool.Reaper.{get_conn-shared}

abbrev notification : String → RpcResponse
notification method = record { id = none; result = []; error = none; method = method; params = [] }

abbrev asked : RpcResponse
asked = record { id = some (pos 7); result = []; error = none; method = "new/request"; params = [] }

abbrev done_payload : TurnPayload
done_payload = record { turn = "t1"; raw = codes "{}" }

-- An object is encoded as the text of its field `items`, and an array as its items one after the other.
abbrev items_or_none : Option (List ℕ) → List ℕ
items_or_none none = codes "{items}"
items_or_none (some t) = t

abbrev concat : List (List ℕ) → List ℕ
concat [] = []
concat (t ∷ ts) = t ++ concat ts

abbrev small_wire : Wire
small_wire = record {
  read_frame = λ t.
      if t == codes "item"
      then some (notification "item/completed")
      else if t == codes "done"
      then some (notification "turn/completed")
      else if t == codes "ask"
      then some asked
      else none;
  read_item_completed = λ t. some (record { item = codes "x"; turn_id = "t1" });
  read_turn_completed = λ t. some done_payload;
  read_turn_start = λ t. some "t1";
  read_thread_start = λ t. some "th";
  read_object = λ t. some (some (put empty "items" t));
  write_object = λ m. some (items_or_none (get m "items"));
  write_array = λ items. some (concat items);
  quote = codes;
  write_interrupt = λ thread turn. codes turn;
}

small_wire-ReadsTurns : ReadsTurns small_wire
small_wire-ReadsTurns params p read null = cc

abbrev begun : Started
begun = start_call new_conn "turn/start" (codes "{items}")

turn_starts : start_turn small_wire new_conn "th" [] ≡ ok begun
unfolding start_turn cli_server.Broker.Call.merge_turn_params cli_server.Common.Dict.get
    cli_server.Common.Dict.empty cli_server.Common.Dict.find put
turn_starts = refl

abbrev answer_frame : RpcResponse
answer_frame = record { id = some (pos 2); result = []; error = none; method = ""; params = [] }

abbrev waiting_conn : Conn
waiting_conn = (ack_turn small_wire begun.started_conn 2 (responded answer_frame)).0

waiting-Reach : Reach small_wire waiting_conn
waiting-Reach = turn_acked 2 (responded answer_frame) (turn_begun "th" [] begun dialed turn_starts)

Reach-dispatch_frame_example :
    (h : Handled) × (dispatch_frame small_wire waiting_conn (codes "item") ≡ some h)
    × Reach small_wire h.conn
Reach-dispatch_frame_example =
    Reach-dispatch_frame small_wire small_wire-ReadsTurns (codes "item") waiting-Reach

Reach-reader_exit_example :
    (c' : Conn) × (reader_exit waiting_conn "EOF" ≡ some c')
    × All (λ d. get c'.pending_resp.chans d.1 ≡ some shut) waiting_conn.pending_resp.pending.entries
    × All
        (λ d. get c'.pending_turns.chans d.1 ≡ some shut)
        waiting_conn.pending_turns.pending.entries
Reach-reader_exit_example = Reach-reader_exit small_wire small_wire-ReadsTurns "EOF" waiting-Reach

abbrev asked_handled : Handled
asked_handled = record {
  conn = new_conn;
  written = cli_server.Broker.Dispatch.not_found_answer (pos 7) "new/request" ∷ [];
}

ask_handled : dispatch_frame small_wire new_conn (codes "ask") ≡ some asked_handled
unfolding dispatch_frame text_beq cli_server.Broker.Dispatch.dispatch_listened
    cli_server.Names.Approval.is_approval
ask_handled = refl

dispatch_frame-owed_example :
    map (λ r. r.id) asked_handled.written ≡ owed_for (small_wire.read_frame (codes "ask"))
dispatch_frame-owed_example =
    dispatch_frame-owed small_wire new_conn (codes "ask") asked_handled ask_handled

abbrev empty_pool : Pool
empty_pool = record {
  entries = record { entries = [] };
  idle_ttl = 300;
  conns = record { entries = [] };
  dialed = 0;
}

abbrev dial_answer : Result PoolError Conn
dial_answer = ok (record (new_conn) { close_err = none })

first_dialed : (get_conn empty_pool 10 "w" dial_answer).1 ≡ ok 0
unfolding get_conn get cli_server.Common.Dict.find
first_dialed = refl

get_conn-shared_example :
    (is_dead (get (get_conn empty_pool 10 "w" dial_answer).0.conns 0) ≡ false)
    × ((get_conn (get_conn empty_pool 10 "w" dial_answer).0 20 "w" dial_answer).1 ≡ ok 0)
get_conn-shared_example =
    get_conn-shared empty_pool 10 20 "w" dial_answer dial_answer 0 refl refl first_dialed
