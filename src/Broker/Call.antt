-- ===== src/Broker/Call.antt =====
-- Turn and StartThread of internal/codexappgateway/broker/conn.go, cut where they wait: what a caller
-- does before the request is written, when the response is there or is given up, and at the end of a
-- turn. A written request is part of the result; whether the write succeeds is an argument.
use cli_server.Common.{
  ℕ, suc, Option, some, none, List, [], ◌∷◌, Bool, true, false, if◌then◌else◌, ◌==◌, string_eq,
  String, is_nil, Result, ok, err,
}
use cli_server.Common.Text.{Text, codes}
use cli_server.Common.Int.{int_eq, pos}
use cli_server.Common.Dict.{Dict, get, put, remove, empty}
use cli_server.Broker.{RpcResponse, RpcRequest, RpcError, TurnPayload, Wire}
use cli_server.Broker.Waiters.{register, withdraw}
use cli_server.Broker.Conn.{Conn}

pub data CallError : Type 0 where
  not_an_object : CallError
  has_thread_id : CallError
  nil_map_panic : CallError
  marshal_failed : CallError
  write_failed : CallError
  cancelled : CallError
  conn_error : String → CallError
  rpc_error : RpcError → CallError
  undecodable : CallError
  missing_id : CallError
  timed_out : String → String → CallError

abbrev pub marshalled : Option Text → Result CallError Text
marshalled none = err marshal_failed
marshalled (some t) = ok t

abbrev pub has_key : Option Text → Bool
has_key none = false
has_key (some t) = true

abbrev pub merge_thread : Wire → String → Dict String Text → Result CallError Text
merge_thread W thread m =
    if has_key (get m "threadId")
    then err has_thread_id
    else marshalled (W.write_object (put m "threadId" (W.quote thread)))

-- The decoded params of a caller; the text `null` leaves the map nil, and the assignment panics.
abbrev pub merge_decoded :
    Wire → String → Option (Option (Dict String Text)) → Result CallError Text
merge_decoded W thread none = err not_an_object
merge_decoded W thread (some none) = err nil_map_panic
merge_decoded W thread (some (some m)) = merge_thread W thread m

unfoldable pub merge_turn_params : Wire → String → Text → Result CallError Text
merge_turn_params W thread caller =
    if is_nil caller
    then merge_thread W thread empty
    else merge_decoded W thread (W.read_object caller)

-- A request under way: the Conn after it was registered, its id and the frame to write.
pub record Started : Type 0 where
  pub started_conn : Conn
  pub started_id : ℕ
  pub frame : RpcRequest

unfoldable pub start_call : Conn → String → Text → Started
start_call c method params = record {
  started_conn = record c {
    next_id = suc c.next_id;
    pending_resp = register c.pending_resp (pos (suc c.next_id));
  };
  started_id = suc c.next_id;
  frame = record {
    request_id = some (pos (suc c.next_id));
    request_method = method;
    request_params = params;
  };
}

abbrev pub started_turn : Conn → Result CallError Text → Result CallError Started
started_turn c (err e) = err e
started_turn c (ok params) = ok (start_call c "turn/start" params)

-- Turn up to the write of turn/start
unfoldable pub start_turn : Wire → Conn → String → Text → Result CallError Started
start_turn W c thread caller = started_turn c (merge_turn_params W thread caller)

-- StartThread up to the write of thread/start
unfoldable pub start_thread : Conn → Started
start_thread c = start_call c "thread/start" (codes "{}")

-- the entry of a call that failed to write, or that is given up
unfoldable pub forget_call : Conn → ℕ → Conn
forget_call c id = record c { pending_resp = withdraw c.pending_resp (pos id) }

-- What waitResp saw: a response, the caller's context done, or the channel closed.
pub data Waited : Type 0 where
  responded : RpcResponse → Waited
  context_done : Waited
  chan_closed : Waited

-- c.closeErrOr(fallback)
abbrev pub close_err_or : Option String → String → String
close_err_or none fallback = fallback
close_err_or (some e) fallback = e

abbrev pub named : Option String → Result CallError String
named none = err undecodable
named (some id) = if id == "" then err missing_id else ok id

abbrev pub read_result : (Text → Option String) → Text → Option RpcError → Result CallError String
read_result read result (some e) = err (rpc_error e)
read_result read result none = named (read result)

-- the part of both calls between the wait and the use of the id in the result
unfoldable pub finish_call :
    (Text → Option String) → Conn → ℕ → String → Waited → Conn × Result CallError String
unfolding forget_call
finish_call read c id fallback context_done = (forget_call c id, err cancelled)
finish_call read c id fallback chan_closed =
    (forget_call c id, err (conn_error (close_err_or c.close_err fallback)))
finish_call read c id fallback (responded r) = (c, read_result read r.result r.error)

-- c.pendingTurns[id] = make(chan turnPayload, 1)
abbrev pub await_turn : Conn × Result CallError String → Conn × Result CallError String
await_turn (c, err e) = (c, err e)
await_turn (c, ok turn) = (record c { pending_turns = register c.pending_turns turn }, ok turn)

unfoldable pub ack_turn : Wire → Conn → ℕ → Waited → Conn × Result CallError String
unfolding finish_call
ack_turn W c id waited =
    await_turn
      (finish_call W.read_turn_start c id "connection closed before turn/start response" waited)

unfoldable pub finish_thread : Wire → Conn → ℕ → Waited → Conn × Result CallError String
unfolding finish_call
finish_thread W c id waited =
    finish_call W.read_thread_start c id "connection closed before thread/start response" waited

-- c.Close()
unfoldable pub close_conn : Conn → Conn
close_conn c = record c { closed = true }

-- What ends the wait for turn/completed: the payload, the closed channel, or the time that is up.
pub data TurnEnd : Type 0 where
  completed : TurnPayload → TurnEnd
  turn_chan_closed : TurnEnd
  time_up : TurnEnd

-- The end of Turn; a timeout removes the turn, writes turn/interrupt and closes the Conn.
unfoldable pub finish_turn :
    Wire → Conn → String → String → TurnEnd → Conn × List RpcRequest × Result CallError Text
finish_turn W c thread turn (completed p) = (c, [], ok p.raw)
finish_turn W c thread turn turn_chan_closed =
    (c, [], err (conn_error (close_err_or c.close_err "connection closed before turn/completed")))
finish_turn W c thread turn time_up =
    let c' = record c {
      next_id = suc c.next_id;
      pending_turns = withdraw c.pending_turns turn;
      items_by_turn = remove c.items_by_turn turn;
    } in
    (
      close_conn c',
      record {
        request_id = some (pos (suc c.next_id));
        request_method = "turn/interrupt";
        request_params = W.write_interrupt thread turn;
      }
          ∷ [],
      err (timed_out thread turn),
    )
