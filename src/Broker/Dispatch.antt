-- ===== src/Broker/Dispatch.antt =====
-- dispatchFrame, readLoop and failAllPending of internal/codexappgateway/broker/conn.go.
use cli_server.Common.{
  Option, some, none, List, [], ◌∷◌, ◌++◌, if◌then◌else◌, ◌==◌, string_eq, String,
}
use cli_server.Common.Text.{Text, codes}
use cli_server.Common.Int.{int_eq, ℤ, negsuc}
use cli_server.Common.Dict.{empty}
use cli_server.Broker.{RpcResponse, TurnPayload, Wire}
use cli_server.Broker.Waiters.{Waiters, fail_all}
use cli_server.Broker.Conn.{
  Conn, Handled, deliver_response, dropped, answered, add_item, complete_turn,
}
use cli_server.Names.Approval.{is_approval, reply}

abbrev pub approval_answer : ℤ → String → RpcResponse
approval_answer id method = record {
  id = some id;
  result = codes (reply method);
  error = none;
  method = "";
  params = [];
}

abbrev pub not_found_answer : ℤ → String → RpcResponse
not_found_answer id method = record {
  id = some id;
  result = [];
  error = some (record {
    code = negsuc 32600;
    message = codes "method not implemented by agentserver broker: " ++ codes method;
    error_data = [];
  });
  method = "";
  params = [];
}

-- a notification or a request, by its method
unfoldable pub dispatch_listened : Wire → Conn → RpcResponse → Option Handled → Option Handled
dispatch_listened W c f otherwise =
    if f.method == "item/completed"
    then dropped (add_item c (W.read_item_completed f.params))
    else if f.method == "turn/completed"
    then complete_turn W c (W.read_turn_completed f.params)
    else otherwise

abbrev pub dispatch_by_id : Wire → Conn → RpcResponse → Option ℤ → Option Handled
dispatch_by_id W c f none = dispatch_listened W c f (dropped c)
dispatch_by_id W c f (some id) =
    if f.method == ""
    then deliver_response c id f
    else if is_approval f.method
    then answered c (approval_answer id f.method)
    else dispatch_listened W c f (answered c (not_found_answer id f.method))

abbrev pub dispatch_decoded : Wire → Conn → Option RpcResponse → Option Handled
dispatch_decoded W c none = dropped c
dispatch_decoded W c (some f) = dispatch_by_id W c f f.id

unfoldable pub dispatch_frame : Wire → Conn → Text → Option Handled
dispatch_frame W c bytes = dispatch_decoded W c (W.read_frame bytes)

-- the reader's loop over the frames that arrive, with all that it writes
abbrev pub then_written : List RpcResponse → Option Handled → Option Handled
then_written before none = none
then_written before (some h) = some (record h { written = before ++ h.written })

unfoldable pub run : Wire → Conn → List Text → Option Handled
run W c [] = dropped c
run W c (f ∷ fs) = elim (dispatch_frame W c f) [
  | none ↦ none
  | some h ↦ then_written h.written (run W h.conn fs)
]

abbrev pub err_or : Option String → String → Option String
err_or none e = some e
err_or (some e') e = some e'

abbrev pub all_failed :
    Conn
    → String
    → Option (Waiters ℤ RpcResponse)
    → Option (Waiters String TurnPayload)
    → Option Conn
all_failed c e (some rs) (some ts) = some (record c {
  pending_resp = rs;
  pending_turns = ts;
  items_by_turn = empty;
  close_err = err_or c.close_err e;
})
all_failed c e (some rs) none = none
all_failed c e none ts = none

unfoldable pub fail_all_pending : Conn → String → Option Conn
fail_all_pending c e = all_failed c e (fail_all c.pending_resp) (fail_all c.pending_turns)

-- the end of the reader: the error of the read, then the deferred failAllPending
unfoldable pub reader_exit : Conn → String → Option Conn
unfolding fail_all_pending
reader_exit c e =
    fail_all_pending (record c { close_err = err_or c.close_err e }) "connection closed"
