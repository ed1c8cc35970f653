-- ===== src/Broker/Steps.antt =====
-- Everything that changes a Conn, in any order: calls begin, wait, are answered or given up, frames
-- arrive, turns end, and the reader ends (internal/codexappgateway/broker/conn.go).
use cli_server.Common.{
  All, ℕ, ◌≡◌, suc, Option, some, string_eq, String, nat_eq, subst, Result, ok, err,
}
use cli_server.Common.Text.{Text}
use cli_server.Common.Int.{int_eq, ℤ, pos}
use cli_server.Common.Dict.{get, get-remove-none, get-empty}
use cli_server.Broker.{RpcResponse, TurnPayload, Wire}
use cli_server.Broker.Waiters.{shut}
use cli_server.Broker.Waiting.{no_waiters-IsReady, register-IsReady, withdraw-IsReady}
use cli_server.Broker.Conn.{Conn, Handled, new_conn}
use cli_server.Broker.Dispatch.{dispatch_frame, reader_exit}
use cli_server.Broker.Call.{
  Started, Waited, responded, context_done, chan_closed, TurnEnd, completed, turn_chan_closed,
  time_up, start_call, start_turn, start_thread, forget_call, ack_turn, finish_thread, finish_turn,
  finish_call, await_turn, close_conn, started_turn, CallError, merge_turn_params,
}
use cli_server.Broker.Sound.{IsSound, ReadsTurns, dispatch_frame-IsHandled, reader_exit-shut}

pub data Reach (W : Wire) : Conn → Type 0 where
  dialed : Reach W new_conn
  turn_begun :
      {c : Conn} (thread : String) (caller : Text) (s : Started)
      → Reach W c
      → start_turn W c thread caller ≡ ok s
      → Reach W s.started_conn
  thread_begun : {c : Conn} → Reach W c → Reach W (start_thread c).started_conn
  call_dropped : {c : Conn} (id : ℕ) → Reach W c → Reach W (forget_call c id)
  turn_acked : {c : Conn} (id : ℕ) (w : Waited) → Reach W c → Reach W (ack_turn W c id w).0
  thread_acked : {c : Conn} (id : ℕ) (w : Waited) → Reach W c → Reach W (finish_thread W c id w).0
  turn_ended :
      {c : Conn} (thread turn : String) (e : TurnEnd)
      → Reach W c
      → Reach W (finish_turn W c thread turn e).0
  frame_arrived :
      {c : Conn} (bytes : Text) (h : Handled)
      → Reach W c
      → dispatch_frame W c bytes ≡ some h
      → Reach W h.conn
  conn_closed : {c : Conn} → Reach W c → Reach W (close_conn c)
  reader_ended : {c c' : Conn} (e : String) → Reach W c → reader_exit c e ≡ some c' → Reach W c'

start_call-IsSound :
    (c : Conn) (m : String) (p : Text) → IsSound c → IsSound (start_call c m p).started_conn
unfolding start_call
start_call-IsSound c m p (rs, ts, items) =
    (register-IsReady c.pending_resp (pos (suc c.next_id)) rs, ts, items)

started_turn-IsSound :
    (c : Conn) (m : Result CallError Text) {s : Started}
    → started_turn c m ≡ ok s
    → IsSound c
    → IsSound s.started_conn
started_turn-IsSound c (err e) h sound = cc
started_turn-IsSound c (ok params) {s} h sound =
    let same : start_call c "turn/start" params ≡ s = (cc) in
    subst (λ x. IsSound x.started_conn) same (start_call-IsSound c "turn/start" params sound)

forget_call-IsSound : (c : Conn) (id : ℕ) → IsSound c → IsSound (forget_call c id)
unfolding forget_call
forget_call-IsSound c id (rs, ts, items) = (withdraw-IsReady c.pending_resp (pos id) rs, ts, items)

finish_call-IsSound :
    (read : Text → Option String) (c : Conn) (id : ℕ) (fallback : String) (w : Waited)
    → IsSound c
    → IsSound (finish_call read c id fallback w).0
unfolding finish_call
finish_call-IsSound read c id fallback (responded r) s = s
finish_call-IsSound read c id fallback context_done s = forget_call-IsSound c id s
finish_call-IsSound read c id fallback chan_closed s = forget_call-IsSound c id s

await_turn-IsSound : (r : Conn × Result CallError String) → IsSound r.0 → IsSound (await_turn r).0
await_turn-IsSound (c, err e) s = s
await_turn-IsSound (c, ok turn) (rs, ts, items) =
    (rs, register-IsReady c.pending_turns turn ts, items)

finish_turn-IsSound :
    (W : Wire) (c : Conn) (thread turn : String) (e : TurnEnd)
    → IsSound c
    → IsSound (finish_turn W c thread turn e).0
unfolding finish_turn close_conn
finish_turn-IsSound W c thread turn (completed p) s = s
finish_turn-IsSound W c thread turn turn_chan_closed s = s
finish_turn-IsSound W c thread turn time_up (rs, ts, items) =
    (rs, withdraw-IsReady c.pending_turns turn ts, get-remove-none c.items_by_turn turn "" items)

pub Reach-IsSound : (W : Wire) (reads : ReadsTurns W) {c : Conn} → Reach W c → IsSound c
unfolding new_conn start_turn start_thread ack_turn finish_thread close_conn
Reach-IsSound W reads dialed =
    (no_waiters-IsReady ℤ RpcResponse, no_waiters-IsReady String TurnPayload, get-empty "")
Reach-IsSound W reads (turn_begun {c} thread caller s r e) =
    started_turn-IsSound c (merge_turn_params W thread caller) e (Reach-IsSound W reads r)
Reach-IsSound W reads (thread_begun {c} r) = start_call-IsSound c _ _ (Reach-IsSound W reads r)
Reach-IsSound W reads (call_dropped {c} id r) = forget_call-IsSound c id (Reach-IsSound W reads r)
Reach-IsSound W reads (turn_acked {c} id w r) =
    await_turn-IsSound _ (finish_call-IsSound W.read_turn_start c id _ w (Reach-IsSound W reads r))
Reach-IsSound W reads (thread_acked {c} id w r) =
    finish_call-IsSound W.read_thread_start c id _ w (Reach-IsSound W reads r)
Reach-IsSound W reads (turn_ended {c} thread turn e r) =
    finish_turn-IsSound W c thread turn e (Reach-IsSound W reads r)
Reach-IsSound W reads (frame_arrived {c} bytes h r e) =
    let (h', e', sound) = dispatch_frame-IsHandled W reads c bytes (Reach-IsSound W reads r) in
    let same : h' ≡ h = (cc) in subst (λ x. IsSound x.conn) same sound
Reach-IsSound W reads (conn_closed {c} r) = Reach-IsSound W reads r
Reach-IsSound W reads (reader_ended {c} {c'} e r done) =
    let (d, e', sound, resp_shut, turns_shut) = reader_exit-shut c e (Reach-IsSound W reads r) in
    let same : d ≡ c' = (cc) in subst IsSound same sound

-- If a decoded turn with an id is never the text `null`: in whatever order calls, frames, timeouts and
-- the end of the reader come, the reader handles the next frame. It never waits at a channel, never
-- sends on a closed one, and never writes to a nil map.
pub Reach-dispatch_frame :
    (W : Wire) (reads : ReadsTurns W) {c : Conn} (bytes : Text)
    → Reach W c
    → (h : Handled) × (dispatch_frame W c bytes ≡ some h) × Reach W h.conn
Reach-dispatch_frame W reads {c} bytes r =
    let (h, handled, sound) = dispatch_frame-IsHandled W reads c bytes (Reach-IsSound W reads r) in
    (h, handled, frame_arrived bytes h r handled)

-- If a decoded turn with an id is never the text `null`: whatever came before, when the reader ends no
-- close of a channel panics, and every caller that is registered for a response or for the end of a
-- turn finds its channel closed.
pub Reach-reader_exit :
    (W : Wire) (reads : ReadsTurns W) {c : Conn} (e : String)
    → Reach W c
    → (c' : Conn) × (reader_exit c e ≡ some c')
      × All (λ d. get c'.pending_resp.chans d.1 ≡ some shut) c.pending_resp.pending.entries
      × All (λ d. get c'.pending_turns.chans d.1 ≡ some shut) c.pending_turns.pending.entries
Reach-reader_exit W reads {c} e r =
    let (c', done, sound, resp_shut, turns_shut) = reader_exit-shut c e (Reach-IsSound W reads r) in
    (c', done, resp_shut, turns_shut)
