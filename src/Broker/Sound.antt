-- ===== src/Broker/Sound.antt =====
-- The reader of a sound Conn handles every frame: it neither waits at a channel nor panics
-- (internal/codexappgateway/broker/conn.go).
use cli_server.Common.{
  All, ℕ, ◌≡◌, ◌≢◌, refl, sym, ap, ◌∙◌, Option, some, none, List, [], ◌∷◌, ◌++◌, Bool, true, false,
  not, ◌&&◌, if◌then◌else◌, ◌==◌, ==_iff, string_eq, nat_eq, String, is_nil,
}
use cli_server.Common.Text.{Text}
use cli_server.Common.Int.{int_eq, ℤ}
use cli_server.Common.Dict.{
  Dict, get, put, remove, empty, get-put_other, get-remove-none, get-empty,
}
use cli_server.Broker.{RpcResponse, TurnPayload, ItemCompletedParams, Wire}
use cli_server.Broker.Waiters.{deliver, shut}
use cli_server.Broker.Waiting.{IsReady, deliver-IsReady, fail_all-shut}
use cli_server.Broker.Conn.{
  Conn, Handled, Merge, deliver_response, deliver_turn, deliver_waited, send_turn, merge_some,
  dropped, answered, add_item, complete_turn, items_of, items_or_nil, with_turns,
  merge_items_into_turn_raw, merged, merge_failed, nil_map, merge_object, merge_items,
  merge_written,
}
use cli_server.Broker.Dispatch.{
  dispatch_frame, dispatch_decoded, dispatch_by_id, dispatch_listened, approval_answer,
  not_found_answer, fail_all_pending, reader_exit, err_or,
}
use cli_server.Names.Approval.{is_approval}

-- Both maps of waiting callers are ready, and no item is kept for the turn with the empty id.
abbrev pub IsSound : Conn → Type 0
IsSound c = IsReady c.pending_resp × IsReady c.pending_turns × (get c.items_by_turn "" ≡ none)

-- The frame was handled, and the Conn is sound again.
abbrev pub IsHandled : Option Handled → Type 0
IsHandled out = (h : Handled) × (out ≡ some h) × IsSound h.conn

-- A decoded Turn with an id is not the JSON text `null`.
abbrev pub ReadsTurns : Wire → Type 0
ReadsTurns W =
    (params : Text) (p : TurnPayload)
    → W.read_turn_completed params ≡ some p
    → W.read_object p.raw ≡ some none
    → p.turn ≡ ""

dropped-IsHandled : (c : Conn) → IsSound c → IsHandled (dropped c)
dropped-IsHandled c s = (record { conn = c; written = [] }, refl, s)

answered-IsHandled : (c : Conn) (r : RpcResponse) → IsSound c → IsHandled (answered c r)
answered-IsHandled c r s = (record { conn = c; written = r ∷ [] }, refl, s)

deliver_response-IsHandled :
    (c : Conn) (id : ℤ) (r : RpcResponse) → IsSound c → IsHandled (deliver_response c id r)
unfolding deliver_response
deliver_response-IsHandled c id r (rs, ts, items) =
    let (w, sent, ready, holds) = deliver-IsReady c.pending_resp id r rs in
    (
      record { conn = record c { pending_resp = w }; written = [] },
      (rw sent refl),
      (ready, ts, items),
    )

with_turns-IsHandled :
    (c : Conn) (turn : String) (p : TurnPayload)
    → IsSound c
    → IsHandled (with_turns c (deliver c.pending_turns turn p))
with_turns-IsHandled c turn p (rs, ts, items) =
    let (w, sent, ready, holds) = deliver-IsReady c.pending_turns turn p ts in
    (
      record { conn = record c { pending_turns = w }; written = [] },
      (rw sent refl),
      (rs, ready, items),
    )

send_turn-IsHandled :
    (c : Conn) (turn : String) (p : TurnPayload) (m : Merge)
    → IsSound c
    → m ≢ nil_map
    → IsHandled (send_turn c turn p m)
send_turn-IsHandled c turn p (merged raw) s n =
    with_turns-IsHandled c turn (record p { raw = raw }) s
send_turn-IsHandled c turn p merge_failed s n = with_turns-IsHandled c turn p s
send_turn-IsHandled c turn p nil_map s n = elim (n refl) [ ]

if-IsSound :
    (b : Bool) (c d : Conn) → (b ≡ true → IsSound c) → IsSound d → IsSound (if b then c else d)
if-IsSound true c d s t = s refl
if-IsSound false c d s t = t

keeps_empty : (a : Bool) (turn : String) → (not (turn == "") && a) ≡ true → ◌≢◌ {A = String} "" turn
keeps_empty a turn h = λ p. (let same : (turn == "") ≡ true = (==_iff turn "").1 (sym p) in cc)

add_item-IsSound : (c : Conn) (m : Option ItemCompletedParams) → IsSound c → IsSound (add_item c m)
unfolding add_item
add_item-IsSound c none s = s
add_item-IsSound c (some p) (rs, ts, items) =
    if-IsSound (not (p.turn_id == "") && not (is_nil p.item))
      (record c {
        items_by_turn = put c.items_by_turn p.turn_id (items_of c p.turn_id ++ p.item ∷ []);
      })
      c
      (λ h. (
        rs,
        ts,
        get-put_other c.items_by_turn p.turn_id "" (items_of c p.turn_id ++ p.item ∷ [])
              (keeps_empty (not (is_nil p.item)) p.turn_id h)
            ∙ items,
      ))
      (rs, ts, items)

merge_written-fine : (m : Option Text) → merge_written m ≢ nil_map
merge_written-fine none = λ e. cc
merge_written-fine (some raw) = λ e. cc

merge_object-fine :
    (W : Wire) (items : List Text) (m : Option (Option (Dict String Text)))
    → m ≢ some none
    → merge_object W items m ≢ nil_map
merge_object-fine W items none n = λ e. cc
merge_object-fine W items (some none) n = elim (n refl) [ ]
merge_object-fine W items (some (some m)) n = merge_items-fine (W.write_array items)
  where
    merge_items-fine : (o : Option Text) → merge_items W m o ≢ nil_map
    merge_items-fine none = λ e. cc
    merge_items-fine (some t) = merge_written-fine (W.write_object (put m "items" t))

pub merge_some-fine :
    (W : Wire) (raw : Text) (items : List Text)
    → ((W.read_object raw ≡ some none) → items ≡ [])
    → merge_some W raw items ≢ nil_map
unfolding merge_items_into_turn_raw
merge_some-fine W raw [] h = λ e. cc
merge_some-fine W [] (i ∷ is) h = λ e. cc
merge_some-fine W (c ∷ raw) (i ∷ is) h =
    merge_object-fine W (i ∷ is) (W.read_object (c ∷ raw)) (λ e. cons_is_not_nil (h e))
  where
    cons_is_not_nil : (i ∷ is) ≢ []
    cons_is_not_nil e = cc

deliver_waited-IsHandled :
    (W : Wire) (c : Conn) (turn : String) (p : TurnPayload) (items : List Text) (m : Option ℕ)
    → IsSound c
    → ((W.read_object p.raw ≡ some none) → items ≡ [])
    → IsHandled (deliver_waited W c turn p items m)
deliver_waited-IsHandled W c turn p items none s n = dropped-IsHandled c s
deliver_waited-IsHandled W c turn p items (some ch) s n =
    send_turn-IsHandled c turn p (merge_some W p.raw items) s (merge_some-fine W p.raw items n)

complete_turn-IsHandled :
    (W : Wire) (reads : ReadsTurns W) (c : Conn) (params : Text) (m : Option TurnPayload)
    → W.read_turn_completed params ≡ m
    → IsSound c
    → IsHandled (complete_turn W c m)
unfolding deliver_turn items_of
complete_turn-IsHandled W reads c params none e s = dropped-IsHandled c s
complete_turn-IsHandled W reads c params (some p) e (rs, ts, items) =
    deliver_waited-IsHandled W (record c { items_by_turn = remove c.items_by_turn p.turn }) p.turn p
      (items_of c p.turn) (get c.pending_turns.pending p.turn)
      (rs, ts, get-remove-none c.items_by_turn p.turn "" items)
      (λ null. ap (items_of c) (reads params p e null) ∙ ap items_or_nil items)

if-IsHandled :
    (b : Bool) (m n : Option Handled) → IsHandled m → IsHandled n → IsHandled (if b then m else n)
if-IsHandled true m n hm hn = hm
if-IsHandled false m n hm hn = hn

dispatch_listened-IsHandled :
    (W : Wire) (reads : ReadsTurns W) (c : Conn) (f : RpcResponse) (otherwise : Option Handled)
    → IsSound c
    → IsHandled otherwise
    → IsHandled (dispatch_listened W c f otherwise)
unfolding dispatch_listened
dispatch_listened-IsHandled W reads c f otherwise s o =
    if-IsHandled (f.method == "item/completed")
      (dropped (add_item c (W.read_item_completed f.params))) _
      (dropped-IsHandled (add_item c (W.read_item_completed f.params))
        (add_item-IsSound c (W.read_item_completed f.params) s))
      (if-IsHandled (f.method == "turn/completed") _ otherwise
        (complete_turn-IsHandled W reads c f.params (W.read_turn_completed f.params) refl s) o)

dispatch_by_id-IsHandled :
    (W : Wire) (reads : ReadsTurns W) (c : Conn) (f : RpcResponse) (m : Option ℤ)
    → IsSound c
    → IsHandled (dispatch_by_id W c f m)
dispatch_by_id-IsHandled W reads c f none s =
    dispatch_listened-IsHandled W reads c f (dropped c) s (dropped-IsHandled c s)
dispatch_by_id-IsHandled W reads c f (some id) s =
    if-IsHandled (f.method == "") (deliver_response c id f) _ (deliver_response-IsHandled c id f s)
      (if-IsHandled (is_approval f.method) _ _
        (answered-IsHandled c (approval_answer id f.method) s)
        (dispatch_listened-IsHandled W reads c f (answered c (not_found_answer id f.method)) s
          (answered-IsHandled c (not_found_answer id f.method) s)))

dispatch_decoded-IsHandled :
    (W : Wire) (reads : ReadsTurns W) (c : Conn) (m : Option RpcResponse)
    → IsSound c
    → IsHandled (dispatch_decoded W c m)
dispatch_decoded-IsHandled W reads c none s = dropped-IsHandled c s
dispatch_decoded-IsHandled W reads c (some f) s = dispatch_by_id-IsHandled W reads c f f.id s

-- Every frame that arrives at a sound Conn is handled, and leaves it sound.
pub dispatch_frame-IsHandled :
    (W : Wire) (reads : ReadsTurns W) (c : Conn) (bytes : Text)
    → IsSound c
    → IsHandled (dispatch_frame W c bytes)
unfolding dispatch_frame
dispatch_frame-IsHandled W reads c bytes s =
    dispatch_decoded-IsHandled W reads c (W.read_frame bytes) s

-- The end of the reader of a sound Conn: no close panics, and whoever waited finds a closed channel.
pub reader_exit-shut :
    (c : Conn) (e : String)
    → IsSound c
    → (c' : Conn) × (reader_exit c e ≡ some c')
      × IsSound c'
      × All (λ d. get c'.pending_resp.chans d.1 ≡ some shut) c.pending_resp.pending.entries
      × All (λ d. get c'.pending_turns.chans d.1 ≡ some shut) c.pending_turns.pending.entries
unfolding reader_exit fail_all_pending
reader_exit-shut c e (rs, ts, items) =
    let (r, r_done, r_ready, r_shut) = fail_all-shut c.pending_resp rs in
    let (t, t_done, t_ready, t_shut) = fail_all-shut c.pending_turns ts in
    (
      record c {
        pending_resp = r;
        pending_turns = t;
        items_by_turn = empty;
        close_err = err_or (err_or c.close_err e) "connection closed";
      },
      (rw r_done (rw t_done refl)),
      (r_ready, t_ready, get-empty ""),
      r_shut,
      t_shut,
    )
