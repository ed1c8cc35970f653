-- ===== src/Broker/Conn.antt =====
-- Conn of internal/codexappgateway/broker/conn.go: its state, and what the reader does with a frame.
-- A result `none` is a reader that waits at a channel for ever, or panics.
use cli_server.Common.{
  ℕ, Option, some, none, List, [], ◌∷◌, ◌++◌, Bool, false, not, ◌&&◌, if◌then◌else◌, ◌==◌,
  string_eq, String, is_nil,
}
use cli_server.Common.Text.{Text}
use cli_server.Common.Int.{int_eq, ℤ}
use cli_server.Common.Dict.{Dict, get, put, remove, empty}
use cli_server.Broker.{RpcResponse, TurnPayload, ItemCompletedParams, Wire}
use cli_server.Broker.Waiters.{Waiters, no_waiters, deliver}

pub record Conn : Type 0 where
  pub next_id : ℕ
  pub pending_resp : Waiters ℤ RpcResponse
  pub pending_turns : Waiters String TurnPayload
  pub items_by_turn : Dict String (List Text)
  pub closed : Bool
  pub close_err : Option String

-- a Conn after the handshake, which took the id 1
unfoldable pub new_conn : Conn
new_conn = record {
  next_id = 1;
  pending_resp = no_waiters;
  pending_turns = no_waiters;
  items_by_turn = empty;
  closed = false;
  close_err = none;
}

-- What the reader leaves, and the frames it wrote.
pub record Handled : Type 0 where
  pub conn : Conn
  pub written : List RpcResponse

abbrev pub with_responses : Conn → Option (Waiters ℤ RpcResponse) → Option Handled
with_responses c none = none
with_responses c (some w) = some (record { conn = record c { pending_resp = w }; written = [] })

unfoldable pub deliver_response : Conn → ℤ → RpcResponse → Option Handled
deliver_response c id resp = with_responses c (deliver c.pending_resp id resp)

-- The outcome of mergeItemsIntoTurnRaw: new text, an error, or an assignment to a nil map.
pub data Merge : Type 0 where
  merged : Text → Merge
  merge_failed : Merge
  nil_map : Merge

abbrev pub merge_written : Option Text → Merge
merge_written none = merge_failed
merge_written (some raw) = merged raw

abbrev pub merge_items : Wire → Dict String Text → Option Text → Merge
merge_items W m none = merge_failed
merge_items W m (some items) = merge_written (W.write_object (put m "items" items))

abbrev pub merge_object : Wire → List Text → Option (Option (Dict String Text)) → Merge
merge_object W items none = merge_failed
merge_object W items (some none) = nil_map
merge_object W items (some (some m)) = merge_items W m (W.write_array items)

unfoldable pub merge_items_into_turn_raw : Wire → Text → List Text → Merge
merge_items_into_turn_raw W raw items =
    if is_nil raw then merged raw else merge_object W items (W.read_object raw)

abbrev pub items_or_nil : Option (List Text) → List Text
items_or_nil none = []
items_or_nil (some items) = items

-- c.itemsByTurn[turnID], nil for a missing key
unfoldable pub items_of : Conn → String → List Text
items_of c turn = items_or_nil (get c.items_by_turn turn)

abbrev pub with_turns : Conn → Option (Waiters String TurnPayload) → Option Handled
with_turns c none = none
with_turns c (some w) = some (record { conn = record c { pending_turns = w }; written = [] })

abbrev pub send_turn : Conn → String → TurnPayload → Merge → Option Handled
send_turn c turn p (merged raw) =
    with_turns c (deliver c.pending_turns turn (record p { raw = raw }))
send_turn c turn p merge_failed = with_turns c (deliver c.pending_turns turn p)
send_turn c turn p nil_map = none

abbrev pub merge_some : Wire → Text → List Text → Merge
merge_some W raw items =
    if not (is_nil items) then merge_items_into_turn_raw W raw items else merge_failed

-- the part of deliverTurn after the items of the turn are taken out of the map
abbrev pub deliver_waited :
    Wire → Conn → String → TurnPayload → List Text → Option ℕ → Option Handled
deliver_waited W c turn p items none = some (record { conn = c; written = [] })
deliver_waited W c turn p items (some ch) = send_turn c turn p (merge_some W p.raw items)

unfoldable pub deliver_turn : Wire → Conn → String → TurnPayload → Option Handled
unfolding items_of
deliver_turn W c turn p =
    deliver_waited W (record c { items_by_turn = remove c.items_by_turn turn }) turn p
      (items_of c turn) (get c.pending_turns.pending turn)

abbrev pub dropped : Conn → Option Handled
dropped c = some (record { conn = c; written = [] })

abbrev pub answered : Conn → RpcResponse → Option Handled
answered c r = some (record { conn = c; written = r ∷ [] })

unfoldable pub add_item : Conn → Option ItemCompletedParams → Conn
unfolding items_of
add_item c none = c
add_item c (some p) =
    if not (p.turn_id == "") && not (is_nil p.item)
    then record c {
      items_by_turn = put c.items_by_turn p.turn_id (items_of c p.turn_id ++ p.item ∷ []);
    }
    else c

abbrev pub complete_turn : Wire → Conn → Option TurnPayload → Option Handled
complete_turn W c none = dropped c
complete_turn W c (some p) = deliver_turn W c p.turn p
