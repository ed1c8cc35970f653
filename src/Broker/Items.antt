-- ===== src/Broker/Items.antt =====
-- The items of a turn on their way into its result (internal/codexappgateway/broker/conn.go).
use cli_server.Common.{
  ℕ, ◌≡◌, refl, sym, ap, subst, ◌∙◌, Option, some, none, List, [], ◌∷◌, ◌++◌, append-nil, Bool,
  true, false, not, ◌&&◌, ◌||◌, if◌then◌else◌, ◌==◌, ==_iff, string_eq, nat_eq, String, Bool-cases,
  inl, inr, is_nil, arith,
}
use cli_server.Common.Text.{Text}
use cli_server.Common.Int.{int_eq, ℤ}
use cli_server.Common.Dict.{get, remove, get-put, get-remove}
use cli_server.Broker.{RpcResponse, TurnPayload, ItemCompletedParams, Wire}
use cli_server.Broker.Waiters.{Waiters, deliver, withdraw, send, send_to, put_chan, Chan}
use cli_server.Broker.Conn.{
  Conn, Handled, Merge, merged, merge_failed, nil_map, deliver_response, deliver_turn,
  deliver_waited, send_turn, merge_some, dropped, answered, add_item, complete_turn, items_of,
  with_responses, with_turns,
}
use cli_server.Broker.Dispatch.{
  dispatch_frame, dispatch_decoded, dispatch_by_id, dispatch_listened, not_found_answer,
}
use cli_server.Names.Approval.{is_approval}

-- the item that decoded params carry for a turn
abbrev pub carried : String → Option ItemCompletedParams → List Text
carried turn none = []
carried turn (some p) = if p.turn_id == turn && not (is_nil p.item) then p.item ∷ [] else []

abbrev pub carried_by : Wire → String → Option RpcResponse → List Text
carried_by W turn none = []
carried_by W turn (some f) =
    if f.method == "item/completed" then carried turn (W.read_item_completed f.params) else []

-- The items that frames carry for a turn, in order.
abbrev pub carried_items : Wire → String → List Text → List Text
carried_items W turn [] = []
carried_items W turn (b ∷ bs) = carried_by W turn (W.read_frame b) ++ carried_items W turn bs

abbrev pub is_turn : String → Option TurnPayload → Bool
is_turn turn none = false
is_turn turn (some p) = p.turn == turn

abbrev pub completes : Wire → String → Option RpcResponse → Bool
completes W turn none = false
completes W turn (some f) =
    f.method == "turn/completed" && is_turn turn (W.read_turn_completed f.params)

-- Whether some frame completes the turn.
abbrev pub any_completes : Wire → String → List Text → Bool
any_completes W turn [] = false
any_completes W turn (b ∷ bs) = completes W turn (W.read_frame b) || any_completes W turn bs

-- The turn's items are those of `c` and then `extra`, and it is waited for as before.
abbrev pub Adds : Conn → String → List Text → Conn → Type 0
Adds c turn extra c' =
    (items_of c' turn ≡ items_of c turn ++ extra)
    × (get c'.pending_turns.pending turn ≡ get c.pending_turns.pending turn)

abbrev pub AddsIn : Conn → String → List Text → Option Handled → Type 0
AddsIn c turn extra none = Unit
AddsIn c turn extra (some h) = Adds c turn extra h.conn

same-Adds : (c : Conn) (turn : String) → Adds c turn [] c
same-Adds c turn = (sym (append-nil (items_of c turn)), refl)

add_item-Adds :
    (c : Conn) (turn : String) (m : Option ItemCompletedParams)
    → (turn == "") ≡ false
    → Adds c turn (carried turn m) (add_item c m)
unfolding add_item items_of
add_item-Adds c turn none named = same-Adds c turn
add_item-Adds c turn (some p) named = (
  ground (
    arith,
    get-put c.items_by_turn p.turn_id turn (items_of c p.turn_id ++ p.item ∷ []),
    ==_iff p.turn_id turn,
    ==_iff p.turn_id "",
    ==_iff turn "",
    append-nil (items_of c turn),
  ),
  ground (arith),
)

with_responses-AddsIn :
    (c : Conn) (turn : String) (m : Option (Waiters ℤ RpcResponse))
    → AddsIn c turn [] (with_responses c m)
unfolding items_of
with_responses-AddsIn c turn none = tt
with_responses-AddsIn c turn (some w) = same-Adds c turn

put_chan-pending :
    (w : Waiters String TurnPayload) (ch : ℕ) (m : Option (Chan TurnPayload))
    {w' : Waiters String TurnPayload}
    → put_chan w ch m ≡ some w'
    → w'.pending ≡ w.pending
put_chan-pending w ch none done = cc
put_chan-pending w ch (some x) done = cc

send_to-pending :
    (w : Waiters String TurnPayload) (m : Option ℕ) (p : TurnPayload)
    {w' : Waiters String TurnPayload}
    → send_to w m p ≡ some w'
    → w'.pending ≡ w.pending
send_to-pending w none p done = cc
send_to-pending w (some ch) p done = put_chan-pending w ch (send (get w.chans ch) p) done

deliver-pending :
    (w : Waiters String TurnPayload) (t turn : String) (p : TurnPayload)
    {w' : Waiters String TurnPayload}
    → (t == turn) ≡ false
    → deliver w t p ≡ some w'
    → get w'.pending turn ≡ get w.pending turn
unfolding deliver withdraw
deliver-pending w t turn p {w'} other done =
    let kept = send_to-pending (withdraw w t) (get w.pending t) p done in
    rw kept (get-remove w.pending t turn ∙ (rw other refl))

-- what a Conn adds does not depend on the order of looking at it: from `d`, which agrees with `c`
with_turns-AddsIn :
    (c : Conn) (t turn : String) (p : TurnPayload) (m : Option (Waiters String TurnPayload))
    → (t == turn) ≡ false
    → deliver c.pending_turns t p ≡ m
    → AddsIn c turn [] (with_turns c m)
unfolding items_of
with_turns-AddsIn c t turn p none other done = tt
with_turns-AddsIn c t turn p (some w) other done =
    ((same-Adds c turn).0, deliver-pending c.pending_turns t turn p other done)

send_turn-AddsIn :
    (c : Conn) (t turn : String) (p : TurnPayload) (m : Merge)
    → (t == turn) ≡ false
    → AddsIn c turn [] (send_turn c t p m)
send_turn-AddsIn c t turn p (merged raw) other =
    with_turns-AddsIn c t turn (record p { raw = raw }) _ other refl
send_turn-AddsIn c t turn p merge_failed other = with_turns-AddsIn c t turn p _ other refl
send_turn-AddsIn c t turn p nil_map other = tt

deliver_waited-AddsIn :
    (W : Wire) (c : Conn) (t turn : String) (p : TurnPayload) (items : List Text) (m : Option ℕ)
    → (t == turn) ≡ false
    → AddsIn c turn [] (deliver_waited W c t p items m)
deliver_waited-AddsIn W c t turn p items none other = same-Adds c turn
deliver_waited-AddsIn W c t turn p items (some ch) other =
    send_turn-AddsIn c t turn p (merge_some W p.raw items) other

-- what is added to a Conn with the same items is added to `c`
AddsIn-from :
    (c d : Conn) (turn : String) (extra : List Text) (m : Option Handled)
    → items_of d turn ≡ items_of c turn
    → get d.pending_turns.pending turn ≡ get c.pending_turns.pending turn
    → AddsIn d turn extra m
    → AddsIn c turn extra m
AddsIn-from c d turn extra none i p h = tt
AddsIn-from c d turn extra (some x) i p h = (h.0 ∙ ap (λ l. l ++ extra) i, h.1 ∙ p)

complete_turn-AddsIn :
    (W : Wire) (c : Conn) (turn : String) (m : Option TurnPayload)
    → is_turn turn m ≡ false
    → AddsIn c turn [] (complete_turn W c m)
unfolding deliver_turn items_of
complete_turn-AddsIn W c turn none other = same-Adds c turn
complete_turn-AddsIn W c turn (some p) other =
    AddsIn-from c (record c { items_by_turn = remove c.items_by_turn p.turn }) turn [] _
      (rw (get-remove c.items_by_turn p.turn turn) (rw other refl)) refl
      (deliver_waited-AddsIn W (record c { items_by_turn = remove c.items_by_turn p.turn }) p.turn
        turn p (items_of c p.turn) (get c.pending_turns.pending p.turn) other)

if-AddsIn :
    (b : Bool) (c : Conn) (turn : String) (x y : List Text) (m n : Option Handled)
    → (b ≡ true → AddsIn c turn x m)
    → AddsIn c turn y n
    → AddsIn c turn (if b then x else y) (if b then m else n)
if-AddsIn true c turn x y m n hm hn = hm refl
if-AddsIn false c turn x y m n hm hn = hn

dispatch_listened-AddsIn :
    (W : Wire) (c : Conn) (turn : String) (f : RpcResponse) (otherwise : Option Handled)
    → (turn == "") ≡ false
    → completes W turn (some f) ≡ false
    → AddsIn c turn [] otherwise
    → AddsIn c turn (carried_by W turn (some f)) (dispatch_listened W c f otherwise)
unfolding dispatch_listened
dispatch_listened-AddsIn W c turn f otherwise named other h =
    if-AddsIn (f.method == "item/completed") c turn (carried turn (W.read_item_completed f.params))
      [] _ _ (λ e. add_item-Adds c turn (W.read_item_completed f.params) named)
      (subst
        (λ x. AddsIn c turn x (
          if f.method == "turn/completed"
          then complete_turn W c (W.read_turn_completed f.params)
          else otherwise))
        (either_nil (f.method == "turn/completed"))
        (if-AddsIn (f.method == "turn/completed") c turn [] [] _ otherwise
          (λ e. complete_turn-AddsIn W c turn (W.read_turn_completed f.params) (
            second (f.method == "turn/completed") (is_turn turn (W.read_turn_completed f.params)) e
              other))
          h))
  where
    either_nil : (b : Bool) → ◌≡◌ {A = List Text} (if b then [] else []) []
    either_nil true = refl
    either_nil false = refl

    second : (a b : Bool) → a ≡ true → (a && b) ≡ false → b ≡ false
    second a b = ground (arith)

nothing_carried : (a b : Bool) → ◌≡◌ {A = List Text} (if a then [] else if b then [] else []) []
nothing_carried true b = refl
nothing_carried false true = refl
nothing_carried false false = refl

carried_by_cases :
    (m : String) (x : List Text)
    → (if m == ""
        then []
        else if is_approval m
        then []
        else if m == "item/completed"
        then x
        else [])
      ≡ (if m == "item/completed" then x else [])
unfolding is_approval
carried_by_cases m x = elim (Bool-cases (m == "item/completed")) [
  | inl e ↦ let same : m ≡ "item/completed" = ((==_iff m "item/completed").0 e) in rw same refl
  | inr e ↦ rw e (nothing_carried (m == "") (is_approval m))
]

dispatch_by_id-AddsIn :
    (W : Wire) (c : Conn) (turn : String) (f : RpcResponse) (m : Option ℤ)
    → (turn == "") ≡ false
    → completes W turn (some f) ≡ false
    → AddsIn c turn (carried_by W turn (some f)) (dispatch_by_id W c f m)
unfolding is_approval deliver_response
dispatch_by_id-AddsIn W c turn f none named other =
    dispatch_listened-AddsIn W c turn f (dropped c) named other (same-Adds c turn)
dispatch_by_id-AddsIn W c turn f (some id) named other =
    subst (λ x. AddsIn c turn x (dispatch_by_id W c f (some id)))
      (carried_by_cases f.method (carried turn (W.read_item_completed f.params)))
      (if-AddsIn (f.method == "") c turn [] _ (deliver_response c id f) _
        (λ e. with_responses-AddsIn c turn (deliver c.pending_resp id f))
        (if-AddsIn (is_approval f.method) c turn [] (carried_by W turn (some f)) _ _
          (λ e. same-Adds c turn)
          (dispatch_listened-AddsIn W c turn f (answered c (not_found_answer id f.method)) named
            other (same-Adds c turn))))

dispatch_decoded-AddsIn :
    (W : Wire) (c : Conn) (turn : String) (m : Option RpcResponse)
    → (turn == "") ≡ false
    → completes W turn m ≡ false
    → AddsIn c turn (carried_by W turn m) (dispatch_decoded W c m)
dispatch_decoded-AddsIn W c turn none named other = same-Adds c turn
dispatch_decoded-AddsIn W c turn (some f) named other =
    dispatch_by_id-AddsIn W c turn f f.id named other

-- A frame that does not complete a turn appends the item it carries for the turn, if any, to the turn's
-- items, and leaves the turn's caller waiting.
pub dispatch_frame-Adds :
    (W : Wire) (c : Conn) (turn : String) (bytes : Text) (h : Handled)
    → (turn == "") ≡ false
    → completes W turn (W.read_frame bytes) ≡ false
    → dispatch_frame W c bytes ≡ some h
    → Adds c turn (carried_by W turn (W.read_frame bytes)) h.conn
unfolding dispatch_frame
dispatch_frame-Adds W c turn bytes h named other handled =
    subst (AddsIn c turn (carried_by W turn (W.read_frame bytes))) handled
      (dispatch_decoded-AddsIn W c turn (W.read_frame bytes) named other)
