-- ===== src/Broker/Replies.antt =====
-- What dispatchFrame writes (internal/codexappgateway/broker/conn.go).
use cli_server.Common.{
  ℕ, ◌≡◌, refl, sym, subst, Option, some, none, List, [], ◌∷◌, Bool, true, false, ◌||◌,
  if◌then◌else◌, ◌==◌, ==_iff, string_eq, String, Bool-cases, inl, inr, map, arith,
}
use cli_server.Common.Text.{Text}
use cli_server.Common.Int.{int_eq, ℤ}
use cli_server.Common.Dict.{remove, get}
use cli_server.Broker.{RpcResponse, TurnPayload, Wire}
use cli_server.Broker.Waiters.{Waiters, deliver}
use cli_server.Broker.Conn.{
  Conn, Handled, Merge, merged, merge_failed, nil_map, deliver_response, deliver_turn,
  deliver_waited, send_turn, merge_some, dropped, answered, add_item, complete_turn, items_of,
  with_responses, with_turns,
}
use cli_server.Broker.Dispatch.{
  dispatch_frame, dispatch_decoded, dispatch_by_id, dispatch_listened, approval_answer,
  not_found_answer,
}
use cli_server.Names.Approval.{is_approval}

-- The ids that a frame must be answered under: that of a request, unless its method is one of the two
-- that the reader listens to.
abbrev pub owed : RpcResponse → Option ℤ → List (Option ℤ)
owed f none = []
owed f (some id) =
    if f.method == "" || f.method == "item/completed" || f.method == "turn/completed"
    then []
    else some id ∷ []

abbrev pub owed_for : Option RpcResponse → List (Option ℤ)
owed_for none = []
owed_for (some f) = owed f f.id

-- The ids of the frames that were written are the given ones; a reader that stopped wrote nothing.
abbrev pub Writes : List (Option ℤ) → Option Handled → Type 0
Writes ids none = Unit
Writes ids (some h) = map (λ r. r.id) h.written ≡ ids

with_responses-Writes :
    (c : Conn) (m : Option (Waiters ℤ RpcResponse)) → Writes [] (with_responses c m)
with_responses-Writes c none = tt
with_responses-Writes c (some w) = refl

with_turns-Writes :
    (c : Conn) (m : Option (Waiters String TurnPayload)) → Writes [] (with_turns c m)
with_turns-Writes c none = tt
with_turns-Writes c (some w) = refl

send_turn-Writes :
    (c : Conn) (turn : String) (p : TurnPayload) (m : Merge) → Writes [] (send_turn c turn p m)
send_turn-Writes c turn p (merged raw) =
    with_turns-Writes c (deliver c.pending_turns turn (record p { raw = raw }))
send_turn-Writes c turn p merge_failed = with_turns-Writes c (deliver c.pending_turns turn p)
send_turn-Writes c turn p nil_map = tt

deliver_waited-Writes :
    (W : Wire) (c : Conn) (turn : String) (p : TurnPayload) (items : List Text) (m : Option ℕ)
    → Writes [] (deliver_waited W c turn p items m)
deliver_waited-Writes W c turn p items none = refl
deliver_waited-Writes W c turn p items (some ch) =
    send_turn-Writes c turn p (merge_some W p.raw items)

complete_turn-Writes :
    (W : Wire) (c : Conn) (m : Option TurnPayload) → Writes [] (complete_turn W c m)
unfolding deliver_turn
complete_turn-Writes W c none = refl
complete_turn-Writes W c (some p) =
    deliver_waited-Writes W (record c { items_by_turn = remove c.items_by_turn p.turn }) p.turn p
      (items_of c p.turn) (get c.pending_turns.pending p.turn)

if-Writes :
    (b : Bool) (m n : Option Handled) (i j : List (Option ℤ))
    → Writes i m
    → Writes j n
    → Writes (if b then i else j) (if b then m else n)
if-Writes true m n i j hm hn = hm
if-Writes false m n i j hm hn = hn

dispatch_listened-Writes :
    (W : Wire) (c : Conn) (f : RpcResponse) (otherwise : Option Handled) (ids : List (Option ℤ))
    → Writes ids otherwise
    → Writes
        (if f.method == "item/completed"
          then []
          else if f.method == "turn/completed"
          then []
          else ids)
        (dispatch_listened W c f otherwise)
unfolding dispatch_listened
dispatch_listened-Writes W c f otherwise ids h =
    if-Writes (f.method == "item/completed") (dropped (add_item c (W.read_item_completed f.params)))
      _ [] _ refl
      (if-Writes (f.method == "turn/completed") _ otherwise [] ids
        (complete_turn-Writes W c (W.read_turn_completed f.params)) h)

listens_nothing :
    (a b : Bool) → ◌≡◌ {A = List (Option ℤ)} (if a then [] else if b then [] else []) []
listens_nothing true b = refl
listens_nothing false true = refl
listens_nothing false false = refl

pub is_approval-other :
    (m other : String) → is_approval other ≡ false → is_approval m ≡ true → (m == other) ≡ false
is_approval-other m other n h = elim (Bool-cases (m == other)) [
  | inl e ↦ let same : m ≡ other = ((==_iff m other).0 e) in cc
  | inr e ↦ e
]

owed_by_cases :
    (f : RpcResponse) (id : ℤ)
    → owed f (some id) ≡ (
        if f.method == ""
        then []
        else if is_approval f.method
        then some id ∷ []
        else if f.method == "item/completed"
        then []
        else if f.method == "turn/completed"
        then []
        else some id ∷ [])
unfolding is_approval
owed_by_cases f id =
    let item = is_approval-other f.method "item/completed" refl in
    let turn = is_approval-other f.method "turn/completed" refl in ground (arith)

dispatch_by_id-Writes :
    (W : Wire) (c : Conn) (f : RpcResponse) (m : Option ℤ)
    → Writes (owed f m) (dispatch_by_id W c f m)
unfolding deliver_response
dispatch_by_id-Writes W c f none =
    subst (λ ids. Writes ids (dispatch_listened W c f (dropped c)))
      (listens_nothing (f.method == "item/completed") (f.method == "turn/completed"))
      (dispatch_listened-Writes W c f (dropped c) [] refl)
dispatch_by_id-Writes W c f (some id) =
    subst (λ ids. Writes ids (dispatch_by_id W c f (some id))) (sym (owed_by_cases f id))
      (if-Writes (f.method == "") (deliver_response c id f) _ [] _
        (with_responses-Writes c (deliver c.pending_resp id f))
        (if-Writes (is_approval f.method) (answered c (approval_answer id f.method)) _
          (some id ∷ []) _ refl
          (dispatch_listened-Writes W c f (answered c (not_found_answer id f.method)) (some id ∷ [])
            refl)))

dispatch_decoded-Writes :
    (W : Wire) (c : Conn) (m : Option RpcResponse) → Writes (owed_for m) (dispatch_decoded W c m)
dispatch_decoded-Writes W c none = refl
dispatch_decoded-Writes W c (some f) = dispatch_by_id-Writes W c f f.id

Writes-map :
    {ids : List (Option ℤ)} {out : Option Handled} {h : Handled}
    → Writes ids out
    → out ≡ some h
    → map (λ r. r.id) h.written ≡ ids
Writes-map w e = subst (Writes _) e w

-- A frame that is handled is answered as follows: a request of the server gets one answer, under its
-- own id, unless its method is item/completed or turn/completed, and nothing else is answered.
pub dispatch_frame-owed :
    (W : Wire) (c : Conn) (bytes : Text) (h : Handled)
    → dispatch_frame W c bytes ≡ some h
    → map (λ r. r.id) h.written ≡ owed_for (W.read_frame bytes)
unfolding dispatch_frame
dispatch_frame-owed W c bytes h handled =
    Writes-map (dispatch_decoded-Writes W c (W.read_frame bytes)) handled
