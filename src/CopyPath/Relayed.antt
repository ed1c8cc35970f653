-- ===== src/CopyPath/Relayed.antt =====
-- What a copy through the relay leaves, and which way a copy goes (internal/envtools/tools/copy_path.go).
use cli_server.Common.{
  ◌≡◌, refl, sym, subst, ◌∙◌, Option, some, none, List, [], ◌∷◌, ◌++◌, Bool, true, false, not, ◌&&◌,
  ◌||◌, if◌then◌else◌, is_nil, ◌==◌, Result, ok, err, ok-inj,
}
use cli_server.Common.Text.{Text, codes, text_eq}
use cli_server.Common.Int.{pos, int_eq}
use cli_server.CopyPath.Transfer.{
  Effect, remove, move, Outcome, copied_http, copied_ws, failed, CopyError, rename_failed,
  source_shell_failed, destination_shell_failed, source_curl_exit, destination_curl_exit, Ran,
  Paths, CopyPathArgs, tmp_path, mv_ends, WsEnv, call_ws_pump,
}
use cli_server.CopyPath.Http.{
  HttpEnv, HttpRan, run_shell_to_exit, RelayTicket, Reachable, CallRefusal, relay_cleanup,
  after_shells, http_finish, with_ticket, call_http_relay, call, dispatch_transport, or_ws,
  transport_name, is_auto, answers, fall_through, args_required, invalid_transport,
  source_unresolved, destination_unresolved, source_unavailable, destination_unavailable,
}
use cli_server.CopyPath.Effects.{removals, removals-append, tmp_path-filled}

-- whether a relayed copy answered that it copied
abbrev pub is_copied_http : Option Outcome → Bool
is_copied_http (some copied_http) = true
is_copied_http (some (failed e)) = false
is_copied_http (some (copied_ws n)) = false
is_copied_http none = false

-- The path alone is removed, once, unless the copy succeeded.
unfoldable pub IsCleaned : Text → HttpRan → Type 0
IsCleaned tmp h = removals h.http_effects ≡ (if is_copied_http h.answer then [] else tmp ∷ [])

if-IsCleaned :
    (tmp : Text) (b : Bool) (m n : HttpRan)
    → IsCleaned tmp m
    → IsCleaned tmp n
    → IsCleaned tmp (if b then m else n)
if-IsCleaned tmp true m n hm hn = hm
if-IsCleaned tmp false m n hm hn = hn

cleaned-removals :
    (a : CopyPathArgs) (xfer : Text) (done : List Effect) (recursive : Bool)
    → recursive ≡ false
    → removals done ≡ []
    → removals (done ++ relay_cleanup true (tmp_path a xfer) recursive) ≡ tmp_path a xfer ∷ []
unfolding relay_cleanup
cleaned-removals a xfer done recursive plain r = rw plain (
    rw (tmp_path-filled a xfer)
      (rw (removals-append done (remove (tmp_path a xfer) ∷ [])) (rw r refl)))

fall_through-IsCleaned :
    (tmp : Text) (es : List Effect) → removals es ≡ tmp ∷ [] → IsCleaned tmp (fall_through es)
unfolding IsCleaned
fall_through-IsCleaned tmp es h = h

failed-IsCleaned :
    (tmp : Text) (es : List Effect) (e : CopyError)
    → removals es ≡ tmp ∷ []
    → IsCleaned tmp (answers es (failed e))
unfolding IsCleaned
failed-IsCleaned tmp es e h = h

copied-IsCleaned :
    (tmp : Text) (es : List Effect) → removals es ≡ [] → IsCleaned tmp (answers es copied_http)
unfolding IsCleaned
copied-IsCleaned tmp es h = h

http_finish-IsCleaned :
    (E : HttpEnv) (a : CopyPathArgs) (xfer : Text) (done : List Effect)
    → removals done ≡ []
    → IsCleaned (tmp_path a xfer) (http_finish E a xfer done)
http_finish-IsCleaned E a xfer done r =
    let moved = done ++ move (tmp_path a xfer) a.destination_path ∷ [] in
    let kept : removals moved ≡ [] =
      rw (removals-append done (move (tmp_path a xfer) a.destination_path ∷ [])) (rw r refl) in
    if-IsCleaned (tmp_path a xfer) a.recursive (answers done copied_http) _
      (copied-IsCleaned (tmp_path a xfer) done r)
      (if-IsCleaned (tmp_path a xfer) (E.http_mv_starts && mv_ends E.http_mv_replies)
        (answers moved copied_http) _ (copied-IsCleaned (tmp_path a xfer) moved kept)
        (failed-IsCleaned (tmp_path a xfer) _ rename_failed
          (cleaned-removals a xfer moved false refl kept)))

after_shells-IsCleaned :
    (E : HttpEnv) (a : CopyPathArgs) (xfer : Text) (started : List Effect)
    → a.recursive ≡ false
    → removals started ≡ []
    → IsCleaned (tmp_path a xfer) (after_shells E a xfer started)
unfolding after_shells
after_shells-IsCleaned E a xfer started plain r =
    let cleaned = started ++ relay_cleanup true (tmp_path a xfer) a.recursive in
    let gone = cleaned-removals a xfer started a.recursive plain r in
    let src = run_shell_to_exit E.source_shell_starts E.source_shell_replies in
    let dst = run_shell_to_exit E.destination_shell_starts E.destination_shell_replies in
    if-IsCleaned (tmp_path a xfer)
      (is_auto a.transport && (src.exit == pos 127 || dst.exit == pos 127)) (fall_through cleaned) _
      (fall_through-IsCleaned (tmp_path a xfer) cleaned gone)
      (if-IsCleaned (tmp_path a xfer) src.shell_failed
        (answers cleaned (failed source_shell_failed)) _
        (failed-IsCleaned (tmp_path a xfer) cleaned source_shell_failed gone)
        (if-IsCleaned (tmp_path a xfer) dst.shell_failed
          (answers cleaned (failed destination_shell_failed)) _
          (failed-IsCleaned (tmp_path a xfer) cleaned destination_shell_failed gone)
          (if-IsCleaned (tmp_path a xfer) (not (src.exit == pos 0))
            (answers cleaned (failed (source_curl_exit src.exit))) _
            (failed-IsCleaned (tmp_path a xfer) cleaned (source_curl_exit src.exit) gone)
            (if-IsCleaned (tmp_path a xfer) (not (dst.exit == pos 0))
              (answers cleaned (failed (destination_curl_exit dst.exit))) _
              (failed-IsCleaned (tmp_path a xfer) cleaned (destination_curl_exit dst.exit) gone)
              (http_finish-IsCleaned E a xfer started r)))))

-- Of a copy of a file through the relay that got a ticket: the removal of the file
-- <destination>.partial-<id> is started, once, unless the copy answers with success, so also when it falls
-- through to the bridge and when the rename fails; no other removal is ever started.
pub call_http_relay-removes :
    (P : Paths) (E : HttpEnv) (a : CopyPathArgs) (xfer : Text) (t : RelayTicket)
    → a.recursive ≡ false
    → E.relay_enabled ≡ true
    → E.created ≡ some t
    → removals (call_http_relay P E a xfer).http_effects ≡ (
        if is_copied_http (call_http_relay P E a xfer).answer
        then []
        else (a.destination_path ++ codes ".partial-" ++ xfer) ∷ [])
unfolding call_http_relay IsCleaned
call_http_relay-removes P E a xfer t plain enabled got =
    let ran : IsCleaned (tmp_path a xfer) (with_ticket P E a xfer (some t)) =
      after_shells-IsCleaned E a xfer _ plain refl in
    subst
      (λ b.
        IsCleaned (tmp_path a xfer)
          (if not b then fall_through [] else with_ticket P E a xfer E.created))
      (sym enabled)
      (subst (λ c. IsCleaned (tmp_path a xfer) (with_ticket P E a xfer c)) (sym got) ran)

-- past a refusal that did not happen
else_ok :
    (b : Bool) (e : CallRefusal) {m : Result CallRefusal Ran} {r : Ran}
    → (if b then err e else m) ≡ ok r
    → m ≡ ok r
else_ok true e h = cc
else_ok false e h = h

disabled-dispatch :
    (P : Paths) (H : HttpEnv) (W : WsEnv) (a : CopyPathArgs) (http_xfer ws_xfer : Text)
    (b enabled : Bool)
    → enabled ≡ false
    → (if b
        then (let h =
              if not enabled then fall_through [] else with_ticket P H a http_xfer H.created in
            or_ws P W a ws_xfer h h.answer)
        else call_ws_pump P W a ws_xfer)
      ≡ call_ws_pump P W a ws_xfer
disabled-dispatch P H W a http_xfer ws_xfer true enabled e = rw e refl
disabled-dispatch P H W a http_xfer ws_xfer false enabled e = refl

-- Without a relay every copy that is not refused goes through the bridge, the transport "http" included.
pub call-relay_disabled :
    (P : Paths) (R : Reachable) (H : HttpEnv) (W : WsEnv) (a : CopyPathArgs)
    (http_xfer ws_xfer : Text) (r : Ran)
    → H.relay_enabled ≡ false
    → call P R H W a http_xfer ws_xfer ≡ ok r
    → r ≡ call_ws_pump P W a ws_xfer
unfolding call dispatch_transport call_http_relay
call-relay_disabled P R H W a http_xfer ws_xfer r disabled done =
    let name = transport_name a.transport in
    let filled =
      else_ok
        (is_nil a.source_environment_id
          || is_nil a.source_path
          || is_nil a.destination_environment_id
          || is_nil a.destination_path)
        args_required done in
    let known =
      else_ok (not (name == codes "auto") && not (name == codes "http") && not (name == codes "ws"))
        invalid_transport filled in
    let source_known = else_ok (not R.source_resolves) source_unresolved known in
    let both_known = else_ok (not R.destination_resolves) destination_unresolved source_known in
    let source_there = else_ok (not R.source_connects) source_unavailable both_known in
    sym (ok-inj (else_ok (not R.destination_connects) destination_unavailable source_there))
    ∙ disabled-dispatch P H W a http_xfer ws_xfer
        (name == codes "http" || name == codes "auto" && H.relay_enabled) H.relay_enabled disabled
