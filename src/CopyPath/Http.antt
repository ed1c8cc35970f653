-- ===== src/CopyPath/Http.antt =====
-- callHTTPRelay and Call of internal/envtools/tools/copy_path.go. The two shells of the relay run at
-- the same time; what their executors reply to each is an argument.
use cli_server.Common.{
  ℕ, ◌+◌, Option, some, none, List, [], ◌∷◌, ◌++◌, map, Bool, true, false, not, ◌&&◌, ◌||◌,
  if◌then◌else◌, is_nil, ◌==◌, nat_eq, leb, Result, ok, err,
}
use cli_server.Common.Text.{Text, codes, text_eq, trim_space}
use cli_server.Common.Int.{ℤ, pos, negsuc, int_eq}
use cli_server.CopyPath.{Reply, call_failed, undecodable, result}
use cli_server.CopyPath.Quote.{sh_quote}
use cli_server.CopyPath.Transfer.{
  Effect, start, remove, move, source, destination, Outcome, copied_http, failed,
  relay_create_failed, source_shell_failed, destination_shell_failed, source_curl_exit,
  destination_curl_exit, rename_failed, Ran, Paths, CopyPathArgs, trim_slashes, tmp_path, mv_ends,
  WsEnv, call_ws_pump,
}

-- bridge.RelayTicket
pub record RelayTicket : Type 0 where
  pub ticket : Text
  pub upload_url : Text
  pub download_url : Text

-- The end of runShellToExit: whether it failed, and the exit code.
pub record ShellResult : Type 0 where
  pub shell_failed : Bool
  pub exit : ℤ

abbrev pub exit_or_zero : Option ℤ → ℤ
exit_or_zero none = pos 0
exit_or_zero (some z) = z

abbrev pub shell_broken : ShellResult
shell_broken = record { shell_failed = true; exit = negsuc 0 }

-- The loop over the replies to process/read. When they are used up the context is done.
unfoldable pub shell_ends : List Reply → ShellResult
shell_ends [] = shell_broken
shell_ends (call_failed ∷ rs) = shell_broken
shell_ends (undecodable ∷ rs) = shell_broken
shell_ends (result r ∷ rs) =
    if r.exited || r.closed
    then record { shell_failed = false; exit = exit_or_zero r.exit_code }
    else shell_ends rs

-- runShellToExit, without the text of stderr
unfoldable pub run_shell_to_exit : Bool → List Reply → ShellResult
unfolding shell_ends
run_shell_to_exit starts rs = if not starts then shell_broken else shell_ends rs

-- What the relay and the executors answer to callHTTPRelay.
pub record HttpEnv : Type 0 where
  pub relay_enabled : Bool
  pub created : Option RelayTicket
  pub source_shell_starts : Bool
  pub source_shell_replies : List Reply
  pub destination_shell_starts : Bool
  pub destination_shell_replies : List Reply
  pub http_mv_starts : Bool
  pub http_mv_replies : List Reply

-- What was done, and the answer; `none` is fellThrough.
pub record HttpRan : Type 0 where
  pub http_effects : List Effect
  pub answer : Option Outcome

abbrev pub bearer_header : Text → Text
bearer_header t = codes " -H 'Authorization: Bearer " ++ t ++ codes "' "

abbrev pub http_source_script : Paths → CopyPathArgs → RelayTicket → Text
http_source_script P a t =
    if a.recursive
    then codes "set -o pipefail; tar czf - -C "
      ++ sh_quote (P.dir a.source_path)
      ++ codes " "
      ++ sh_quote (P.base (trim_slashes a.source_path))
      ++ codes " | curl -fsS --upload-file -"
      ++ bearer_header t.ticket
      ++ sh_quote t.upload_url
    else codes "curl -fsS --upload-file "
      ++ sh_quote a.source_path
      ++ bearer_header t.ticket
      ++ sh_quote t.upload_url

abbrev pub http_destination_script : Paths → CopyPathArgs → Text → RelayTicket → Text
http_destination_script P a xfer t =
    if a.recursive
    then codes "set -o pipefail; curl -fsS"
      ++ bearer_header t.ticket
      ++ sh_quote t.download_url
      ++ codes " | tar xzf - -C "
      ++ sh_quote (P.dir a.destination_path)
    else codes "curl -fsS"
      ++ bearer_header t.ticket
      ++ sh_quote t.download_url
      ++ codes " -o "
      ++ sh_quote (tmp_path a xfer)

unfoldable pub relay_cleanup : Bool → Text → Bool → List Effect
relay_cleanup dst_bc tmp recursive =
    if recursive || not dst_bc || is_nil tmp then [] else remove tmp ∷ []

-- strings.ToLower, on ASCII; no other letter lowers to one of the three names of a transport
abbrev pub to_lower : ℕ → ℕ
to_lower c = if leb 65 c && leb c 90 then c + 32 else c

abbrev pub lowered : Text → Text
lowered s = map to_lower s

-- strings.EqualFold(strings.TrimSpace(t), "auto") || strings.TrimSpace(t) == ""
unfoldable pub is_auto : Text → Bool
is_auto t = lowered (trim_space t) == codes "auto" || is_nil (trim_space t)

abbrev pub fall_through : List Effect → HttpRan
fall_through effects = record { http_effects = effects; answer = none }

abbrev pub answers : List Effect → Outcome → HttpRan
answers effects o = record { http_effects = effects; answer = some o }

-- after both shells ended well: the rename, for a copy that is not recursive
abbrev pub http_finish : HttpEnv → CopyPathArgs → Text → List Effect → HttpRan
http_finish E a xfer done =
    if a.recursive
    then answers done copied_http
    else let moved = done ++ move (tmp_path a xfer) a.destination_path ∷ [] in
      if E.http_mv_starts && mv_ends E.http_mv_replies
      then answers moved copied_http
      else answers (moved ++ relay_cleanup true (tmp_path a xfer) false) (failed rename_failed)

-- what follows the ends of the two shells
unfoldable pub after_shells : HttpEnv → CopyPathArgs → Text → List Effect → HttpRan
unfolding is_auto run_shell_to_exit
after_shells E a xfer started =
    let cleaned = started ++ relay_cleanup true (tmp_path a xfer) a.recursive in
    let src = run_shell_to_exit E.source_shell_starts E.source_shell_replies in
    let dst = run_shell_to_exit E.destination_shell_starts E.destination_shell_replies in
    if is_auto a.transport && (src.exit == pos 127 || dst.exit == pos 127)
    then fall_through cleaned
    else if src.shell_failed
    then answers cleaned (failed source_shell_failed)
    else if dst.shell_failed
    then answers cleaned (failed destination_shell_failed)
    else if not (src.exit == pos 0)
    then answers cleaned (failed (source_curl_exit src.exit))
    else if not (dst.exit == pos 0)
    then answers cleaned (failed (destination_curl_exit dst.exit))
    else http_finish E a xfer started

abbrev pub with_ticket : Paths → HttpEnv → CopyPathArgs → Text → Option RelayTicket → HttpRan
with_ticket P E a xfer none = answers [] (failed relay_create_failed)
with_ticket P E a xfer (some t) = after_shells E a xfer (
    start source (codes "relay-src-" ++ xfer) (http_source_script P a t)
    ∷ start destination (codes "relay-dst-" ++ xfer) (http_destination_script P a xfer t)
    ∷ [])

unfoldable pub call_http_relay : Paths → HttpEnv → CopyPathArgs → Text → HttpRan
call_http_relay P E a xfer =
    if not E.relay_enabled then fall_through [] else with_ticket P E a xfer E.created

pub data CallRefusal : Type 0 where
  args_required : CallRefusal
  invalid_transport : CallRefusal
  source_unresolved : CallRefusal
  destination_unresolved : CallRefusal
  source_unavailable : CallRefusal
  destination_unavailable : CallRefusal

-- The answers of the name resolver and of the pool of bridges.
pub record Reachable : Type 0 where
  pub source_resolves : Bool
  pub destination_resolves : Bool
  pub source_connects : Bool
  pub destination_connects : Bool

-- the transport by name: "auto" for an empty one
unfoldable pub transport_name : Text → Text
transport_name t = let n = lowered (trim_space t) in if is_nil n then codes "auto" else n

abbrev pub joined : List Effect → Ran → Ran
joined before r = record r { effects = before ++ r.effects }

abbrev pub or_ws : Paths → WsEnv → CopyPathArgs → Text → HttpRan → Option Outcome → Ran
or_ws P W a xfer h none = joined h.http_effects (call_ws_pump P W a xfer)
or_ws P W a xfer h (some o) = record { effects = h.http_effects; outcome = o }

-- the dispatch by transport; the two copies have random ids of their own
unfoldable pub dispatch_transport :
    Paths → HttpEnv → WsEnv → CopyPathArgs → Text → Text → Text → Ran
dispatch_transport P H W a name http_xfer ws_xfer =
    if name == codes "http" || name == codes "auto" && H.relay_enabled
    then (let h = call_http_relay P H a http_xfer in or_ws P W a ws_xfer h h.answer)
    else call_ws_pump P W a ws_xfer

unfoldable pub call :
    Paths → Reachable → HttpEnv → WsEnv → CopyPathArgs → Text → Text → Result CallRefusal Ran
unfolding transport_name dispatch_transport
call P R H W a http_xfer ws_xfer =
    let name = transport_name a.transport in
    if is_nil a.source_environment_id
      || is_nil a.source_path
      || is_nil a.destination_environment_id
      || is_nil a.destination_path
    then err args_required
    else if not (name == codes "auto") && not (name == codes "http") && not (name == codes "ws")
    then err invalid_transport
    else if not R.source_resolves
    then err source_unresolved
    else if not R.destination_resolves
    then err destination_unresolved
    else if not R.source_connects
    then err source_unavailable
    else if not R.destination_connects
    then err destination_unavailable
    else ok (dispatch_transport P H W a name http_xfer ws_xfer)
