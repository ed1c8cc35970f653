-- ===== src/CopyPath/Transfer.antt =====
-- callWSPump of internal/envtools/tools/copy_path.go: what it does at the two executors, in order, and
-- what it answers; calls that only read are left out. filepath.Dir and filepath.Base are the record `Paths`,
-- and the random id of a transfer is an argument.
use cli_server.Common.{
  ℕ, Option, some, none, List, [], ◌∷◌, ◌++◌, map, Bool, true, false, not, ◌&&◌, ◌||◌,
  if◌then◌else◌, is_nil, ◌==◌, nat_eq,
}
use cli_server.Common.Text.{Text, codes, text_eq, trim_right}
use cli_server.Common.Int.{ℤ}
use cli_server.CopyPath.{Reply, call_failed, undecodable, result, is_failure}
use cli_server.CopyPath.Quote.{sh_quote}
use cli_server.CopyPath.Pump.{PumpError, pump_chunks, total_bytes}

pub data Side : Type 0 where
  source : Side
  destination : Side

-- A call to an executor: process/start of a script under a process id, process/terminate of an id,
-- process/write of bytes to the destination; and the starts of `rm -f` and `mv` there.
pub data Effect : Type 0 where
  start : Side → Text → Text → Effect
  terminate : Side → Text → Effect
  write : Text → Effect
  remove : Text → Effect
  move : Text → Text → Effect

pub data CopyError : Type 0 where
  source_start_failed : CopyError
  destination_start_failed : CopyError
  pump_failed : PumpError → CopyError
  rename_failed : CopyError
  relay_create_failed : CopyError
  source_shell_failed : CopyError
  destination_shell_failed : CopyError
  source_curl_exit : ℤ → CopyError
  destination_curl_exit : ℤ → CopyError

pub data Outcome : Type 0 where
  copied_ws : ℕ → Outcome
  copied_http : Outcome
  failed : CopyError → Outcome

pub record Ran : Type 0 where
  pub effects : List Effect
  pub outcome : Outcome

pub record Paths : Type 0 where
  pub dir : Text → Text
  pub base : Text → Text

-- copyPathArgs, as far as the two copies read them
pub record CopyPathArgs : Type 0 where
  pub source_environment_id : Text
  pub source_path : Text
  pub destination_environment_id : Text
  pub destination_path : Text
  pub recursive : Bool
  pub transport : Text

-- strings.TrimRight(s, "/")
abbrev pub trim_slashes : Text → Text
trim_slashes s = trim_right (λ c. c == b'/') s

abbrev pub tmp_path : CopyPathArgs → Text → Text
tmp_path a xfer = a.destination_path ++ codes ".partial-" ++ xfer

unfoldable pub tmp_path_if_not_recursive : Text → Bool → Text
tmp_path_if_not_recursive tmp recursive = if recursive then [] else tmp

-- The clean-up after an error: a client that is nil, and an id or a path that is empty, are left out.
unfoldable pub cleanup : Bool → Text → Bool → Text → Text → List Effect
cleanup src_bc src_pid dst_bc dst_pid tmp =
    (if src_bc && not (is_nil src_pid) then terminate source src_pid ∷ [] else [])
    ++ (if dst_bc && not (is_nil dst_pid) then terminate destination dst_pid ∷ [] else [])
    ++ (if dst_bc && not (is_nil tmp) then remove tmp ∷ [] else [])

-- remoteRename: whether `mv` started and ended without a failure
unfoldable pub mv_ends : List Reply → Bool
mv_ends [] = false
mv_ends (call_failed ∷ rs) = false
mv_ends (undecodable ∷ rs) = false
mv_ends (result r ∷ rs) = if r.exited || r.closed then not (is_failure r.exit_code) else mv_ends rs

-- What the executors answer to the calls of callWSPump.
pub record WsEnv : Type 0 where
  pub source_starts : Bool
  pub destination_starts : Bool
  pub accepts : ℕ → Bool
  pub source_replies : List Reply
  pub mv_starts : Bool
  pub mv_replies : List Reply

abbrev pub ws_source_script : Paths → CopyPathArgs → Text
ws_source_script P a =
    if a.recursive
    then codes "tar czf - -C "
      ++ sh_quote (P.dir a.source_path)
      ++ codes " "
      ++ sh_quote (P.base (trim_slashes a.source_path))
    else codes "cat " ++ sh_quote a.source_path

abbrev pub ws_destination_script : Paths → CopyPathArgs → Text → Text
ws_destination_script P a xfer =
    if a.recursive
    then codes "tar xzf - -C " ++ sh_quote (P.dir a.destination_path)
    else codes "cat > " ++ sh_quote (tmp_path a xfer)

abbrev pub src_pid : Text → Text
src_pid xfer = codes "copy-src-" ++ xfer

abbrev pub dst_pid : Text → Text
dst_pid xfer = codes "copy-dst-" ++ xfer

-- after the pump: the rename, for a copy that is not recursive
abbrev pub ws_finish : WsEnv → CopyPathArgs → Text → List Effect → List Text → Ran
ws_finish E a xfer done ws =
    if a.recursive
    then record { effects = done; outcome = copied_ws (total_bytes ws) }
    else let moved = done ++ move (tmp_path a xfer) a.destination_path ∷ [] in
      if E.mv_starts && mv_ends E.mv_replies
      then record { effects = moved; outcome = copied_ws (total_bytes ws) }
      else record {
        effects =
            moved
            ++ cleanup false [] false [] (tmp_path_if_not_recursive (tmp_path a xfer) a.recursive);
        outcome = failed rename_failed;
      }

abbrev pub ws_after_pump :
    WsEnv → CopyPathArgs → Text → List Effect → List Text → Option PumpError → Ran
ws_after_pump E a xfer started ws (some e) = record {
  effects =
      started
      ++ map write ws
      ++ cleanup true (src_pid xfer) true (dst_pid xfer)
          (tmp_path_if_not_recursive (tmp_path a xfer) a.recursive);
  outcome = failed (pump_failed e);
}
ws_after_pump E a xfer started ws none =
    ws_finish E a xfer (started ++ map write ws ++ terminate destination (dst_pid xfer) ∷ []) ws

-- the starts of the two processes
abbrev pub ws_started : Paths → CopyPathArgs → Text → List Effect
ws_started P a xfer =
    start source (src_pid xfer) (ws_source_script P a)
    ∷ start destination (dst_pid xfer) (ws_destination_script P a xfer)
    ∷ []

unfoldable pub call_ws_pump : Paths → WsEnv → CopyPathArgs → Text → Ran
call_ws_pump P E a xfer =
    if not E.source_starts
    then record {
      effects = start source (src_pid xfer) (ws_source_script P a) ∷ [];
      outcome = failed source_start_failed;
    }
    else if not E.destination_starts
    then record {
      effects = ws_started P a xfer ++ cleanup true (src_pid xfer) true [] [];
      outcome = failed destination_start_failed;
    }
    else let p = pump_chunks E.accepts E.source_replies [] in
      ws_after_pump E a xfer (ws_started P a xfer) p.written p.failure
