-- ===== src/CopyPath.antt =====
-- The tool copy_path (internal/envtools/tools/copy_path.go): the choice of the transport, the copy
-- through the bridge, the copy through the HTTP relay, and what each leaves at the destination. What the
-- executors and the relay answer is an argument.
pub mod Quote
pub mod Pump
pub mod Pumped
pub mod Transfer
pub mod Http
pub mod Effects
pub mod Relayed
use cli_server.Common.{
  ℕ, zero, suc, ◌≡◌, Option, some, none, List, [], ◌∷◌, ◌++◌, Bool, true, false, not, ◌&&◌, ◌||◌,
  if◌then◌else◌,
}
use cli_server.Common.Text.{Text}
use cli_server.Common.Int.{ℤ, pos, negsuc}

-- One chunk of process/read: whether it is of stdout, and its bytes; `none` for bad base64.
pub record Chunk : Type 0 where
  pub is_stdout : Bool
  pub decoded : Option Text

-- bridge.ProcessReadResult, as far as it is read
pub record ProcessReadResult : Type 0 where
  pub chunks : List Chunk
  pub exited : Bool
  pub closed : Bool
  pub exit_code : Option ℤ

pub data Reply : Type 0 where
  call_failed : Reply
  undecodable : Reply
  result : ProcessReadResult → Reply

-- `r.ExitCode != nil && *r.ExitCode != 0`
abbrev pub is_failure : Option ℤ → Bool
is_failure none = false
is_failure (some (pos zero)) = false
is_failure (some (pos (suc n))) = true
is_failure (some (negsuc n)) = true
