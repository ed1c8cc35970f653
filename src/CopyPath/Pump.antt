-- ===== src/CopyPath/Pump.antt =====
-- pumpChunks and waitDestinationDrained of internal/envtools/tools/copy_path.go.
use cli_server.Common.{
  ℕ, ◌+◌, Option, some, none, List, [], ◌∷◌, ◌++◌, Bool, not, ◌||◌, if◌then◌else◌, length,
}
use cli_server.Common.Text.{Text}
use cli_server.CopyPath.{
  Chunk, ProcessReadResult, Reply, call_failed, undecodable, result, is_failure,
}

pub data PumpError : Type 0 where
  source_read_failed : PumpError
  source_undecodable : PumpError
  source_bad_base64 : PumpError
  destination_write_failed : PumpError
  source_exit : PumpError

-- What was written to the destination, one entry per process/write that was accepted, and the error.
pub record Pumped : Type 0 where
  pub written : List Text
  pub failure : Option PumpError

abbrev pub stopped : List Text → PumpError → Pumped
stopped ws e = record { written = ws; failure = some e }

abbrev pub forward_body : (ℕ → Bool) → List Text → Option Text → (List Text → Pumped) → Pumped
forward_body accepts ws none next = stopped ws source_bad_base64
forward_body accepts ws (some b) next =
    if accepts (length ws) then next (ws ++ b ∷ []) else stopped ws destination_write_failed

-- The loop over the chunks of one reply. `accepts n` is the answer to the write after `n` others.
unfoldable pub forward : (ℕ → Bool) → List Chunk → List Text → Pumped
forward accepts [] ws = record { written = ws; failure = none }
forward accepts (c ∷ cs) ws =
    let next = forward accepts cs in
    if not c.is_stdout then next ws else forward_body accepts ws c.decoded next

-- After the chunks of a reply: an error of theirs, the end of the source, or the next reply.
abbrev pub after_forward :
    ProcessReadResult → List Text → Option PumpError → (List Text → Pumped) → Pumped
after_forward r ws (some e) next = stopped ws e
after_forward r ws none next =
    if not (r.exited || r.closed)
    then next ws
    else if is_failure r.exit_code
    then stopped ws source_exit
    else record { written = ws; failure = none }

-- The loop over the replies to process/read. When they are used up the context is done, so the call fails.
unfoldable pub pump_chunks : (ℕ → Bool) → List Reply → List Text → Pumped
unfolding forward
pump_chunks accepts [] ws = stopped ws source_read_failed
pump_chunks accepts (call_failed ∷ rs) ws = stopped ws source_read_failed
pump_chunks accepts (undecodable ∷ rs) ws = stopped ws source_undecodable
pump_chunks accepts (result r ∷ rs) ws =
    let p = forward accepts r.chunks ws in
    after_forward r p.written p.failure (pump_chunks accepts rs)

-- totalBytes
unfoldable pub total_bytes : List Text → ℕ
total_bytes [] = 0
total_bytes (w ∷ ws) = length w + total_bytes ws
