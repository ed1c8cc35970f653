-- ===== src/Broker/Turns.antt =====
-- The result of a turn: every item that arrived for it, in order (internal/codexappgateway/broker/conn.go).
use cli_server.Common.{ℕ, ◌≡◌, Option, some, List, string_eq, nat_eq, String}
use cli_server.Common.Text.{Text}
use cli_server.Common.Dict.{Dict, get, put}
use cli_server.Common.Int.{int_eq}
use cli_server.Broker.{TurnPayload, Wire}
use cli_server.Broker.Waiters.{holding}
use cli_server.Broker.Conn.{Conn, Handled, Merge, merged, merge_failed, nil_map}

-- the payload that a waiting caller is sent
abbrev finished : TurnPayload → Merge → TurnPayload
finished p (merged raw) = record p { raw = raw }
finished p merge_failed = p
finished p nil_map = p

-- The frames were handled, and the channel holds the payload.
abbrev Holds : Option Handled → ℕ → TurnPayload → Type 0
Holds out ch p =
    (h : Handled) × (out ≡ some h) × (get h.conn.pending_turns.chans ch ≡ some (holding p))

-- A decoded object whose field `items` is set to an encoded array encodes, and decodes to its own fields
-- and that one.
abbrev pub KeepsFields : Wire → Type 0
KeepsFields W =
    (raw : Text) (m : Dict String Text) (items : List Text) (array : Text)
    → W.read_object raw ≡ some (some m)
    → W.write_array items ≡ some array
    → (out : Text) × (m' : Dict String Text) × (W.write_object (put m "items" array) ≡ some out)
      × (W.read_object out ≡ some (some m'))
      × ((k : String) → get m' k ≡ get (put m "items" array) k)
