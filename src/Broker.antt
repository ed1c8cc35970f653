-- ===== src/Broker.antt =====
-- The broker between the REST interface of the codex app gateway and a codex subprocess
-- (internal/codexappgateway/broker): calls that wait for a frame, the routing of frames, the two
-- requests, and the pool of connections. encoding/json is the record `Wire`.
pub mod Waiters
pub mod Waiting
pub mod Conn
pub mod Dispatch
pub mod Sound
pub mod Replies
pub mod Items
pub mod Turns
pub mod Params
pub mod Pool
pub mod Call
pub mod Steps
use cli_server.Common.{
  ℕ, ◌≡◌, refl, ap, zero, suc, Option, some, none, List, Bool, true, false, ◌||◌, ◌&&◌, String, ◌↔◌,
  nat_beq, nat_beq_iff, Eq,
}
use cli_server.Common.Text.{Text}
use cli_server.Common.Int.{ℤ, pos, negsuc}
use cli_server.Common.Dict.{Dict}

pub record RpcError : Type 0 where
  pub code : ℤ
  pub message : Text
  pub error_data : Text

-- rpcResponse: its shape covers responses, notifications and requests
pub record RpcResponse : Type 0 where
  pub id : Option ℤ
  pub result : Text
  pub error : Option RpcError
  pub method : String
  pub params : Text

-- rpcRequest
pub record RpcRequest : Type 0 where
  pub request_id : Option ℤ
  pub request_method : String
  pub request_params : Text

pub record TurnPayload : Type 0 where
  pub turn : String
  pub raw : Text

pub record ItemCompletedParams : Type 0 where
  pub item : Text
  pub turn_id : String

-- The decoding and encoding of JSON. `read_object` answers with `some none` for the text `null`,
-- which leaves a Go map nil.
pub record Wire : Type 0 where
  pub read_frame : Text → Option RpcResponse
  pub read_item_completed : Text → Option ItemCompletedParams
  pub read_turn_completed : Text → Option TurnPayload
  pub read_turn_start : Text → Option String
  pub read_thread_start : Text → Option String
  pub read_object : Text → Option (Option (Dict String Text))
  pub write_object : Dict String Text → Option Text
  pub write_array : List Text → Option Text
  pub quote : String → Text
  pub write_interrupt : String → String → Text
