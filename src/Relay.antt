-- ===== src/Relay.antt =====
-- The ticket registry of the HTTPS byte relay (internal/codexexecgateway/relay/relay.go). The lock of
-- the registry makes each call one step. The clock and the random ticket are arguments: `mint` is
-- what mintTicket returns, `none` where the random source fails. What the log receives is left out.
pub mod Capacity
pub mod Pairing
pub mod Ticket
use cli_server.Common.{
  ℕ, zero, suc, ◌+◌, ◌-◌, String, Bool, true, false, ◌||◌, Option, none, some, if◌then◌else◌, leb,
  Result, ok, err, ◌==◌, string_eq, nat_eq, length,
}
use cli_server.Common.Int.{ℤ, positive_or}
use cli_server.Common.Dict.{Dict, get, put, remove, empty}

pub data RelayError : Type 0 where
  ids_required workspace_cap_reached mint_failed : RelayError

-- 5 minutes, in nanoseconds, and the default cap
abbrev pub default_relay_ttl : ℕ
default_relay_ttl = 300_000_000_000

abbrev pub default_relay_max_per_workspace : ℕ
default_relay_max_per_workspace = 16

-- the fields of Relay that stay as they are; `MaxBytes` 0 stands for no limit, as every value ≤ 0
pub record Relay : Type 0 where
  pub ticket : String
  pub workspace_id : String
  pub source_exe_id : String
  pub dest_exe_id : String
  pub max_bytes : ℤ
  pub expires_at : ℕ

pub record Registry : Type 0 where
  pub tickets : Dict String Relay
  pub workspace_count : Dict String ℕ
  pub max_per_workspace : ℕ
  pub default_ttl : ℕ

pub record CreateOptions : Type 0 where
  pub workspace_id : String
  pub source_exe_id : String
  pub dest_exe_id : String
  pub ttl : ℤ
  pub max_bytes : ℤ

unfoldable pub new_registry : ℤ → ℤ → Registry
new_registry max_per_workspace default_ttl = record {
  tickets = empty;
  workspace_count = empty;
  max_per_workspace = positive_or max_per_workspace default_relay_max_per_workspace;
  default_ttl = positive_or default_ttl default_relay_ttl;
}

-- workspaceCount[ws], 0 for a missing key
abbrev pub or_zero : Option ℕ → ℕ
or_zero none = 0
or_zero (some n) = n

abbrev pub count_of : Registry → String → ℕ
count_of r ws = or_zero (get r.workspace_count ws)

abbrev pub relay_of : CreateOptions → ℕ → ℕ → String → Relay
relay_of opt default_ttl now ticket = record {
  ticket = ticket;
  workspace_id = opt.workspace_id;
  source_exe_id = opt.source_exe_id;
  dest_exe_id = opt.dest_exe_id;
  max_bytes = opt.max_bytes;
  expires_at = now + positive_or opt.ttl default_ttl;
}

-- behind the test of the cap
unfoldable pub insert_relay :
    Registry → CreateOptions → ℕ → Option String → Result RelayError (Relay × Registry)
insert_relay r opt now none = err mint_failed
insert_relay r opt now (some ticket) =
    let relay = relay_of opt r.default_ttl now ticket in
    ok (
      relay,
      record r {
        tickets = put r.tickets ticket relay;
        workspace_count = put r.workspace_count opt.workspace_id (count_of r opt.workspace_id + 1);
      },
    )

unfoldable pub create :
    Registry → CreateOptions → ℕ → Option String → Result RelayError (Relay × Registry)
unfolding insert_relay
create r opt now mint =
    if opt.workspace_id == "" || opt.source_exe_id == "" || opt.dest_exe_id == ""
    then err ids_required
    else if leb r.max_per_workspace (count_of r opt.workspace_id)
    then err workspace_cap_reached
    else insert_relay r opt now mint

unfoldable pub lookup : Registry → String → Option Relay
lookup r ticket = get r.tickets ticket

-- workspaceCount[ws]--, and the entry is deleted at 0; a missing count would fall to -1, which is
-- deleted too
unfoldable pub decrement : Dict String ℕ → String → Dict String ℕ
decrement counts ws =
    let n = or_zero (get counts ws) - 1 in if n == 0 then remove counts ws else put counts ws n

unfoldable pub forget : Registry → String → Option Relay → Registry
unfolding decrement
forget r ticket none = r
forget r ticket (some relay) = record r {
  tickets = remove r.tickets ticket;
  workspace_count =
      if relay.workspace_id == ""
      then r.workspace_count
      else decrement r.workspace_count relay.workspace_id;
}

-- what the pairing goroutine calls when it is done
unfoldable pub cleanup : Registry → String → Registry
unfolding forget
cleanup r ticket = forget r ticket (get r.tickets ticket)

unfoldable pub active_count : Registry → ℕ
active_count r = length r.tickets.entries
