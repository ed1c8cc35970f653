-- ===== src/Tunnel/Registry.antt =====
-- The registry of tunnels (internal/tunnel/registry.go), and the calls that the handler of a tunnel makes
-- at its end (internal/sandboxproxy/tunnel.go). A tunnel is a number under which the store has its state;
-- every tunnel that was made stays in the store. Other goroutines run between the calls, so each is a
-- step of its own: newTunnel, the part of Register under the lock, Unregister, and Close.
pub mod Accounted
pub mod Registered
use cli_server.Common.{
  ℕ, ◌≡◌, suc, Option, some, none, Bool, true, false, not, if◌then◌else◌, ◌==◌, string_eq, nat_eq,
  String,
}
use cli_server.Common.Dict.{Dict, get, put, remove, empty}

-- `running`: the channel done is open; `broken`: it was closed when the tunnel was made, and closeOnce
-- has not run; `shut_down`: closeOnce has run, and the channel is closed.
pub data Status : Type 0 where
  running : Status
  broken : Status
  shut_down : Status

pub record Tunnel : Type 0 where
  pub sandbox_id : String
  pub status : Status

-- `stuck`: a panic left the mutex locked.
pub record Registry : Type 0 where
  pub tunnels : Dict String ℕ
  pub store : Dict ℕ Tunnel
  pub count : ℕ
  pub stuck : Bool

unfoldable pub new_registry : Registry
new_registry = record { tunnels = empty; store = empty; count = 0; stuck = false }

-- newTunnel, by whether the yamux session could be made: if not, done is closed at once
abbrev pub new_tunnel : String → Bool → Tunnel
new_tunnel sandbox mux = record { sandbox_id = sandbox; status = if mux then running else broken }

-- The call of newTunnel in Register, before the lock: the tunnel is `r.count`, and its accept loop runs.
unfoldable pub make_tunnel : Registry → String → Bool → Registry
make_tunnel r sandbox mux = record r {
  store = put r.store r.count (new_tunnel sandbox mux);
  count = suc r.count;
}

-- Close: what it leaves, and whether it panics. Closing done a second time panics, and closeOnce has run
-- all the same.
unfoldable pub close_status : Status → Status × Bool
close_status running = (shut_down, false)
close_status broken = (shut_down, true)
close_status shut_down = (shut_down, false)

abbrev pub close_found : Registry → ℕ → Option Tunnel → Registry × Bool
close_found r i none = (r, false)
close_found r i (some t) = (
  record r { store = put r.store i (record t { status = (close_status t.status).0 }) },
  (close_status t.status).1,
)

-- Close of the tunnel `i`
unfoldable pub close_stored_tunnel : Registry → ℕ → Registry × Bool
close_stored_tunnel r i = close_found r i (get r.store i)

abbrev pub close_old : Registry → Option ℕ → Registry × Bool
close_old r none = (r, false)
close_old r (some i) = close_stored_tunnel r i

-- The end of Register. The lock is not released by a defer, so a panic leaves it locked.
abbrev pub add_tunnel : String → ℕ → Registry × Bool → Registry
add_tunnel sandbox i (r, panicked) =
    if panicked then record r { stuck = true } else record r { tunnels = put r.tunnels sandbox i }

-- Register from the lock on: closes the tunnel that the sandbox had, and keeps the tunnel `i`. A result
-- `none` is a wait for the lock that never ends.
unfoldable pub register_tunnel : Registry → String → ℕ → Option Registry
register_tunnel r sandbox i =
    if r.stuck then none else some (add_tunnel sandbox i (close_old r (get r.tunnels sandbox)))

abbrev pub is_tunnel : ℕ → Option ℕ → Bool
is_tunnel i none = false
is_tunnel i (some j) = j == i

abbrev pub unregister_same : Registry → String → Bool → Registry × Bool
unregister_same r sandbox same =
    if same then (record r { tunnels = remove r.tunnels sandbox }, true) else (r, false)

-- Unregister: only the same instance, and whether it was removed; `none` as for Register
unfoldable pub unregister : Registry → String → ℕ → Option (Registry × Bool)
unregister r sandbox i =
    if r.stuck then none else some (unregister_same r sandbox (is_tunnel i (get r.tunnels sandbox)))
