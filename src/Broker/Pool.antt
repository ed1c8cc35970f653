-- ===== src/Broker/Pool.antt =====
-- Pool of internal/codexappgateway/broker/pool.go: one connection per workspace, and the reaper. A
-- connection is a number under which the store has its Conn; the outcome of the resolver and of Dial is
-- an argument, times are in milliseconds.
pub mod Reaper
use cli_server.Common.{
  ℕ, ◌≡◌, ◌+◌, suc, Option, some, none, List, [], ◌∷◌, Bool, true, false, not, if◌then◌else◌, ◌==◌,
  string_eq, nat_eq, String, Result, ok, err, ltb, map,
}
use cli_server.Common.Dict.{Dict, get, put, empty}
use cli_server.Broker.Conn.{Conn}
use cli_server.Broker.Call.{close_conn}

pub record PoolEntry : Type 0 where
  pub conn : Option ℕ
  pub last_used_at : ℕ

-- `dialed` counts the connections that were made.
pub record Pool : Type 0 where
  pub entries : Dict String PoolEntry
  pub idle_ttl : ℕ
  pub conns : Dict ℕ Conn
  pub dialed : ℕ

pub data PoolError : Type 0 where
  workspace_required : PoolError
  resolve_failed : PoolError
  dial_failed : PoolError

abbrev pub is_set : Option String → Bool
is_set none = false
is_set (some e) = true

-- whether the reader of a stored connection has ended
abbrev pub is_dead : Option Conn → Bool
is_dead none = true
is_dead (some c) = is_set c.close_err

-- e.conn == nil || e.connClosed()
unfoldable pub conn_closed : Pool → Option ℕ → Bool
conn_closed p none = true
conn_closed p (some i) = is_dead (get p.conns i)

-- the entry of a workspace, or a new one
abbrev pub entry_or_new : Option PoolEntry → PoolEntry
entry_or_new none = record { conn = none; last_used_at = 0 }
entry_or_new (some e) = e

abbrev pub set_entry : Pool → String → PoolEntry → Pool
set_entry p ws e = record p { entries = put p.entries ws e }

abbrev pub redial :
    Pool → ℕ → String → PoolEntry → Result PoolError Conn → Pool × Result PoolError ℕ
redial p now ws e (err x) = (set_entry p ws e, err x)
redial p now ws e (ok c) = (
  record (set_entry p ws (record { conn = some p.dialed; last_used_at = now })) {
    conns = put p.conns p.dialed c;
    dialed = suc p.dialed;
  },
  ok p.dialed,
)

abbrev pub reuse :
    Pool → ℕ → String → PoolEntry → Option ℕ → Result PoolError Conn → Pool × Result PoolError ℕ
reuse p now ws e none dial = redial p now ws e dial
reuse p now ws e (some i) dial =
    if is_dead (get p.conns i)
    then redial p now ws e dial
    else (set_entry p ws (record e { last_used_at = now }), ok i)

unfoldable pub get_conn : Pool → ℕ → String → Result PoolError Conn → Pool × Result PoolError ℕ
get_conn p now ws dial =
    if ws == ""
    then (p, err workspace_required)
    else let e = entry_or_new (get p.entries ws) in reuse p now ws e e.conn dial

abbrev pub touched : ℕ → PoolEntry → Option ℕ → PoolEntry
touched now e none = e
touched now e (some i) = record e { last_used_at = now }

abbrev pub touch_entry : Pool → ℕ → String → Option PoolEntry → Pool
touch_entry p now ws none = p
touch_entry p now ws (some e) = set_entry p ws (touched now e e.conn)

unfoldable pub touch : Pool → ℕ → String → Pool
touch p now ws = touch_entry p now ws (get p.entries ws)

abbrev pub close_stored : Dict ℕ Conn → ℕ → Option Conn → Dict ℕ Conn
close_stored cs i none = cs
close_stored cs i (some c) = put cs i (close_conn c)

-- `e.conn.Close(); e.conn = nil`, for an entry that is stale
abbrev pub reap_conn : Pool → ℕ → String → PoolEntry → Option ℕ → Pool
reap_conn p now ws e none = p
reap_conn p now ws e (some i) =
    if ltb (e.last_used_at + p.idle_ttl) now
    then record (set_entry p ws (record e { conn = none })) {
      conns = close_stored p.conns i (get p.conns i);
    }
    else p

abbrev pub reap_entry : Pool → ℕ → String → Option PoolEntry → Pool
reap_entry p now ws none = p
reap_entry p now ws (some e) = reap_conn p now ws e e.conn

-- the loop of reapOnce over the keys that it collected
unfoldable pub reap_keys : Pool → ℕ → List String → Pool
reap_keys p now [] = p
reap_keys p now (ws ∷ keys) = reap_keys (reap_entry p now ws (get p.entries ws)) now keys

unfoldable pub reap_once : Pool → ℕ → Pool
unfolding reap_keys
reap_once p now = reap_keys p now (map (λ e. e.0) p.entries.entries)

unfoldable pub close_entries : Dict ℕ Conn → List (String × PoolEntry) → Dict ℕ Conn
close_entries cs [] = cs
close_entries cs ((ws, e) ∷ es) =
    let rest = close_entries cs es in
    elim e.conn [ none ↦ rest | some i ↦ close_stored rest i (get rest i) ]

-- Close
unfoldable pub close_pool : Pool → Pool
close_pool p = record p { entries = empty; conns = close_entries p.conns p.entries.entries }
