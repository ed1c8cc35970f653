-- ===== src/Broker/Pool/Reaper.antt =====
-- What callers can count on from the pool (internal/codexappgateway/broker/pool.go).
use cli_server.Common.{
  ℕ, ◌≡◌, refl, ap, ◌∙◌, ◌+◌, Option, some, none, List, [], ◌∷◌, Bool, true, false, ◌||◌,
  if◌then◌else◌, ◌==◌, ==_iff, string_eq, nat_eq, String, Result, ok, err, ltb, map, Bool-cases,
  inl, inr, arith,
}
use cli_server.Common.Dict.{get, find, get-put, get-put_same}
use cli_server.Broker.Conn.{Conn}
use cli_server.Broker.Pool.{
  Pool, PoolEntry, PoolError, is_set, is_dead, entry_or_new, set_entry, redial, reuse, get_conn,
  reap_conn, reap_entry, reap_keys, reap_once, workspace_required,
}

-- A new connection has not failed.
abbrev pub IsFresh : Result PoolError Conn → Type 0
IsFresh (err x) = Unit
IsFresh (ok c) = is_set c.close_err ≡ false

-- The entry of the workspace holds the connection `i`, which is alive.
abbrev pub Serves : Pool → String → ℕ → Type 0
Serves p ws i =
    (e : PoolEntry) × (get p.entries ws ≡ some e)
    × (e.conn ≡ some i)
    × (is_dead (get p.conns i) ≡ false)

-- An answer with a connection leaves the workspace served by it.
abbrev pub Answers : String → ℕ → Pool × Result PoolError ℕ → Type 0
Answers ws i r = r.1 ≡ ok i → Serves r.0 ws i

if-Answers :
    (ws : String) (i : ℕ) (b : Bool) (m n : Pool × Result PoolError ℕ)
    → (b ≡ true → Answers ws i m)
    → (b ≡ false → Answers ws i n)
    → Answers ws i (if b then m else n)
if-Answers ws i true m n hm hn = hm refl
if-Answers ws i false m n hm hn = hn refl

redial-Answers :
    (p : Pool) (now : ℕ) (ws : String) (e : PoolEntry) (dial : Result PoolError Conn) (i : ℕ)
    → IsFresh dial
    → Answers ws i (redial p now ws e dial)
redial-Answers p now ws e (err x) i fresh h = cc
redial-Answers p now ws e (ok c) i fresh h =
    let same : p.dialed ≡ i = (cc) in
    (
      record { conn = some p.dialed; last_used_at = now },
      get-put_same p.entries ws (record { conn = some p.dialed; last_used_at = now }),
      ap some same,
      (rw⁻¹ same (rw (get-put_same p.conns p.dialed c) fresh)),
    )

reuse-Answers :
    (p : Pool) (now : ℕ) (ws : String) (e : PoolEntry) (m : Option ℕ) (dial : Result PoolError Conn)
    (i : ℕ)
    → IsFresh dial
    → e.conn ≡ m
    → Answers ws i (reuse p now ws e m dial)
reuse-Answers p now ws e none dial i fresh c = redial-Answers p now ws e dial i fresh
reuse-Answers p now ws e (some j) dial i fresh c =
    if-Answers ws i (is_dead (get p.conns j)) (redial p now ws e dial)
      (set_entry p ws (record e { last_used_at = now }), ok j)
      (λ dead. redial-Answers p now ws e dial i fresh)
      (λ live h.
        let same : j ≡ i = (cc) in
        (
          record e { last_used_at = now },
          get-put_same p.entries ws (record e { last_used_at = now }),
          c ∙ ap some same,
          (rw⁻¹ same live),
        ))

get_conn-Answers :
    (p : Pool) (now : ℕ) (ws : String) (dial : Result PoolError Conn) (i : ℕ)
    → IsFresh dial
    → Answers ws i (get_conn p now ws dial)
unfolding get_conn
get_conn-Answers p now ws dial i fresh =
    let e = entry_or_new (get p.entries ws) in
    if-Answers ws i (ws == "") (p, err workspace_required) (reuse p now ws e e.conn dial)
      (λ x h. cc) (λ x. reuse-Answers p now ws e e.conn dial i fresh refl)

Serves-get_conn :
    (p : Pool) (now : ℕ) (ws : String) (dial : Result PoolError Conn) (i : ℕ)
    → (ws == "") ≡ false
    → Serves p ws i
    → (get_conn p now ws dial).1 ≡ ok i
unfolding get_conn
Serves-get_conn p now ws dial i named (e, found, holds, live) =
    rw named (rw found (rw holds (rw live refl)))

-- If a connection that is dialed has not failed yet: a connection that Get returned, reused or new, is
-- alive, and the next Get for the workspace returns the same one, whatever a dial would give.
pub get_conn-shared :
    (p : Pool) (now later : ℕ) (ws : String) (dial redial : Result PoolError Conn) (i : ℕ)
    → (ws == "") ≡ false
    → IsFresh dial
    → (get_conn p now ws dial).1 ≡ ok i
    → (is_dead (get (get_conn p now ws dial).0.conns i) ≡ false)
      × ((get_conn (get_conn p now ws dial).0 later ws redial).1 ≡ ok i)
get_conn-shared p now later ws dial redial i named fresh h =
    let (e, found, holds, live) = get_conn-Answers p now ws dial i fresh h in
    (
      live,
      Serves-get_conn (get_conn p now ws dial).0 later ws redial i named (e, found, holds, live),
    )

-- what the reaper makes of an entry
abbrev pub reaped_conn : ℕ → ℕ → PoolEntry → Option ℕ → PoolEntry
reaped_conn now ttl e none = e
reaped_conn now ttl e (some i) =
    if ltb (e.last_used_at + ttl) now then record e { conn = none } else e

abbrev pub reaped : ℕ → ℕ → Option PoolEntry → Option PoolEntry
reaped now ttl none = none
reaped now ttl (some e) = some (reaped_conn now ttl e e.conn)

reap_conn-get :
    (p : Pool) (now : ℕ) (ws k : String) (e : PoolEntry) (m : Option ℕ)
    → get p.entries ws ≡ some e
    → get (reap_conn p now ws e m).entries k
      ≡ (if ws == k then some (reaped_conn now p.idle_ttl e m) else get p.entries k)
reap_conn-get p now ws k e none found = grind (arith, ==_iff ws k)
reap_conn-get p now ws k e (some i) found =
    grind (arith, ==_iff ws k, get-put p.entries ws k (record e { conn = none }))

reap_conn-ttl :
    (p : Pool) (now : ℕ) (ws : String) (e : PoolEntry) (m : Option ℕ)
    → (reap_conn p now ws e m).idle_ttl ≡ p.idle_ttl
reap_conn-ttl p now ws e none = refl
reap_conn-ttl p now ws e (some i) = grind (arith)

reap_entry-get :
    (p : Pool) (now : ℕ) (ws k : String) (m : Option PoolEntry)
    → get p.entries ws ≡ m
    → get (reap_entry p now ws m).entries k
      ≡ (if ws == k then reaped now p.idle_ttl m else get p.entries k)
reap_entry-get p now ws k none found = elim (Bool-cases (ws == k)) [
  | inl e ↦ let same : ws ≡ k = ((==_iff ws k).0 e) in rw e (rw⁻¹ same found)
  | inr e ↦ rw e refl
]
reap_entry-get p now ws k (some e) found = reap_conn-get p now ws k e e.conn found

reap_entry-ttl :
    (p : Pool) (now : ℕ) (ws : String) (m : Option PoolEntry)
    → (reap_entry p now ws m).idle_ttl ≡ p.idle_ttl
reap_entry-ttl p now ws none = refl
reap_entry-ttl p now ws (some e) = reap_conn-ttl p now ws e e.conn

abbrev pub listed_key : String → List String → Bool
listed_key k [] = false
listed_key k (j ∷ js) = j == k || listed_key k js

reaped_conn-again :
    (now ttl : ℕ) (e : PoolEntry) (m : Option ℕ)
    → e.conn ≡ m
    → (let r = reaped_conn now ttl e m in reaped_conn now ttl r r.conn) ≡ reaped_conn now ttl e m
reaped_conn-again now ttl e none c = rw c refl
reaped_conn-again now ttl e (some i) c = elim (Bool-cases (ltb (e.last_used_at + ttl) now)) [
  | inl stale ↦ rw stale refl
  | inr used ↦ rw used (rw c (rw used refl))
]

reaped-reaped :
    (now ttl : ℕ) (m : Option PoolEntry) → reaped now ttl (reaped now ttl m) ≡ reaped now ttl m
reaped-reaped now ttl none = refl
reaped-reaped now ttl (some e) = ap some (reaped_conn-again now ttl e e.conn refl)

reaped-either :
    (now ttl : ℕ) (b l : Bool) (x y : Option PoolEntry)
    → (b ≡ true → x ≡ y)
    → (let z = if b then reaped now ttl x else y in if l then reaped now ttl z else z)
      ≡ (if b || l then reaped now ttl y else y)
reaped-either now ttl true true x y same = rw (same refl) (reaped-reaped now ttl y)
reaped-either now ttl true false x y same = ap (reaped now ttl) (same refl)
reaped-either now ttl false true x y same = refl
reaped-either now ttl false false x y same = refl

reap_keys-get :
    (p : Pool) (now : ℕ) (keys : List String) (k : String)
    → get (reap_keys p now keys).entries k
      ≡ (if listed_key k keys then reaped now p.idle_ttl (get p.entries k) else get p.entries k)
unfolding reap_keys
reap_keys-get p now [] k = refl
reap_keys-get p now (ws ∷ keys) k =
    let step = reap_entry-get p now ws k (get p.entries ws) refl in
    let ttl = reap_entry-ttl p now ws (get p.entries ws) in
    let rest = reap_keys-get (reap_entry p now ws (get p.entries ws)) now keys k in
    rest
    ∙ (rw ttl (
        rw step (
          reaped-either now p.idle_ttl (ws == k) (listed_key k keys) (get p.entries ws)
            (get p.entries k) (λ e. ap (get p.entries) ((==_iff ws k).0 e)))))

find-listed :
    (m : List (String × PoolEntry)) (k : String)
    → listed_key k (map (λ e. e.0) m) ≡ false
    → find k m ≡ none
unfolding find
find-listed [] k h = refl
find-listed ((j, e) ∷ m) k h = ground (arith, find-listed m k)

-- One round of the reaper takes the connection from exactly the entries that were used longer ago than
-- the idle time, and leaves every other entry as it was.
pub reap_once-reaped :
    (p : Pool) (now : ℕ) (ws : String)
    → get (reap_once p now).entries ws ≡ reaped now p.idle_ttl (get p.entries ws)
unfolding reap_once get
reap_once-reaped p now ws =
    let keys = map (λ e. e.0) p.entries.entries in
    reap_keys-get p now keys ws ∙ elim (Bool-cases (listed_key ws keys)) [
      | inl e ↦ rw e refl
      | inr e ↦ rw e (rw (find-listed p.entries.entries ws e) refl)
    ]
