-- ===== src/Gateway/Revocation.antt =====
-- RevokedSet (internal/codexexecgateway/revocation.go). Its lock makes each call one step, and the
-- clock is an argument, in seconds. `order` is the linked list, oldest first. A value of `items` points
-- to an element of that list; the element is the one that holds the key's turn_id, so `items` is
-- modelled by its keys. Expiries are taken to be no earlier than 1970.
pub mod Linked
pub mod Bounded
pub mod Kept
use cli_server.Common.{
  ℕ, zero, suc, ◌+◌, String, Bool, true, false, not, ◌||◌, Option, none, some, List, [], ◌∷◌, ◌++◌,
  if◌then◌else◌, ltb, leb, ◌==◌, string_eq, nat_eq, length, keep,
}
use cli_server.Common.Int.{ℤ, positive_or}
use cli_server.Common.Dict.{Dict, get, put, remove, empty}

pub record RevokedEntry : Type 0 where
  pub turn_id : String
  pub exp : ℕ

pub record RevokedSet : Type 0 where
  pub cap : ℕ
  pub order : List RevokedEntry
  pub items : Dict String (Unit {0})

unfoldable pub new_revoked_set : ℤ → RevokedSet
new_revoked_set cap = record { cap = positive_or cap 10_000; order = []; items = empty }

-- r.order.Remove of the element of a turn
unfoldable pub unlink : String → List RevokedEntry → List RevokedEntry
unlink t [] = []
unlink t (e ∷ es) = if e.turn_id == t then es else e ∷ unlink t es

-- The loop of Add, from the front of the list: what is left of it and of `items`, and `evictedLive`.
pub record Evicted : Type 0 where
  pub order : List RevokedEntry
  pub items : Dict String (Unit {0})
  pub live : Bool

unfoldable pub evict : ℕ → ℕ → List RevokedEntry → Dict String (Unit {0}) → Evicted
evict cap now [] items = record { order = []; items = items; live = false }
evict cap now (e ∷ es) items =
    let next = evict cap now es (remove items e.turn_id) in
    if leb cap (length (e ∷ es))
    then record next { live = ltb now e.exp || next.live }
    else record { order = e ∷ es; items = items; live = false }

-- Add of a turn that is known, and of one that is not
unfoldable pub refresh : RevokedSet → RevokedEntry → RevokedSet × Bool
refresh r e = (record r { order = unlink e.turn_id r.order ++ e ∷ [] }, false)

unfoldable pub push_back : RevokedSet → RevokedEntry → Evicted → RevokedSet × Bool
push_back r e left =
    (record r { order = left.order ++ e ∷ []; items = put left.items e.turn_id tt }, left.live)

abbrev pub is_some {ℓ} : {A : Type ℓ} → Option A → Bool
is_some none = false
is_some (some a) = true

unfoldable pub contains : RevokedSet → String → Bool
contains r t = is_some (get r.items t)

unfoldable pub add : RevokedSet → String → ℕ → ℕ → RevokedSet × Bool
unfolding refresh push_back
add r t exp now =
    let e : RevokedEntry = record { turn_id = t; exp = exp } in
    if is_some (get r.items t) then refresh r e else push_back r e (evict r.cap now r.order r.items)

-- the loop of Prune
unfoldable pub prune_loop :
    ℕ → List RevokedEntry → Dict String (Unit {0}) → List RevokedEntry × Dict String (Unit {0})
prune_loop now [] items = ([], items)
prune_loop now (e ∷ es) items =
    let stale = ltb e.exp now in
    let (es', items') = prune_loop now es (if stale then remove items e.turn_id else items) in
    (if stale then es' else e ∷ es', items')

unfoldable pub prune : RevokedSet → ℕ → RevokedSet
unfolding prune_loop
prune r now =
    let (order', items') = prune_loop now r.order r.items in
    record r { order = order'; items = items' }

unfoldable pub size : RevokedSet → ℕ
size r = length r.order
