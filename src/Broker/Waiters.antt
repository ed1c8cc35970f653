-- ===== src/Broker/Waiters.antt =====
-- A map from keys to channels of capacity one, as pendingResp and pendingTurns of
-- internal/codexappgateway/broker/conn.go: callers register a channel and wait on it, the reader takes
-- the channel out of the map and sends one value, or closes it.
use cli_server.Common.{ℕ, suc, Option, some, none, List, [], ◌∷◌, nat_eq, Eq}
use cli_server.Common.Dict.{Dict, get, put, remove, empty}

-- A channel of capacity one: nothing sent, a value in its buffer, and both closed.
pub data Chan {ℓ} (A : Type ℓ) : Type ℓ where
  waiting : Chan A
  holding : A → Chan A
  shut : Chan A
  shut_holding : A → Chan A

-- `ch <- a` by the reader, for the channel that was looked up: `none` when it would wait for a
-- receiver, or panic on a closed channel.
unfoldable pub send {ℓ} : {A : Type ℓ} → Option (Chan A) → A → Option (Chan A)
send (some waiting) a = some (holding a)
send (some (holding b)) a = none
send (some shut) a = none
send (some (shut_holding b)) a = none
send none a = none

-- `close(ch)`: `none` when it would panic
unfoldable pub close {ℓ} : {A : Type ℓ} → Option (Chan A) → Option (Chan A)
close (some waiting) = some shut
close (some (holding a)) = some (shut_holding a)
close (some shut) = none
close (some (shut_holding a)) = none
close none = none

-- The map, every channel that was made for it, and their number.
pub record Waiters {ℓ κ} (K : Type ℓ) (A : Type κ) : Type (ℓ ⊔ κ) where
  pub pending : Dict K ℕ
  pub chans : Dict ℕ (Chan A)
  pub made : ℕ

unfoldable pub no_waiters {ℓ κ} : {K : Type ℓ} {A : Type κ} → Waiters K A
no_waiters = record { pending = empty; chans = empty; made = 0 }

abbrev pub close_next {κ} :
    {A : Type κ}
    → (Dict ℕ (Chan A) → Option (Dict ℕ (Chan A)))
    → Dict ℕ (Chan A)
    → ℕ
    → Option (Chan A)
    → Option (Dict ℕ (Chan A))
close_next next cs ch none = none
close_next next cs ch (some c) = next (put cs ch c)

module _ {ℓ κ} {K : Type ℓ} {A : Type κ} ⦃e : Eq K⦄ where
  -- `m[k] = make(chan T, 1)`
  unfoldable pub register : Waiters K A → K → Waiters K A
  register w k = record {
    pending = put w.pending k w.made;
    chans = put w.chans w.made waiting;
    made = suc w.made;
  }

  -- `delete(m, k)`
  unfoldable pub withdraw : Waiters K A → K → Waiters K A
  withdraw w k = record w { pending = remove w.pending k }

  abbrev pub put_chan : Waiters K A → ℕ → Option (Chan A) → Option (Waiters K A)
  put_chan w ch none = none
  put_chan w ch (some c) = some (record w { chans = put w.chans ch c })

  abbrev pub send_to : Waiters K A → Option ℕ → A → Option (Waiters K A)
  send_to w none a = some w
  send_to w (some ch) a = put_chan w ch (send (get w.chans ch) a)

  -- `ch, ok := m[k]; delete(m, k); if ok { ch <- a }`
  unfoldable pub deliver : Waiters K A → K → A → Option (Waiters K A)
  deliver w k a = send_to (withdraw w k) (get w.pending k) a

  unfoldable pub close_all : List (K × ℕ) → Dict ℕ (Chan A) → Option (Dict ℕ (Chan A))
  close_all [] cs = some cs
  close_all ((k, ch) ∷ es) cs = close_next (close_all es) cs ch (close (get cs ch))

  abbrev pub emptied : Waiters K A → Option (Dict ℕ (Chan A)) → Option (Waiters K A)
  emptied w none = none
  emptied w (some cs) = some (record w { pending = empty; chans = cs })

  -- `for k, ch := range m { close(ch); delete(m, k) }`
  unfoldable pub fail_all : Waiters K A → Option (Waiters K A)
  fail_all w = emptied w (close_all w.pending.entries w.chans)
