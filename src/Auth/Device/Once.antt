-- ===== src/Auth/Device/Once.antt =====
-- An authorization code of the device flow is given out at most once.
use cli_server.Common.{
  ℕ, ◌+◌, ◌≤◌, ◌≡◌, refl, String, Bool, true, false, not, ◌&&◌, ◌||◌, none, some, List, [], ◌∷◌,
  if◌then◌else◌, ◌==◌, ==_iff, string_eq, arith,
}
use cli_server.Auth.Device.{
  Status, pending, approved, exchanged, denied, DeviceCode, is_pending, is_approved, has_key,
  get_device_code_by_user_code, approve_rows, deny_device_code, exchange_rows, returned, Tables,
}

abbrev pub is_exchanged : Status → Bool
is_exchanged pending = false
is_exchanged approved = false
is_exchanged exchanged = true
is_exchanged denied = false

-- No row of a device is left that could still be exchanged, and one row of it is there.
unfoldable pub spent : String → List DeviceCode → Bool
spent d [] = true
spent d (c ∷ cs) = (not (c.device_auth_id == d) || is_exchanged c.state) && spent d cs

unfoldable pub known : String → List DeviceCode → Bool
known d [] = false
known d (c ∷ cs) = c.device_auth_id == d || known d cs

pending_not_exchanged : (s : Status) → is_pending s ≡ true → is_exchanged s ≡ false
pending_not_exchanged pending h = refl
pending_not_exchanged approved h = cc
pending_not_exchanged exchanged h = cc
pending_not_exchanged denied h = cc

approved_not_exchanged : (s : Status) → is_approved s ≡ true → is_exchanged s ≡ false
approved_not_exchanged pending h = cc
approved_not_exchanged approved h = refl
approved_not_exchanged exchanged h = cc
approved_not_exchanged denied h = cc

pub spent-approve :
    (now : ℕ) (u user d : String) (cs : List DeviceCode)
    → spent d cs ≡ true
    → spent d (approve_rows now u user cs) ≡ true
unfolding spent approve_rows
spent-approve now u user d [] h = refl
spent-approve now u user d (c ∷ cs) h =
    ground (arith, spent-approve now u user d cs, pending_not_exchanged c.state)

pub known-approve :
    (now : ℕ) (u user d : String) (cs : List DeviceCode)
    → known d (approve_rows now u user cs) ≡ known d cs
unfolding known approve_rows
known-approve now u user d [] = refl
known-approve now u user d (c ∷ cs) = ground (arith, known-approve now u user d cs)

pub spent-deny :
    (u d : String) (cs : List DeviceCode)
    → spent d cs ≡ true
    → spent d (deny_device_code u cs) ≡ true
unfolding spent deny_device_code
spent-deny u d [] h = refl
spent-deny u d (c ∷ cs) h = ground (arith, spent-deny u d cs, pending_not_exchanged c.state)

pub known-deny :
    (u d : String) (cs : List DeviceCode) → known d (deny_device_code u cs) ≡ known d cs
unfolding known deny_device_code
known-deny u d [] = refl
known-deny u d (c ∷ cs) = ground (arith, known-deny u d cs)

pub spent-exchange :
    (now : ℕ) (e u d : String) (cs : List DeviceCode)
    → spent d cs ≡ true
    → spent d (exchange_rows now e u cs) ≡ true
unfolding spent exchange_rows
spent-exchange now e u d [] h = refl
spent-exchange now e u d (c ∷ cs) h = ground (arith, spent-exchange now e u d cs)

pub known-exchange :
    (now : ℕ) (e u d : String) (cs : List DeviceCode)
    → known d (exchange_rows now e u cs) ≡ known d cs
unfolding known exchange_rows
known-exchange now e u d [] = refl
known-exchange now e u d (c ∷ cs) = ground (arith, known-exchange now e u d cs)

-- A device that is spent: its identifier is taken, by an exchanged row.
pub record IsSpent (d : String) (db : Tables) : Type 0 where
  pub all_exchanged : spent d db.devices ≡ true
  pub taken : known d db.devices ≡ true

pub known-has_key :
    (d u : String) (cs : List DeviceCode) → known d cs ≡ true → has_key d u cs ≡ true
unfolding known has_key
known-has_key d u [] h = cc
known-has_key d u (c ∷ cs) h = ground (arith, known-has_key d u cs)

-- A row that is spent is not returned for its code as one to exchange.
pub spent-get :
    (now : ℕ) (d u : String) (cs : List DeviceCode) (c : DeviceCode)
    → spent d cs ≡ true
    → get_device_code_by_user_code now u cs ≡ some c
    → c.device_auth_id ≡ d
    → is_exchanged c.state ≡ true
unfolding spent get_device_code_by_user_code
spent-get now d u [] c h e k = cc
spent-get now d u (r ∷ cs) c h e k =
    ground (arith, spent-get now d u cs c, ==_iff r.device_auth_id d)

-- How many rows a device has.
unfoldable pub rows_of : String → List DeviceCode → ℕ
rows_of d [] = 0
rows_of d (c ∷ cs) = if c.device_auth_id == d then 1 + rows_of d cs else rows_of d cs

pub rows_of-approve :
    (now : ℕ) (u user d : String) (cs : List DeviceCode)
    → rows_of d (approve_rows now u user cs) ≡ rows_of d cs
unfolding rows_of approve_rows
rows_of-approve now u user d [] = refl
rows_of-approve now u user d (c ∷ cs) = ground (arith, rows_of-approve now u user d cs)

pub rows_of-deny :
    (u d : String) (cs : List DeviceCode) → rows_of d (deny_device_code u cs) ≡ rows_of d cs
unfolding rows_of deny_device_code
rows_of-deny u d [] = refl
rows_of-deny u d (c ∷ cs) = ground (arith, rows_of-deny u d cs)

pub rows_of-exchange :
    (now : ℕ) (e u d : String) (cs : List DeviceCode)
    → rows_of d (exchange_rows now e u cs) ≡ rows_of d cs
unfolding rows_of exchange_rows
rows_of-exchange now e u d [] = refl
rows_of-exchange now e u d (c ∷ cs) = ground (arith, rows_of-exchange now e u d cs)

pub rows_of-fresh :
    (d u : String) (cs : List DeviceCode) → has_key d u cs ≡ false → rows_of d cs ≡ 0
unfolding rows_of has_key
rows_of-fresh d u [] h = refl
rows_of-fresh d u (c ∷ cs) h = ground (arith, rows_of-fresh d u cs)

pub spent-none : (d : String) (cs : List DeviceCode) → rows_of d cs ≡ 0 → spent d cs ≡ true
unfolding rows_of spent
spent-none d [] h = refl
spent-none d (c ∷ cs) h = ground (arith, spent-none d cs)

returned-none :
    (now : ℕ) (d u : String) (cs : List DeviceCode) → rows_of d cs ≡ 0 → returned now d u cs ≡ none
unfolding rows_of returned
returned-none now d u [] h = refl
returned-none now d u (c ∷ cs) h = ground (arith, returned-none now d u cs)

-- An exchange that returns a row leaves its device spent, where a device has one row.
pub spent-returned :
    (now : ℕ) (d u : String) (cs : List DeviceCode) (c : DeviceCode)
    → rows_of d cs ≤ 1
    → returned now d u cs ≡ some c
    → (spent d (exchange_rows now d u cs) ≡ true) × (known d (exchange_rows now d u cs) ≡ true)
unfolding rows_of returned spent exchange_rows known
spent-returned now d u [] c h e = cc
spent-returned now d u (r ∷ cs) c h e = ground (
  arith,
  spent-returned now d u cs c,
  returned-none now d u cs,
  spent-none d (exchange_rows now d u cs),
  rows_of-exchange now d u d cs,
)
