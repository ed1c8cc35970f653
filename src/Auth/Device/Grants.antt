-- ===== src/Auth/Device/Grants.antt =====
-- Sequences of the device flow's calls, and what they give out.
use cli_server.Common.{
  ℕ, ◌≤◌, ◌≡◌, refl, ◌∙◌, ◌⊎◌, inl, inr, String, true, false, not, ◌||◌, Option, none, some, List,
  [], ◌∷◌, Result, ok, err, ◌==◌, ==_iff, string_eq, arith, Bool-cases,
}
use cli_server.Auth.Device.{
  Status, pending, approved, exchanged, denied, DeviceCode, is_pending, is_approved,
  get_device_code_by_user_code, exchange_rows, returned, exchange_device_code, consume_pkce_request,
  Tables, Grant, Draw, handle_device_user_code, finish_exchange, token_of_row, handle_device_token,
  handle_device_verify_submit,
}
use cli_server.Auth.Device.Once.{
  is_exchanged, spent, known, spent-approve, spent-deny, spent-exchange, known-approve, known-deny,
  known-exchange, known-has_key, spent-get, rows_of, rows_of-approve, rows_of-deny,
  rows_of-exchange, rows_of-fresh, spent-returned,
}
use cli_server.Auth.Device.Left.{finish-devices, token-devices, verify-devices, user_code-devices}

-- The calls that change the tables: the handlers of the flow, and /oauth/token's use of a code.
pub data Call : Type 0 where
  user_code : Draw → Call
  token : String → String → Call
  verify : String → String → String → Call
  consume : String → Call

unfoldable pub step : ℕ → Call → Tables → Tables
unfolding handle_device_user_code handle_device_token handle_device_verify_submit
    consume_pkce_request
step now (user_code r) db = (handle_device_user_code now r db).0
step now (token d u) db = (handle_device_token now d u db).0
step now (verify user u action) db = (handle_device_verify_submit now user u action db).0
step now (consume k) db = record db { requests = (consume_pkce_request now k db.requests).0 }

unfoldable pub run : List (ℕ × Call) → Tables → Tables
run [] db = db
run ((now, c) ∷ cs) db = run cs (step now c db)

abbrev pub no_tables : Tables
no_tables = record { devices = []; requests = [] }

-- Every table that calls lead to from empty ones has at most one row for a device.
abbrev IsKeyed : Tables → Type 0
IsKeyed db = (d : String) → rows_of d db.devices ≤ 1

step-IsKeyed : (now : ℕ) (c : Call) (db : Tables) → IsKeyed db → IsKeyed (step now c db)
unfolding step rows_of
step-IsKeyed now (user_code r) db v d =
    user_code-devices (λ cs. rows_of d cs ≤ 1) now db r (v d)
      (λ c same free. ground (
        arith,
        v d,
        same,
        ==_iff c.device_auth_id d,
        rows_of-fresh r.device_auth_id r.user_code db.devices free,
      ))
step-IsKeyed now (token e u) db v d =
    token-devices (λ cs. rows_of d cs ≤ 1) now db e u (v d)
      (omega (arith, v d, rows_of-exchange now e u d db.devices))
step-IsKeyed now (verify user u action) db v d =
    verify-devices (λ cs. rows_of d cs ≤ 1) now db user u action (v d)
      (omega (arith, v d, rows_of-approve now u user d db.devices))
      (omega (arith, v d, rows_of-deny u d db.devices))
step-IsKeyed now (consume k) db v d = v d

run-IsKeyed : (cs : List (ℕ × Call)) (db : Tables) → IsKeyed db → IsKeyed (run cs db)
unfolding run
run-IsKeyed [] db v = v
run-IsKeyed ((now, c) ∷ cs) db v = run-IsKeyed cs (step now c db) (step-IsKeyed now c db v)

abbrev Spent : String → List DeviceCode → Type 0
Spent d cs = (spent d cs ≡ true) × (known d cs ≡ true)

step-Spent :
    (now : ℕ) (c : Call) (db : Tables) (d : String)
    → Spent d db.devices
    → Spent d (step now c db).devices
unfolding step spent known
step-Spent now (user_code r) db d v = user_code-devices (Spent d) now db r v (λ c same free.
    ground (
      arith,
      v.0,
      v.1,
      same,
      ==_iff c.device_auth_id d,
      known-has_key d r.user_code db.devices,
      free,
    ))
step-Spent now (token e u) db d v =
    token-devices (Spent d) now db e u v
      (spent-exchange now e u d db.devices v.0, known-exchange now e u d db.devices ∙ v.1)
step-Spent now (verify user u action) db d v =
    verify-devices (Spent d) now db user u action v
      (spent-approve now u user d db.devices v.0, known-approve now u user d db.devices ∙ v.1)
      (spent-deny u d db.devices v.0, known-deny u d db.devices ∙ v.1)
step-Spent now (consume k) db d v = v

run-Spent :
    (cs : List (ℕ × Call)) (db : Tables) (d : String)
    → Spent d db.devices
    → Spent d (run cs db).devices
unfolding run
run-Spent [] db d v = v
run-Spent ((now, c) ∷ cs) db d v = run-Spent cs (step now c db) d (step-Spent now c db d v)

-- The status of a reply to handleDeviceToken.
abbrev pub status_of : {A : Type 0} → Result ℕ A → ℕ
status_of (ok a) = 200
status_of (err e) = e

exchanged_not_pending :
    (s : Status) → is_exchanged s ≡ true → (is_pending s ≡ false) × (is_approved s ≡ false)
exchanged_not_pending pending h = cc
exchanged_not_pending approved h = cc
exchanged_not_pending exchanged h = (refl, refl)
exchanged_not_pending denied h = cc

row-refuses :
    (now : ℕ) (d u : String) (db : Tables) (o : Option DeviceCode)
    → get_device_code_by_user_code now u db.devices ≡ o
    → Spent d db.devices
    → (token_of_row now d u db o).1 ≡ err 404
unfolding token_of_row
row-refuses now d u db none e v = refl
row-refuses now d u db (some c) e v = elim (Bool-cases (c.device_auth_id == d)) [
  | inl same ↦
      let gone =
        exchanged_not_pending c.state
          (spent-get now d u db.devices c v.0 e ((==_iff c.device_auth_id d).0 same)) in
      rw (same, gone.0, gone.1) refl
  | inr other ↦ rw other refl
]

finish-ok :
    (now : ℕ) (db : Tables) (cs : List DeviceCode) (o : Option DeviceCode) (g : Grant)
    → (finish_exchange now (record db { devices = cs }) o).1 ≡ ok g
    → (c : DeviceCode) × (o ≡ some c)
unfolding finish_exchange
finish-ok now db cs none g e = cc
finish-ok now db cs (some c) g e = (c, refl)

no_tables-IsKeyed : IsKeyed no_tables
unfolding rows_of
no_tables-IsKeyed d = omega arith

abbrev IsSpending : String → Tables × Result ℕ Grant → Type 0
IsSpending d x = (g : Grant) → x.1 ≡ ok g → Spent d x.0.devices

refused : (d : String) (db : Tables) (n : ℕ) → IsSpending d (db, err n)
refused d db n g e = cc

exchange-IsSpending :
    (now : ℕ) (d u : String) (db : Tables)
    → IsKeyed db
    → IsSpending d (
        finish_exchange now
          (record db { devices = exchange_rows now d u db.devices })
          (returned now d u db.devices))
exchange-IsSpending now d u db v g e =
    let (c, f) =
      finish-ok now db (exchange_rows now d u db.devices) (returned now d u db.devices) g e in
    finish-devices (Spent d) now db (exchange_rows now d u db.devices) (returned now d u db.devices)
      (spent-returned now d u db.devices c (v d) f)

row-IsSpending :
    (now : ℕ) (d u : String) (db : Tables) (o : Option DeviceCode)
    → IsKeyed db
    → IsSpending d (token_of_row now d u db o)
unfolding token_of_row exchange_device_code
row-IsSpending now d u db none v = refused d db 404
row-IsSpending now d u db (some c) v = elim (Bool-cases (not (c.device_auth_id == d))) [
  | inl e ↦ rw e (refused d db 404)
  | inr e ↦ elim (Bool-cases (is_pending c.state)) [
    | inl f ↦ rw (e, f) (refused d db 403)
    | inr f ↦ elim (Bool-cases (not (is_approved c.state))) [
      | inl g ↦ rw (e, f, g) (refused d db 404)
      | inr g ↦ rw (e, f, g) (exchange-IsSpending now d u db v)
    ]
  ]
]

token-IsSpending :
    (now : ℕ) (d u : String) (db : Tables)
    → IsKeyed db
    → IsSpending d (handle_device_token now d u db)
unfolding handle_device_token
token-IsSpending now d u db v = elim (Bool-cases (d == "" || u == "")) [
  | inl e ↦ rw e (refused d db 400)
  | inr e ↦ rw e (row-IsSpending now d u db (get_device_code_by_user_code now u db.devices) v)
]

token-refuses :
    (now : ℕ) (d u : String) (db : Tables)
    → Spent d db.devices
    → ((handle_device_token now d u db).1 ≡ err 404)
      ⊎ ((handle_device_token now d u db).1 ≡ err 400)
unfolding handle_device_token
token-refuses now d u db v = elim (Bool-cases (d == "" || u == "")) [
  | inl e ↦ inr (rw e refl)
  | inr e ↦
      inl (rw e (row-refuses now d u db (get_device_code_by_user_code now u db.devices) refl v))
]

-- After handleDeviceToken has given out the authorization code of a device, in any state that calls lead
-- to, and after any further calls at any times, it refuses every poll for that device with 404 or 400:
-- one approval yields one code.
pub handle_device_token-once :
    (before after : List (ℕ × Call)) (now later : ℕ) (d u u' : String) (g : Grant)
    → (handle_device_token now d u (run before no_tables)).1 ≡ ok g
    → ((handle_device_token later d u'
          (run after (handle_device_token now d u (run before no_tables)).0)).1
        ≡ err 404)
      ⊎ ((handle_device_token later d u'
            (run after (handle_device_token now d u (run before no_tables)).0)).1
          ≡ err 400)
handle_device_token-once before after now later d u u' g e =
    let db = run before no_tables in
    let keyed = run-IsKeyed before no_tables no_tables-IsKeyed in
    token-refuses later d u' (run after (handle_device_token now d u db).0)
      (run-Spent after (handle_device_token now d u db).0 d (token-IsSpending now d u db keyed g e))
