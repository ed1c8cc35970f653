-- ===== src/Auth/Device/Left.antt =====
-- What holds of the device codes that a handler of the flow leaves (internal/codexauth/device.go).
use cli_server.Common.{
  ℕ, ◌≡◌, refl, inl, inr, String, Bool, true, false, not, ◌||◌, Option, none, some, List, ◌∷◌,
  Result, ok, err, if◌then◌else◌, ◌==◌, string_eq, Bool-cases, Post, Post-if,
}
use cli_server.Auth.Device.{
  DeviceCode, StoreError, is_pending, is_approved, has_key, insert_device_code,
  get_device_code_by_user_code, approve_rows, rows_affected, approve_device_code, deny_device_code,
  exchange_rows, returned, exchange_device_code, PkceRequest, pkce_of, not_pending,
  insert_pkce_request, Tables, Draw, handle_device_user_code, granted, finish_exchange,
  token_of_row, handle_device_token, submitted, handle_device_verify_submit,
}

-- What holds of the devices after a call: it holds of one of the tables that a statement leaves.
either_devices :
    {A : Type 0} (P : List DeviceCode → Type 0) (b : Bool) (x y : Tables × A)
    → P x.0.devices
    → P y.0.devices
    → P (if b then x else y).0.devices
either_devices P true x y hx hy = hx
either_devices P false x y hx hy = hy

module _ (P : List DeviceCode → Type 0) (now : ℕ) (db : Tables) where
  granted-devices :
      (cs : List DeviceCode) (c : DeviceCode) (r : Result StoreError (List PkceRequest))
      → P cs
      → P (granted (record db { devices = cs }) c r).0.devices
  granted-devices cs c (ok ps) k = k
  granted-devices cs c (err e) k = k

  pub finish-devices :
      (cs : List DeviceCode) (o : Option DeviceCode)
      → P cs
      → P (finish_exchange now (record db { devices = cs }) o).0.devices
  unfolding finish_exchange
  finish-devices cs none k = k
  finish-devices cs (some c) k =
      granted-devices cs c (insert_pkce_request (pkce_of now c) db.requests) k

  row-devices :
      (d u : String) (o : Option DeviceCode)
      → P db.devices
      → P (exchange_rows now d u db.devices)
      → P (token_of_row now d u db o).0.devices
  unfolding token_of_row exchange_device_code
  row-devices d u none h k = h
  row-devices d u (some c) h k = elim (Bool-cases (not (c.device_auth_id == d))) [
    | inl e ↦ rw e h
    | inr e ↦ elim (Bool-cases (is_pending c.state)) [
      | inl f ↦ rw (e, f) h
      | inr f ↦ elim (Bool-cases (not (is_approved c.state))) [
        | inl g ↦ rw (e, f, g) h
        | inr g ↦
            rw (e, f, g)
              (finish-devices (exchange_rows now d u db.devices) (returned now d u db.devices) k)
      ]
    ]
  ]

  pub token-devices :
      (d u : String)
      → P db.devices
      → P (exchange_rows now d u db.devices)
      → P (handle_device_token now d u db).0.devices
  unfolding handle_device_token
  token-devices d u h k = elim (Bool-cases (d == "" || u == "")) [
    | inl e ↦ rw e h
    | inr e ↦ rw e (row-devices d u (get_device_code_by_user_code now u db.devices) h k)
  ]

  submitted-devices :
      (r : Result StoreError (List DeviceCode))
      → P db.devices
      → Post P (λ e. Unit {0}) r
      → P (submitted db r).0.devices
  submitted-devices (ok cs) h k = k
  submitted-devices (err e) h k = h

  pub verify-devices :
      (user u action : String)
      → P db.devices
      → P (approve_rows now u user db.devices)
      → P (deny_device_code u db.devices)
      → P (handle_device_verify_submit now user u action db).0.devices
  unfolding handle_device_verify_submit approve_device_code
  verify-devices user u action h k l = elim (Bool-cases (user == "")) [
    | inl e ↦ rw e h
    | inr e ↦ elim (Bool-cases (action == "approve")) [
      | inl f ↦
          rw (e, f)
            (submitted-devices
              (if rows_affected now u db.devices
                then ok (approve_rows now u user db.devices)
                else err not_pending)
              h
              (Post-if P (λ e. Unit {0}) (rows_affected now u db.devices)
                (ok (approve_rows now u user db.devices)) (err not_pending) (λ _. k) (λ _. tt)))
      | inr f ↦ elim (Bool-cases (action == "deny")) [
        | inl g ↦ rw (e, f, g) l
        | inr g ↦ rw (e, f, g) h
      ]
    ]
  ]

  pub user_code-devices :
      (r : Draw)
      → P db.devices
      → ((c : DeviceCode)
          → c.device_auth_id ≡ r.device_auth_id
          → has_key r.device_auth_id r.user_code db.devices ≡ false
          → P (c ∷ db.devices))
      → P (handle_device_user_code now r db).0.devices
  unfolding handle_device_user_code insert_device_code
  user_code-devices r h k = elim (Bool-cases (has_key r.device_auth_id r.user_code db.devices)) [
    | inl taken ↦ rw taken h
    | inr free ↦ rw free (k _ refl free)
  ]
