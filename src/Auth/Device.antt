-- ===== src/Auth/Device.antt =====
-- The device flow: the table codex_device_codes and PKCE requests (internal/codexauth/store.go), and the
-- handlers over them (internal/codexauth/device.go). A table is its list of rows, each statement is one
-- step, and NOW() is an argument in seconds. Random codes are arguments. A lost connection is not
-- modelled. A 200 carries what the client is given; an error carries its HTTP status.
pub mod Once
pub mod Left
pub mod Grants
use cli_server.Common.{
  ℕ, ◌+◌, String, Bool, true, false, not, ◌&&◌, ◌||◌, Option, none, some, List, [], ◌∷◌, Result, ok,
  err, if◌then◌else◌, ltb, ◌==◌, string_eq, nat_eq,
}

pub data Status : Type 0 where
  pending : Status
  approved : Status
  exchanged : Status
  denied : Status

pub record DeviceCode : Type 0 where
  pub device_auth_id : String
  pub user_code : String
  pub code_challenge : String
  pub code_verifier : String
  pub authorization_code : String
  pub state : Status
  pub user_id : String
  pub expires_at : ℕ
  pub approved_at : Option ℕ

abbrev pub is_pending : Status → Bool
is_pending pending = true
is_pending approved = false
is_pending exchanged = false
is_pending denied = false

abbrev pub is_approved : Status → Bool
is_approved pending = false
is_approved approved = true
is_approved exchanged = false
is_approved denied = false

pub data StoreError : Type 0 where
  duplicate_key : StoreError
  not_pending : StoreError

-- Both unique columns of the table: the primary key, and user_code.
unfoldable pub has_key : String → String → List DeviceCode → Bool
has_key d u [] = false
has_key d u (c ∷ cs) = c.device_auth_id == d || c.user_code == u || has_key d u cs

unfoldable pub insert_device_code :
    DeviceCode → List DeviceCode → Result StoreError (List DeviceCode)
unfolding has_key
insert_device_code c cs =
    if has_key c.device_auth_id c.user_code cs
    then err duplicate_key
    else ok (record c { user_id = ""; approved_at = none } ∷ cs)

unfoldable pub get_device_code_by_user_code : ℕ → String → List DeviceCode → Option DeviceCode
get_device_code_by_user_code now u [] = none
get_device_code_by_user_code now u (c ∷ cs) =
    if c.user_code == u && ltb now c.expires_at
    then some c
    else get_device_code_by_user_code now u cs

-- WHERE of the UPDATE of ApproveDeviceCode
abbrev pub is_approvable : ℕ → String → DeviceCode → Bool
is_approvable now u c = c.user_code == u && is_pending c.state && ltb now c.expires_at

unfoldable pub approve_rows : ℕ → String → String → List DeviceCode → List DeviceCode
approve_rows now u user [] = []
approve_rows now u user (c ∷ cs) =
    let rest = approve_rows now u user cs in
    if is_approvable now u c
    then record c { state = approved; user_id = user; approved_at = some now } ∷ rest
    else c ∷ rest

unfoldable pub rows_affected : ℕ → String → List DeviceCode → Bool
rows_affected now u [] = false
rows_affected now u (c ∷ cs) = is_approvable now u c || rows_affected now u cs

unfoldable pub approve_device_code :
    ℕ → String → String → List DeviceCode → Result StoreError (List DeviceCode)
unfolding approve_rows rows_affected
approve_device_code now u user cs =
    if rows_affected now u cs then ok (approve_rows now u user cs) else err not_pending

-- The UPDATE of the `deny` action
unfoldable pub deny_device_code : String → List DeviceCode → List DeviceCode
deny_device_code u [] = []
deny_device_code u (c ∷ cs) =
    let rest = deny_device_code u cs in
    if c.user_code == u && is_pending c.state then record c { state = denied } ∷ rest else c ∷ rest

-- WHERE of the UPDATE of ExchangeDeviceCode
abbrev pub is_exchangeable : ℕ → String → String → DeviceCode → Bool
is_exchangeable now d u c =
    c.device_auth_id == d && c.user_code == u && is_approved c.state && ltb now c.expires_at

unfoldable pub exchange_rows : ℕ → String → String → List DeviceCode → List DeviceCode
exchange_rows now d u [] = []
exchange_rows now d u (c ∷ cs) =
    let rest = exchange_rows now d u cs in
    if is_exchangeable now d u c then record c { state = exchanged } ∷ rest else c ∷ rest

unfoldable pub returned : ℕ → String → String → List DeviceCode → Option DeviceCode
returned now d u [] = none
returned now d u (c ∷ cs) =
    if is_exchangeable now d u c then some (record c { state = exchanged }) else returned now d u cs

unfoldable pub exchange_device_code :
    ℕ → String → String → List DeviceCode → List DeviceCode × Option DeviceCode
unfolding exchange_rows returned
exchange_device_code now d u cs = (exchange_rows now d u cs, returned now d u cs)

pub record PkceRequest : Type 0 where
  pub code : String
  pub code_challenge : String
  pub state : String
  pub user_id : String
  pub expires_at : ℕ

unfoldable pub has_code : String → List PkceRequest → Bool
has_code k [] = false
has_code k (p ∷ ps) = p.code == k || has_code k ps

unfoldable pub insert_pkce_request :
    PkceRequest → List PkceRequest → Result StoreError (List PkceRequest)
unfolding has_code
insert_pkce_request p ps = if has_code p.code ps then err duplicate_key else ok (p ∷ ps)

-- ConsumePkceRequest: DELETE ... RETURNING of an unexpired code
unfoldable pub consume_pkce_request :
    ℕ → String → List PkceRequest → List PkceRequest × Option PkceRequest
consume_pkce_request now k [] = ([], none)
consume_pkce_request now k (p ∷ ps) =
    let (rest, found) = consume_pkce_request now k ps in
    if p.code == k && ltb now p.expires_at then (rest, some p) else (p ∷ rest, found)

-- What the handlers share of the database.
pub record Tables : Type 0 where
  pub devices : List DeviceCode
  pub requests : List PkceRequest

-- The body of a reply to handleDeviceToken.
pub record Grant : Type 0 where
  pub authorization_code : String
  pub code_challenge : String
  pub code_verifier : String

abbrev pub device_code_ttl : ℕ
device_code_ttl = 900

abbrev pub pkce_code_ttl : ℕ
pkce_code_ttl = 600

-- The codes that handleDeviceUserCode draws.
pub record Draw : Type 0 where
  pub device_auth_id : String
  pub user_code : String
  pub verifier : String
  pub challenge : String
  pub authorization_code : String

-- A statement's result, with the 500 of a refused one.
abbrev pub replied : Tables → Result StoreError Tables → Tables × ℕ
replied db (ok db') = (db', 200)
replied db (err e) = (db, 500)

abbrev pub with_devices : Tables → Result StoreError (List DeviceCode) → Result StoreError Tables
with_devices db (ok cs) = ok (record db { devices = cs })
with_devices db (err e) = err e

unfoldable pub handle_device_user_code : ℕ → Draw → Tables → Tables × ℕ
unfolding insert_device_code
handle_device_user_code now r db =
    let c : DeviceCode = record {
      device_auth_id = r.device_auth_id;
      user_code = r.user_code;
      code_challenge = r.challenge;
      code_verifier = r.verifier;
      authorization_code = r.authorization_code;
      state = pending;
      user_id = "";
      expires_at = now + device_code_ttl;
      approved_at = none;
    } in
    replied db (with_devices db (insert_device_code c db.devices))

-- The end of handleDeviceToken: the row is exchanged, and a PKCE request is left for /oauth/token.
abbrev pub granted :
    Tables → DeviceCode → Result StoreError (List PkceRequest) → Tables × Result ℕ Grant
granted db c (ok ps) = (
  record db { requests = ps },
  ok (record {
    authorization_code = c.authorization_code;
    code_challenge = c.code_challenge;
    code_verifier = c.code_verifier;
  }),
)
granted db c (err e) = (db, err 500)

abbrev pub pkce_of : ℕ → DeviceCode → PkceRequest
pkce_of now c = record {
  code = c.authorization_code;
  code_challenge = c.code_challenge;
  state = "device-flow";
  user_id = c.user_id;
  expires_at = now + pkce_code_ttl;
}

unfoldable pub finish_exchange : ℕ → Tables → Option DeviceCode → Tables × Result ℕ Grant
unfolding insert_pkce_request
finish_exchange now db none = (db, err 404)
finish_exchange now db (some c) = granted db c (insert_pkce_request (pkce_of now c) db.requests)

unfoldable pub token_of_row :
    ℕ → String → String → Tables → Option DeviceCode → Tables × Result ℕ Grant
unfolding finish_exchange exchange_device_code
token_of_row now d u db none = (db, err 404)
token_of_row now d u db (some c) =
    if not (c.device_auth_id == d)
    then (db, err 404)
    else if is_pending c.state
    then (db, err 403)
    else if not (is_approved c.state)
    then (db, err 404)
    else let (cs, found) = exchange_device_code now d u db.devices in
      finish_exchange now (record db { devices = cs }) found

unfoldable pub handle_device_token : ℕ → String → String → Tables → Tables × Result ℕ Grant
unfolding token_of_row get_device_code_by_user_code
handle_device_token now d u db =
    if d == "" || u == ""
    then (db, err 400)
    else token_of_row now d u db (get_device_code_by_user_code now u db.devices)

abbrev pub submitted : Tables → Result StoreError (List DeviceCode) → Tables × ℕ
submitted db (ok cs) = (record db { devices = cs }, 200)
submitted db (err e) = (db, 400)

-- handleDeviceVerifySubmit of a session's user ("" without a session), the trimmed and upper-cased
-- code, and the chosen action
unfoldable pub handle_device_verify_submit : ℕ → String → String → String → Tables → Tables × ℕ
unfolding approve_device_code deny_device_code
handle_device_verify_submit now user u action db =
    if user == ""
    then (db, 401)
    else if action == "approve"
    then submitted db (approve_device_code now u user db.devices)
    else if action == "deny"
    then (record db { devices = deny_device_code u db.devices }, 200)
    else (db, 400)
