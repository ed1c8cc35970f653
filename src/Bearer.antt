-- ===== src/Bearer.antt =====
-- The two signed bearers of the exec gateway: the ticket of an executor's websocket
-- (internal/codexexecgateway/handlers/ws_ticket.go) and the capability token of a bridge
-- (internal/codexexecgateway/auth.go, internal/codexappgateway/captoken.go,
-- internal/codexexecgateway/sdk/captoken.go). Here: what they take from the standard library, as a
-- record, with the documented laws of it that they rely on.
pub mod Ticket
pub mod Capability
pub mod RoundTrip
pub mod Genuine
pub mod Admission
use cli_server.Common.{ℕ, ◌≡◌, ◌<◌, Bool, false, Option, some, is_nil, ltb, leb, true, ◌^◌}
use cli_server.Common.Text.{Text, has_code}
use cli_server.Common.Int.{ℤ, pos, negsuc}

-- hmac.New(sha256.New, key) over a message, base64.RawURLEncoding, and strconv's decimal integers.
pub record Codec : Type 0 where
  pub hmac : Text → Text → Text
  pub encode : Text → Text
  pub decode : Text → Option Text
  pub format_int : ℕ → Text
  pub parse_int : Text → Option ℤ

abbrev pub dot : ℕ
dot = b'.'

-- What those functions are documented to do: base64 decodes what it encoded, its alphabet has no
-- dot and it encodes no byte as the empty text only, a digest has 32 bytes, and the decimal form of
-- an int64 is read back and has no dot.
pub record CodecLaws (C : Codec) : Type 0 where
  pub decode_encode : (bytes : Text) → C.decode (C.encode bytes) ≡ some bytes
  pub encode_dot : (bytes : Text) → has_code dot (C.encode bytes) ≡ false
  pub encode_nil : (bytes : Text) → is_nil (C.encode bytes) ≡ is_nil bytes
  pub hmac_nil : (key message : Text) → is_nil (C.hmac key message) ≡ false
  pub parse_format : (n : ℕ) → n < 2 ^ 63 → C.parse_int (C.format_int n) ≡ some (pos n)
  pub format_dot : (n : ℕ) → has_code dot (C.format_int n) ≡ false

-- now >= e and now > e, for the clock's Unix seconds
abbrev pub reached : ℤ → ℕ → Bool
reached (pos e) now = leb e now
reached (negsuc e) now = true

abbrev pub passed : ℤ → ℕ → Bool
passed (pos e) now = ltb e now
passed (negsuc e) now = true
