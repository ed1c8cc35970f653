-- ===== src/Bearer/Ticket.antt =====
-- MintWSTicket and VerifyWSTicket (internal/codexexecgateway/handlers/ws_ticket.go).
use cli_server.Common.{
  ℕ, ◌+◌, Option, some, none, List, [], ◌∷◌, ◌++◌, not, if◌then◌else◌, is_nil, Result, ok, err,
  ◌==◌,
}
use cli_server.Common.Text.{Text, text_eq, split_on}
use cli_server.Common.Int.{ℤ}
use cli_server.Bearer.{Codec, dot, reached}

pub data TicketError : Type 0 where
  secret_not_configured : TicketError
  malformed_ticket : TicketError
  exe_id_mismatch : TicketError
  bad_expiry : TicketError
  ticket_expired : TicketError
  bad_signature_encoding : TicketError
  bad_signature : TicketError

-- wsTicketTTL in seconds
abbrev pub ws_ticket_ttl : ℕ
ws_ticket_ttl = 300

-- <exe_id>.<expiry>
abbrev pub ticket_payload : Text → Text → Text
ticket_payload exe_id expiry = exe_id ++ dot ∷ expiry

unfoldable pub mint_ws_ticket : Codec → ℕ → Text → Text → Result TicketError Text
mint_ws_ticket C now exe_id secret =
    if is_nil secret
    then err secret_not_configured
    else let payload = ticket_payload exe_id (C.format_int (now + ws_ticket_ttl)) in
      ok (payload ++ dot ∷ C.encode (C.hmac secret payload))

abbrev pub check_signature : Text → Option Text → Result TicketError (Unit {0})
check_signature want none = err bad_signature_encoding
check_signature want (some got) = if not (want == got) then err bad_signature else ok tt

abbrev pub check_expiry :
    ℕ → Option ℤ → Result TicketError (Unit {0}) → Result TicketError (Unit {0})
check_expiry now none next = err bad_expiry
check_expiry now (some e) next = if reached e now then err ticket_expired else next

-- the checks on the parts of a ticket that was split at its dots
abbrev pub check_parts : Codec → ℕ → Text → Text → List Text → Result TicketError (Unit {0})
check_parts C now expected secret (exe_id ∷ expiry ∷ sig ∷ []) =
    if not (exe_id == expected)
    then err exe_id_mismatch
    else check_expiry now (C.parse_int expiry)
        (check_signature (C.hmac secret (ticket_payload exe_id expiry)) (C.decode sig))
check_parts C now expected secret _ = err malformed_ticket

unfoldable pub verify_ws_ticket : Codec → ℕ → Text → Text → Text → Result TicketError (Unit {0})
verify_ws_ticket C now ticket expected secret =
    if is_nil secret
    then err secret_not_configured
    else check_parts C now expected secret (split_on dot ticket)
