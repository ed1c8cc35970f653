-- ===== src/Relay/Ticket.antt =====
-- ExtractBearerTicket (internal/codexexecgateway/relay/relay.go), on a header's code points.
use cli_server.Common.Text.{Text, codes, cut, has_prefix, has_prefix-split, text_eq, trim_prefix}
use cli_server.Common.{
  Bool-cases, Option, arith, false, if◌then◌else◌, inl, inr, is_nil, nat_eq, none, some, string_eq,
  ◌++◌, ◌↔◌, ◌≡◌,
}

abbrev pub bearer : Text
bearer = codes "Bearer "

unfoldable pub extract_bearer_ticket : Text → Option Text
extract_bearer_ticket authz =
    if has_prefix authz bearer
    then (let tok = trim_prefix authz bearer in if is_nil tok then none else some tok)
    else none

-- A ticket is extracted exactly from a header that is "Bearer " with a nonempty ticket behind it.
pub extract_bearer_ticket_iff :
    (authz tok : Text)
    → (extract_bearer_ticket authz ≡ some tok) ↔ ((authz ≡ bearer ++ tok) × (is_nil tok ≡ false))
unfolding extract_bearer_ticket trim_prefix has_prefix cut
extract_bearer_ticket_iff authz tok = (
  λ h. elim (Bool-cases (has_prefix authz bearer)) [
    | inl t ↦ ground (arith, t, has_prefix-split authz bearer t)
    | inr f ↦ absurd (ground (arith, f))
  ],
  λ h. rw h.0 (ground (arith, h.1)),
)
