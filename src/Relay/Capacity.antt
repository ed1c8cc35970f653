-- ===== src/Relay/Capacity.antt =====
-- The registry's counts are exact, and no workspace passes its cap.
use cli_server.Common.{
  ℕ, ◌+◌, ◌-◌, ◌≤◌, ◌<◌, ◌≡◌, ap, inl, inr, String, Bool, false, none, some, if◌then◌else◌, leb, ok,
  err, ◌==◌, ==_iff, ==_self, string_eq, nat_eq, arith, Bool-cases, Option-cases, tests, ◌⊎◌,
}
use cli_server.Common.Int.{ℤ}
use cli_server.Common.Dict.Count.{
  IsDistinct, count, remove-IsDistinct, put-IsDistinct, count-put_new, count-remove,
}
use cli_server.Relay.{
  CreateOptions, Registry, Relay, cleanup, count_of, create, decrement, lookup, new_registry,
  or_zero, relay_of, workspace_cap_reached,
}
use cli_server.Common.Dict.{Dict, empty, get, get-empty, get-put, get-remove, put}

abbrev pub is_in : String → Relay → Bool
is_in ws relay = relay.workspace_id == ws

-- How many tickets of a workspace are live.
abbrev pub live : Registry → String → ℕ
live r ws = count (is_in ws) r.tickets

pub record IsExact (r : Registry) : Type 0 where
  pub distinct : IsDistinct r.tickets
  pub named :
      (ticket : String) (relay : Relay)
      → get r.tickets ticket ≡ some relay
      → (relay.workspace_id == "") ≡ false
  pub exact : (ws : String) → count_of r ws ≡ live r ws
  pub capped : (ws : String) → live r ws ≤ r.max_per_workspace

new_registry-IsExact :
    (max_per_workspace default_ttl : ℤ) → IsExact (new_registry max_per_workspace default_ttl)
unfolding new_registry empty
new_registry-IsExact m d = record {
  distinct = tt;
  named = λ ticket relay h. cc (get-empty {K = String} {V = Relay} ticket);
  exact = λ ws. ap or_zero (get-empty {K = String} {V = ℕ} ws);
  capped = λ ws. omega arith;
}

insert_relay-IsExact :
    (r : Registry) (opt : CreateOptions) (now : ℕ) (ticket : String)
    → get r.tickets ticket ≡ none
    → (opt.workspace_id == "") ≡ false
    → count_of r opt.workspace_id < r.max_per_workspace
    → IsExact r
    → IsExact (record r {
      tickets = put r.tickets ticket (relay_of opt r.default_ttl now ticket);
      workspace_count = put r.workspace_count opt.workspace_id (count_of r opt.workspace_id + 1);
    })
insert_relay-IsExact r opt now ticket fresh ws_named room v = record {
  distinct = put-IsDistinct r.tickets ticket relay v.distinct;
  named = λ t q. rw (get-put r.tickets ticket t relay) (λ h. ground (arith, v.named t q, h));
  exact = λ ws.
      rw
        (
          get-put r.workspace_count opt.workspace_id ws (count_of r opt.workspace_id + 1),
          count-put_new (is_in ws) r.tickets ticket relay fresh,
        )
        (ground (arith, v.exact ws, v.exact opt.workspace_id, ==_iff opt.workspace_id ws));
  capped = λ ws.
      rw (count-put_new (is_in ws) r.tickets ticket relay fresh)
        (ground (arith, v.capped ws, v.exact ws, ==_iff opt.workspace_id ws));
}
  where
    relay : Relay
    relay = relay_of opt r.default_ttl now ticket

create-inv :
    (r : Registry) (opt : CreateOptions) (now : ℕ) (ticket : String) {relay : Relay} {r' : Registry}
    → create r opt now (some ticket) ≡ ok (relay, r')
    → ((opt.workspace_id == "") ≡ false)
      × (count_of r opt.workspace_id < r.max_per_workspace)
      × (r' ≡ record r {
        tickets = put r.tickets ticket (relay_of opt r.default_ttl now ticket);
        workspace_count = put r.workspace_count opt.workspace_id (count_of r opt.workspace_id + 1);
      })
unfolding create
create-inv r opt now ticket h = ground arith

create-IsExact :
    (r : Registry) (opt : CreateOptions) (now : ℕ) (ticket : String) {relay : Relay} {r' : Registry}
    → get r.tickets ticket ≡ none
    → IsExact r
    → create r opt now (some ticket) ≡ ok (relay, r')
    → IsExact r'
unfolding create
create-IsExact r opt now ticket {relay} {r'} fresh v h =
    let (named, room, e) = create-inv r opt now ticket h in
    rw e (insert_relay-IsExact r opt now ticket fresh named room v)

decrement-count :
    (counts : Dict String ℕ) (ws j : String)
    → or_zero (get (decrement counts ws) j)
      ≡ (if ws == j then or_zero (get counts j) - 1 else or_zero (get counts j))
unfolding decrement
decrement-count counts ws j = elim (Bool-cases (or_zero (get counts ws) - 1 == 0)) [
  | inl t ↦ rw (t, get-remove counts ws j) (ground (arith, t, ==_iff ws j))
  | inr f ↦ rw (f, get-put counts ws j (or_zero (get counts ws) - 1)) (ground (arith, ==_iff ws j))
]

cleanup-IsExact : (r : Registry) (ticket : String) → IsExact r → IsExact (cleanup r ticket)
unfolding cleanup
cleanup-IsExact r ticket v = elim (Option-cases (get r.tickets ticket)) [
  | inl e ↦ rw e v
  | inr (relay, e) ↦
      rw (e, v.named ticket relay e)
        (record {
          distinct = remove-IsDistinct r.tickets ticket v.distinct;
          named = λ t q. rw (get-remove r.tickets ticket t) (λ h. ground (arith, v.named t q, h));
          exact = λ ws. rw (decrement-count r.workspace_count relay.workspace_id ws) (
              ground (
                arith,
                v.exact ws,
                count-remove (is_in ws) r.tickets ticket relay v.distinct e,
                ==_iff relay.workspace_id ws,
              ));
          capped = λ ws.
              omega
                (arith, v.capped ws, count-remove (is_in ws) r.tickets ticket relay v.distinct e);
        })
]

-- The registries that a gateway can have: it starts with an empty one, mints tickets that are not in
-- use, and cleans up in any order.
pub data Reach : Registry → Type 0 where
  start : (max_per_workspace default_ttl : ℤ) → Reach (new_registry max_per_workspace default_ttl)
  created :
      (opt : CreateOptions) (now : ℕ) (ticket : String) {r r' : Registry} {relay : Relay}
      → Reach r
      → get r.tickets ticket ≡ none
      → create r opt now (some ticket) ≡ ok (relay, r')
      → Reach r'
  cleaned : (ticket : String) {r : Registry} → Reach r → Reach (cleanup r ticket)

-- In every registry that is reached by creations with unused tickets and by cleanups, the count kept
-- for a workspace is the number of its live tickets, that number is within the cap, and every live
-- ticket has a workspace.
pub Reach-IsExact : {r : Registry} → Reach r → IsExact r
Reach-IsExact (start m d) = new_registry-IsExact m d
Reach-IsExact (created opt now ticket h fresh e) =
    create-IsExact _ opt now ticket fresh (Reach-IsExact h) e
Reach-IsExact (cleaned ticket h) = cleanup-IsExact _ ticket (Reach-IsExact h)

module _ (r : Registry) (v : IsExact r) (opt : CreateOptions) (now : ℕ) where
  -- With exact counts, a request that names its three ids and draws an unused ticket is refused exactly
  -- when its workspace has as many live tickets as the cap allows; otherwise the ticket can be looked
  -- up and the workspace has one live ticket more, the others as many as before.
  pub create_cases :
      (ticket : String)
      → (opt.workspace_id == "") ≡ false
      → (opt.source_exe_id == "") ≡ false
      → (opt.dest_exe_id == "") ≡ false
      → get r.tickets ticket ≡ none
      → ((r.max_per_workspace ≤ live r opt.workspace_id)
          × (create r opt now (some ticket) ≡ err workspace_cap_reached))
        ⊎ ((live r opt.workspace_id < r.max_per_workspace)
            × (relay : Relay) × (r' : Registry) × (create r opt now (some ticket) ≡ ok (relay, r'))
            × (lookup r' ticket ≡ some relay)
            × ((ws : String)
                → live r' ws ≡ (if opt.workspace_id == ws then live r ws + 1 else live r ws)))
  unfolding create lookup
  create_cases ticket w s d fresh =
      elim (Bool-cases (leb r.max_per_workspace (count_of r opt.workspace_id))) [
        | inl full ↦
            inl (omega (tests, full, v.exact opt.workspace_id), ground (arith, w, s, d, full))
        | inr room ↦ inr (
          omega (tests, room, v.exact opt.workspace_id),
          relay_of opt r.default_ttl now ticket,
          record r {
            tickets = put r.tickets ticket (relay_of opt r.default_ttl now ticket);
            workspace_count =
                put r.workspace_count opt.workspace_id (count_of r opt.workspace_id + 1);
          },
          ground (arith, w, s, d, room),
          rw (
            get-put r.tickets ticket ticket (relay_of opt r.default_ttl now ticket),
            ==_self ticket,
          ),
          λ ws.
              rw
                (count-put_new (is_in ws) r.tickets ticket (relay_of opt r.default_ttl now ticket)
                  fresh)
                (ground (arith, ==_iff opt.workspace_id ws)),
        )
      ]

module _ (r : Registry) (v : IsExact r) where
  -- Cleaning up a live ticket frees its slot: the ticket is unknown afterwards, its workspace has one
  -- live ticket less, every other workspace and ticket is as before.
  pub cleanup_frees :
      (ticket : String) (relay : Relay)
      → get r.tickets ticket ≡ some relay
      → (lookup (cleanup r ticket) ticket ≡ none)
        × ((ws : String)
            → live r ws ≡ (
                if relay.workspace_id == ws
                then live (cleanup r ticket) ws + 1
                else live (cleanup r ticket) ws))
        × ((other : String)
            → (ticket == other) ≡ false
            → lookup (cleanup r ticket) other ≡ lookup r other)
  unfolding cleanup lookup
  cleanup_frees ticket relay e = rw e (
    rw (get-remove r.tickets ticket ticket, ==_self ticket),
    λ ws. ground (arith, count-remove (is_in ws) r.tickets ticket relay v.distinct e),
    λ other ne. rw (get-remove r.tickets ticket other, ne),
  )
