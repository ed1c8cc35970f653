-- ===== src/Gateway/Mux/Fanout.antt =====
-- What closing a connection does to the sessions that are routed over it.
use cli_server.Common.{
  ℕ, ◌≡◌, refl, ap, ◌∙◌, inl, inr, String, Bool, true, false, ◌||◌, Option, none, some, List, [],
  ◌∷◌, if◌then◌else◌, ◌==◌, ==_iff, ==_self, string_eq, nat_eq, arith, Bool-cases,
}
use cli_server.Gateway.Mux.{
  Gateway, InboundConn, BridgeSession, closed_session, close_session, close_all, closed_inbound,
  close_inbound,
}
use cli_server.Common.Dict.{Dict, empty, get, get-put, put}

abbrev pub is_closed : Option BridgeSession → Bool
is_closed none = true
is_closed (some s) = s.closed

get-closed_session :
    (ss : Dict ℕ BridgeSession) (b k : ℕ) (o : Option BridgeSession)
    → get ss b ≡ o
    → is_closed (get (closed_session ss b o) k) ≡ (b == k || is_closed (get ss k))
get-closed_session ss b k none e = ground (arith, ==_iff b k, e)
get-closed_session ss b k (some s) e = ground (arith, get-put ss b k (record s { closed = true }))

closed-close_session :
    (ss : Dict ℕ BridgeSession) (b k : ℕ)
    → is_closed (get (close_session ss b) k) ≡ (b == k || is_closed (get ss k))
unfolding close_session
closed-close_session ss b k = get-closed_session ss b k (get ss b) refl

-- Whether a handle is among those of some routes
unfoldable pub routed : ℕ → List (String × ℕ) → Bool
routed k [] = false
routed k ((stream, b) ∷ rs) = b == k || routed k rs

closed-close_all :
    (rs : List (String × ℕ)) (ss : Dict ℕ BridgeSession) (k : ℕ)
    → is_closed (get (close_all rs ss) k) ≡ (routed k rs || is_closed (get ss k))
unfolding close_all routed
closed-close_all [] ss k = refl
closed-close_all ((stream, b) ∷ rs) ss k =
    ground (arith, closed-close_all rs (close_session ss b) k, closed-close_session ss b k)

-- close of a connection that is open closes exactly the sessions that were routed over it, besides those
-- that were closed before, and leaves it closed and without routes.
pub close_inbound-closes :
    (g : Gateway) (i : ℕ) (ic : InboundConn) (k : ℕ)
    → get g.inbounds i ≡ some ic
    → ic.closed ≡ false
    → (is_closed (get (close_inbound g i).sessions k)
        ≡ (routed k ic.routes.entries || is_closed (get g.sessions k)))
      × (get (close_inbound g i).inbounds i ≡ some (record ic { routes = empty; closed = true }))
unfolding close_inbound
close_inbound-closes g i ic k e o =
    rw (e, o)
      (
        closed-close_all ic.routes.entries g.sessions k,
        get-put g.inbounds i i (record ic { routes = empty; closed = true })
            ∙ ap
                (λ b.
                  if b
                  then some (record ic { routes = empty; closed = true })
                  else get g.inbounds i)
                (==_self i),
      )

close-closed :
    (g : Gateway) (i : ℕ) (ic : InboundConn)
    → get g.inbounds i ≡ some ic
    → ic.closed ≡ true
    → close_inbound g i ≡ g
unfolding close_inbound
close-closed g i ic e c = rw (e, c) refl

close-none : (g : Gateway) (i : ℕ) → get g.inbounds i ≡ none → close_inbound g i ≡ g
unfolding close_inbound
close-none g i e = rw e refl

close-closed_inbound :
    (g : Gateway) (i : ℕ) (o : Option InboundConn)
    → get g.inbounds i ≡ o
    → close_inbound (closed_inbound g i o) i ≡ closed_inbound g i o
close-closed_inbound g i none e = close-none g i e
close-closed_inbound g i (some ic) e = elim (Bool-cases ic.closed) [
  | inl c ↦ rw c (close-closed g i ic e c)
  | inr c ↦ rw c (
      close-closed
        (record g {
          inbounds = put g.inbounds i (record ic { routes = empty; closed = true });
          sessions = close_all ic.routes.entries g.sessions;
        })
        i (record ic { routes = empty; closed = true })
        (get-put g.inbounds i i (record ic { routes = empty; closed = true })
          ∙ ap
              (λ b.
                if b then some (record ic { routes = empty; closed = true }) else get g.inbounds i)
              (==_self i))
        refl)
]

-- close of a connection is idempotent: a second one leaves the gateway as it is.
pub close_inbound-again :
    (g : Gateway) (i : ℕ) → close_inbound (close_inbound g i) i ≡ close_inbound g i
unfolding close_inbound
close_inbound-again g i = close-closed_inbound g i (get g.inbounds i) refl
