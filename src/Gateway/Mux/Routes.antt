-- ===== src/Gateway/Mux/Routes.antt =====
-- Who is found under an executor's identifier, whatever becomes of older connections.
use cli_server.Common.{
  ℕ, ◌≡◌, ◌≢◌, refl, ap, ◌∙◌, inl, inr, String, Bool, true, false, not, ◌&&◌, Option, none, some,
  List, [], ◌∷◌, if◌then◌else◌, ◌==◌, ==_iff, ==_self, string_eq, nat_eq, arith, Bool-cases,
}
use cli_server.Gateway.Mux.{
  Gateway, InboundConn, new_inbound_conn, same, other_than, register, lookup_conn, unregister,
  closed_inbound, close_inbound, close_evicted, connect, disconnect,
}
use cli_server.Common.Dict.{Dict, get, get-put, get-remove, put}

conns-closed :
    (g : Gateway) (i : ℕ) (o : Option InboundConn) → (closed_inbound g i o).conns ≡ g.conns
conns-closed g i none = refl
conns-closed g i (some ic) = elim (Bool-cases ic.closed) [ inl e ↦ rw e refl | inr e ↦ rw e refl ]

conns-close : (g : Gateway) (i : ℕ) → (close_inbound g i).conns ≡ g.conns
unfolding close_inbound
conns-close g i = conns-closed g i (get g.inbounds i)

conns-evicted : (g : Gateway) (o : Option ℕ) → (close_evicted g o).conns ≡ g.conns
conns-evicted g none = refl
conns-evicted g (some i) = conns-close g i

lookup-connect :
    (g : Gateway) (exe k : String) (i : ℕ)
    → lookup_conn (connect g exe i).conns k ≡ (if exe == k then some i else lookup_conn g.conns k)
unfolding connect register lookup_conn
lookup-connect g exe k i =
    ap (λ c. get c k)
      (conns-evicted
        (record g { conns = put g.conns exe i; inbounds = put g.inbounds i (new_inbound_conn exe) })
        (other_than i (get g.conns exe)))
    ∙ get-put g.conns exe k i

lookup-unregister :
    (c : Dict String ℕ) (exe k : String) (i : ℕ)
    → lookup_conn (unregister c exe i) k
      ≡ (if exe == k && same (lookup_conn c k) i then none else lookup_conn c k)
unfolding lookup_conn unregister
lookup-unregister c exe k i = ground (arith, ==_iff exe k, get-remove c exe k)

lookup-disconnect :
    (g : Gateway) (exe k : String) (i : ℕ)
    → lookup_conn (disconnect g exe i).conns k
      ≡ (if exe == k && same (lookup_conn g.conns k) i then none else lookup_conn g.conns k)
unfolding disconnect
lookup-disconnect g exe k i =
    ap (λ c. lookup_conn c k) (conns-close (record g { conns = unregister g.conns exe i }) i)
    ∙ lookup-unregister g.conns exe k i

-- What the handlers do to the gateway
pub data Event : Type 0 where
  arrive : String → ℕ → Event
  depart : String → ℕ → Event

abbrev pub act : Event → Gateway → Gateway
act (arrive exe i) g = connect g exe i
act (depart exe i) g = disconnect g exe i

unfoldable pub run : List Event → Gateway → Gateway
run [] g = g
run (e ∷ es) g = run es (act e g)

-- An event that takes over, or gives up, the connection `i` of `exe`
abbrev pub ends : String → ℕ → Event → Bool
ends exe i (arrive k j) = k == exe
ends exe i (depart k j) = k == exe && j == i

unfoldable pub undisturbed : String → ℕ → List Event → Bool
undisturbed exe i [] = true
undisturbed exe i (e ∷ es) = not (ends exe i e) && undisturbed exe i es

act-keeps :
    (exe : String) (i : ℕ) (e : Event) (g : Gateway)
    → ends exe i e ≡ false
    → lookup_conn g.conns exe ≡ some i
    → lookup_conn (act e g).conns exe ≡ some i
act-keeps exe i (arrive k j) g h l = rw (lookup-connect g k exe j, h) l
act-keeps exe i (depart k j) g h l =
    rw (lookup-disconnect g k exe j, l) (ground (arith, h, ==_iff i j, ==_iff j i))

run-keeps :
    (exe : String) (i : ℕ) (es : List Event) (g : Gateway)
    → undisturbed exe i es ≡ true
    → lookup_conn g.conns exe ≡ some i
    → lookup_conn (run es g).conns exe ≡ some i
unfolding run undisturbed
run-keeps exe i [] g h l = l
run-keeps exe i (e ∷ es) g h l = elim (Bool-cases (ends exe i e)) [
  | inl out ↦ ground (arith, h, out)
  | inr on ↦ run-keeps exe i es (act e g) (ground (arith, h)) (act-keeps exe i e g on l)
]

-- The newest connection of an executor stays the one that Lookup finds, whatever other connections
-- arrive and depart: the departure of an older connection of the same executor does not remove it.
pub connect-keeps :
    (g : Gateway) (exe : String) (i : ℕ) (es : List Event)
    → undisturbed exe i es ≡ true
    → lookup_conn (run es (connect g exe i)).conns exe ≡ some i
connect-keeps g exe i es h = run-keeps exe i es (connect g exe i) h (
    lookup-connect g exe exe i
    ∙ ap (λ b. if b then some i else lookup_conn g.conns exe) (==_self exe))

depart-keeps :
    (g : Gateway) (exe : String) (i j : ℕ)
    → i ≢ j
    → lookup_conn g.conns exe ≡ some j
    → lookup_conn (disconnect g exe i).conns exe ≡ some j
depart-keeps g exe i j n l =
    rw (lookup-disconnect g exe exe i, l) (ground (arith, n, ==_iff j i, ==_self exe))

shown-disconnect :
    (g : Gateway) (exe : String) (i : ℕ) → get (disconnect g exe i).shown exe ≡ some false
unfolding disconnect
shown-disconnect g exe i =
    let g' = close_inbound (record g { conns = unregister g.conns exe i }) i in
    get-put g'.shown exe exe false
    ∙ ap (λ b. if b then some false else get g'.shown exe) (==_self exe)

-- When a second connection of an executor evicts a first one and the handler of the first then ends, the
-- second is the one that Lookup finds, but the store shows the executor as disconnected.
pub disconnect-shown :
    (g : Gateway) (exe : String) (i j : ℕ)
    → i ≢ j
    → (lookup_conn (disconnect (connect (connect g exe i) exe j) exe i).conns exe ≡ some j)
      × (get (disconnect (connect (connect g exe i) exe j) exe i).shown exe ≡ some false)
disconnect-shown g exe i j n = (
  depart-keeps (connect (connect g exe i) exe j) exe i j n (
      lookup-connect (connect g exe i) exe exe j
      ∙ ap (λ b. if b then some j else lookup_conn (connect g exe i).conns exe) (==_self exe)),
  shown-disconnect (connect (connect g exe i) exe j) exe i,
)
