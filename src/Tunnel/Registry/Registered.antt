-- ===== src/Tunnel/Registry/Registered.antt =====
-- Which tunnels run, over all interleavings (internal/tunnel/registry.go).
use cli_server.Common.{
  ℕ, ◌≡◌, ◌≢◌, refl, sym, ap, subst, ◌∙◌, Option, some, none, Bool, true, false, ◌==◌, ==_iff,
  string_eq, nat_eq, String, Bool-cases, inl, inr, if◌then◌else◌,
}
use cli_server.Common.Dict.{get, put, remove, get-put_same, get-remove, get-empty}
use cli_server.Tunnel.Registry.{
  Tunnel, Registry, new_registry, running, make_tunnel, close_stored_tunnel, close_old, add_tunnel,
  register_tunnel, is_tunnel, unregister_same, unregister,
}
use cli_server.Tunnel.Registry.Accounted.{
  mark, IsAccounted, IsOrderly, Stops, mark_same, keeps_mark, not_same, close_stored_tunnel-Stops,
  close_old-stops, made-IsOrderly, put_keeps,
}

-- The calls of all handlers, and the closes of tunnels by whoever it is, in any order. A tunnel is
-- pending from newTunnel until its registration ends without a panic, and from Unregister until it
-- is closed.
pub data Reach : Registry → (ℕ → Bool) → Type 0 where
  begun : Reach new_registry (λ i. false)
  made :
      {r : Registry} {pending : ℕ → Bool} (sandbox : String) (mux : Bool)
      → Reach r pending
      → Reach (make_tunnel r sandbox mux) (mark r.count true pending)
  registered :
      {r r' : Registry} {pending : ℕ → Bool} (i : ℕ) (t : Tunnel)
      → Reach r pending
      → get r.store i ≡ some t
      → register_tunnel r t.sandbox_id i ≡ some r'
      → Reach r' (mark i r'.stuck pending)
  unregistered :
      {r r' : Registry} {pending : ℕ → Bool} (sandbox : String) (i : ℕ) (removed : Bool)
      → Reach r pending
      → unregister r sandbox i ≡ some (r', removed)
      → Reach r' (mark i true pending)
  closed :
      {r : Registry} {pending : ℕ → Bool} (i : ℕ)
      → Reach r pending
      → Reach (close_stored_tunnel r i).0 (mark i false pending)

-- the end of Register, whether or not the close of the old tunnel panicked
added-IsOrderly :
    (r q : Registry) (pending : ℕ → Bool) (i : ℕ) (t : Tunnel) (panicked : Bool)
    → IsOrderly r pending
    → get r.store i ≡ some t
    → q.tunnels ≡ r.tunnels
    → ((j : ℕ) (u : Tunnel)
        → get q.store j ≡ some u
        → u.status ≡ running
        → (get r.tunnels t.sandbox_id ≢ some j) × (get r.store j ≡ some u))
    → IsOrderly
        (add_tunnel t.sandbox_id i (q, panicked))
        (mark i (add_tunnel t.sandbox_id i (q, panicked)).stuck pending)
added-IsOrderly r q pending i t true orderly stored tunnels stops j u got runs =
    elim (Bool-cases (i == j)) [
      | inl e ↦ inr (mark_same i j true pending ((==_iff i j).0 e))
      | inr e ↦
          keeps_mark (record q { stuck = true }) pending i j true u.sandbox_id (not_same i j e)
            (rw tunnels (orderly j u (stops j u got runs).1 runs))
    ]
added-IsOrderly r q pending i t false orderly stored tunnels stops j u got runs =
    let (not_old, before) = stops j u got runs in
    elim (Bool-cases (i == j)) [
      | inl e ↦
          let equal : i ≡ j = ((==_iff i j).0 e) in
          let same_tunnel : some t ≡ some u = (sym stored ∙ ap (get r.store) equal ∙ before) in
          let same : t ≡ u = (cc) in
          let named : t.sandbox_id ≡ u.sandbox_id = ap (λ x. x.sandbox_id) same in
          inl (
            ap (get (put q.tunnels t.sandbox_id i)) (sym named)
            ∙ get-put_same q.tunnels t.sandbox_id i
            ∙ ap some equal)
      | inr e ↦
          let other : j ≢ i = (not_same i j e) in
          keeps_mark (record q { tunnels = put q.tunnels t.sandbox_id i }) pending i j q.stuck
            u.sandbox_id other
            (rw tunnels (
              put_keeps r pending t.sandbox_id u.sandbox_id i j other not_old
                (orderly j u before runs)))
    ]

-- A call that got past the lock found it free.
past_lock {ℓ} :
    {A : Type ℓ} (stuck : Bool) {x y : A}
    → (if stuck then none else some x) ≡ some y
    → (stuck ≡ false) × (x ≡ y)
past_lock true h = cc
past_lock false h = (refl, cc)

register_tunnel-IsOrderly :
    (r r' : Registry) (pending : ℕ → Bool) (i : ℕ) (t : Tunnel)
    → IsOrderly r pending
    → get r.store i ≡ some t
    → register_tunnel r t.sandbox_id i ≡ some r'
    → IsOrderly r' (mark i r'.stuck pending)
unfolding register_tunnel
register_tunnel-IsOrderly r r' pending i t orderly stored done =
    let old = get r.tunnels t.sandbox_id in
    let (free, same) = past_lock r.stuck done in
    let (tunnels, stops) = close_old-stops r old in
    subst (λ x. IsOrderly x (mark i x.stuck pending)) same
      (added-IsOrderly r (close_old r old).0 pending i t (close_old r old).1 orderly stored tunnels
        stops)

removed_other :
    (r : Registry) (sandbox s : String) (i j : ℕ)
    → is_tunnel i (get r.tunnels sandbox) ≡ true
    → j ≢ i
    → get r.tunnels s ≡ some j
    → get (remove r.tunnels sandbox) s ≡ some j
removed_other r sandbox s i j mine other found = elim (Bool-cases (sandbox == s)) [
  | inl e ↦
      let here : get r.tunnels sandbox ≡ some j =
        (ap (get r.tunnels) ((==_iff sandbox s).0 e) ∙ found) in
      let mine' : (j == i) ≡ true = (rw here at mine) in elim (other ((==_iff j i).0 mine')) [ ]
  | inr e ↦ get-remove r.tunnels sandbox s ∙ (rw e found)
]

unregister_same-keeps :
    (r : Registry) (pending : ℕ → Bool) (sandbox s : String) (i j : ℕ) (same : Bool)
    → is_tunnel i (get r.tunnels sandbox) ≡ same
    → j ≢ i
    → IsAccounted r pending j s
    → IsAccounted (unregister_same r sandbox same).0 pending j s
unregister_same-keeps r pending sandbox s i j same mine other (inr waits) = inr waits
unregister_same-keeps r pending sandbox s i j true mine other (inl found) =
    inl (removed_other r sandbox s i j mine other found)
unregister_same-keeps r pending sandbox s i j false mine other (inl found) = inl found

unregister_same-store :
    (r : Registry) (sandbox : String) (same : Bool)
    → (unregister_same r sandbox same).0.store ≡ r.store
unregister_same-store r sandbox true = refl
unregister_same-store r sandbox false = refl

unregister-IsOrderly :
    (r r' : Registry) (pending : ℕ → Bool) (sandbox : String) (i : ℕ) (removed : Bool)
    → IsOrderly r pending
    → unregister r sandbox i ≡ some (r', removed)
    → IsOrderly r' (mark i true pending)
unfolding unregister
unregister-IsOrderly r r' pending sandbox i removed orderly done j t got runs =
    let mine = is_tunnel i (get r.tunnels sandbox) in
    let (free, left) = past_lock r.stuck done in
    let same : (unregister_same r sandbox mine).0 ≡ r' = ap (λ x. x.0) left in
    elim (Bool-cases (i == j)) [
      | inl here ↦ inr (mark_same i j true pending ((==_iff i j).0 here))
      | inr e ↦
          let other : j ≢ i = (not_same i j e) in
          let before : get r.store j ≡ some t =
            ap (λ d. get d j) (sym (unregister_same-store r sandbox mine))
            ∙ ap (λ x. get x.store j) same
            ∙ got in
          keeps_mark r' pending i j true t.sandbox_id other (
            subst (λ x. IsAccounted x pending j t.sandbox_id) same
              (unregister_same-keeps r pending sandbox t.sandbox_id i j mine refl other
                (orderly j t before runs)))
    ]

close_stored_tunnel-IsOrderly :
    (r : Registry) (pending : ℕ → Bool) (i : ℕ)
    → IsOrderly r pending
    → IsOrderly (close_stored_tunnel r i).0 (mark i false pending)
unfolding Stops
close_stored_tunnel-IsOrderly r pending i orderly j t got runs =
    let (stops, tunnels) = close_stored_tunnel-Stops r i in
    let (other, before) = stops j t got runs in
    keeps_mark (close_stored_tunnel r i).0 pending i j false t.sandbox_id other
      (rw tunnels (orderly j t before runs))

new_registry-IsOrderly : IsOrderly new_registry (λ i. false)
unfolding new_registry
new_registry-IsOrderly i t got runs =
    let missing : get new_registry.store i ≡ none = get-empty i in
    let nothing : none ≡ some t = (sym missing ∙ got) in elim (apart nothing) [ ]
  where
    apart : ◌≢◌ {A = Option Tunnel} none (some t)
    apart h = cc

Reach-IsOrderly : {r : Registry} {pending : ℕ → Bool} → Reach r pending → IsOrderly r pending
Reach-IsOrderly begun = new_registry-IsOrderly
Reach-IsOrderly (made {r} {pending} sandbox mux reach) =
    made-IsOrderly r pending sandbox mux (Reach-IsOrderly reach)
Reach-IsOrderly (registered {r} {r'} {pending} i t reach stored done) =
    register_tunnel-IsOrderly r r' pending i t (Reach-IsOrderly reach) stored done
Reach-IsOrderly (unregistered {r} {r'} {pending} sandbox i removed reach done) =
    unregister-IsOrderly r r' pending sandbox i removed (Reach-IsOrderly reach) done
Reach-IsOrderly (closed {r} {pending} i reach) =
    close_stored_tunnel-IsOrderly r pending i (Reach-IsOrderly reach)

-- In every interleaving of the calls of handlers and of closes of tunnels, each tunnel that runs is the
-- registered one of its sandbox, or it is pending: it was made and its registration has not ended without a
-- panic, or it was given to Unregister and is not closed yet.
pub Reach-running :
    {r : Registry} {pending : ℕ → Bool} (i : ℕ) (t : Tunnel)
    → Reach r pending
    → get r.store i ≡ some t
    → t.status ≡ running
    → IsAccounted r pending i t.sandbox_id
Reach-running i t reach got runs = Reach-IsOrderly reach i t got runs
