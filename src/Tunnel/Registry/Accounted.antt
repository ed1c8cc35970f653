-- ===== src/Tunnel/Registry/Accounted.antt =====
-- Tunnels that run are accounted for, before and after a close (internal/tunnel/registry.go).
use cli_server.Common.{
  ℕ, ◌≡◌, ◌≢◌, ◌⊎◌, refl, sym, ap, ◌∙◌, Option, some, none, Bool, true, false, ◌==◌, ==_iff,
  string_eq, nat_eq, String, Bool-cases, inl, inr, if◌then◌else◌,
}
use cli_server.Common.Dict.{get, put, get-put, get-put_other}
use cli_server.Tunnel.Registry.{
  Tunnel, Registry, Status, running, broken, shut_down, new_tunnel, make_tunnel, close_status,
  close_found, close_stored_tunnel, close_old,
}

-- The tunnels that a goroutine is about to register or to close, with one more or one less.
abbrev pub mark : ℕ → Bool → (ℕ → Bool) → ℕ → Bool
mark i b pending j = if i == j then b else pending j

-- The tunnel `i` is the registered one of the sandbox, or pending.
abbrev pub IsAccounted : Registry → (ℕ → Bool) → ℕ → String → Type 0
IsAccounted r pending i sandbox = (get r.tunnels sandbox ≡ some i) ⊎ (pending i ≡ true)

abbrev pub IsOrderly : Registry → (ℕ → Bool) → Type 0
IsOrderly r pending =
    (i : ℕ) (t : Tunnel)
    → get r.store i ≡ some t
    → t.status ≡ running
    → IsAccounted r pending i t.sandbox_id

-- What runs in `r'` ran in `r`, and is not `i`.
unfoldable pub Stops : Registry → ℕ → Registry → Type 0
Stops r i r' =
    (j : ℕ) (t : Tunnel)
    → get r'.store j ≡ some t
    → t.status ≡ running
    → (j ≢ i) × (get r.store j ≡ some t)

pub not_same : (i j : ℕ) → (i == j) ≡ false → j ≢ i
not_same i j e p = let equal : (i == j) ≡ true = ((==_iff i j).1 (sym p)) in cc

pub mark_same : (i j : ℕ) (b : Bool) (pending : ℕ → Bool) → i ≡ j → mark i b pending j ≡ b
mark_same i j b pending p = let here : (i == j) ≡ true = ((==_iff i j).1 p) in rw here refl

mark_other : (i j : ℕ) (b : Bool) (pending : ℕ → Bool) → j ≢ i → mark i b pending j ≡ pending j
mark_other i j b pending other = elim (Bool-cases (i == j)) [
  | inl e ↦ elim (other (sym ((==_iff i j).0 e))) [ ]
  | inr e ↦ rw e refl
]

-- Another tunnel stays accounted for when a mark is set or taken.
pub keeps_mark :
    (r : Registry) (pending : ℕ → Bool) (i j : ℕ) (b : Bool) (sandbox : String)
    → j ≢ i
    → IsAccounted r pending j sandbox
    → IsAccounted r (mark i b pending) j sandbox
keeps_mark r pending i j b sandbox other (inl found) = inl found
keeps_mark r pending i j b sandbox other (inr waits) = inr (mark_other i j b pending other ∙ waits)

stops_running : (s : Status) → (close_status s).0 ≢ running
unfolding close_status
stops_running running = λ e. cc
stops_running broken = λ e. cc
stops_running shut_down = λ e. cc

pub close_stored_tunnel-Stops :
    (r : Registry) (i : ℕ)
    → Stops r i (close_stored_tunnel r i).0 × ((close_stored_tunnel r i).0.tunnels ≡ r.tunnels)
unfolding close_stored_tunnel Stops
close_stored_tunnel-Stops r i = close_found-Stops (get r.store i) refl
  where
    close_found-Stops :
        (m : Option Tunnel)
        → get r.store i ≡ m
        → Stops r i (close_found r i m).0 × ((close_found r i m).0.tunnels ≡ r.tunnels)
    close_found-Stops none found = (
      (λ j t got runs. (
        (λ p. (let here : get r.store i ≡ some t = (ap (get r.store) (sym p) ∙ got) in cc)),
        got,
      )),
      refl,
    )
    close_found-Stops (some u) found = (
      (λ j t got runs. elim (Bool-cases (i == j)) [
        | inl e ↦
            let at : some (record u { status = (close_status u.status).0 }) ≡ some t =
              sym (
                get-put r.store i j (record u { status = (close_status u.status).0 }) ∙ (rw e refl))
              ∙ got in
            let same : record u { status = (close_status u.status).0 } ≡ t = (cc) in
            elim (stops_running u.status (ap (λ x. x.status) same ∙ runs)) [ ]
        | inr e ↦ (
          (not_same i j e),
          sym (get-put r.store i j (record u { status = (close_status u.status).0 }) ∙ (rw e refl))
              ∙ got,
        )
      ]),
      refl,
    )

-- After the old tunnel of the sandbox is closed: what runs ran before, and is not the old one.
pub close_old-stops :
    (r : Registry) (old : Option ℕ)
    → ((close_old r old).0.tunnels ≡ r.tunnels)
      × ((j : ℕ) (t : Tunnel)
          → get (close_old r old).0.store j ≡ some t
          → t.status ≡ running
          → (old ≢ some j) × (get r.store j ≡ some t))
unfolding Stops
close_old-stops r none = (refl, λ j t got runs. ((λ e. cc), got))
close_old-stops r (some i) =
    let (stops, tunnels) = close_stored_tunnel-Stops r i in
    (
      tunnels,
      λ j t got runs.
          let (other, before) = stops j t got runs in
          ((λ e. (let same : i ≡ j = (cc) in other (sym same))), before),
    )

pub made-IsOrderly :
    (r : Registry) (pending : ℕ → Bool) (sandbox : String) (mux : Bool)
    → IsOrderly r pending
    → IsOrderly (make_tunnel r sandbox mux) (mark r.count true pending)
unfolding make_tunnel
made-IsOrderly r pending sandbox mux orderly j t got runs = elim (Bool-cases (r.count == j)) [
  | inl e ↦ inr (mark_same r.count j true pending ((==_iff r.count j).0 e))
  | inr e ↦
      let before : get r.store j ≡ some t =
        sym (get-put r.store r.count j (new_tunnel sandbox mux) ∙ (rw e refl)) ∙ got in
      keeps_mark r pending r.count j true t.sandbox_id (not_same r.count j e)
        (orderly j t before runs)
]

-- Registering `i` keeps whatever is not the old tunnel of the sandbox.
pub put_keeps :
    (r : Registry) (pending : ℕ → Bool) (s sandbox : String) (i j : ℕ)
    → j ≢ i
    → get r.tunnels s ≢ some j
    → IsAccounted r pending j sandbox
    → IsAccounted (record r { tunnels = put r.tunnels s i }) pending j sandbox
put_keeps r pending s sandbox i j other not_old (inr waits) = inr waits
put_keeps r pending s sandbox i j other not_old (inl found) = inl (
    get-put_other r.tunnels s sandbox i (λ p. not_old (ap (get r.tunnels) (sym p) ∙ found)) ∙ found)
