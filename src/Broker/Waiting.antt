-- ===== src/Broker/Waiting.antt =====
-- The reader never waits and never panics at a channel of internal/codexappgateway/broker/conn.go.
use cli_server.Common.{
  ℕ, ◌≡◌, ◌≢◌, ◌<◌, ◌≤◌, refl, sym, subst, ◌∙◌, suc, Option, some, none, List, [], ◌∷◌, true, false,
  if◌then◌else◌, nat_eq, Eq, ◌==◌, Bool-cases, All, arith, inl, inr,
}
use cli_server.Common.Dict.{
  Dict, get, put, remove, empty, find, without, get-put_same, get-put_other,
}
use cli_server.Broker.Waiters.{
  Chan, waiting, holding, shut, send, close, Waiters, no_waiters, register, withdraw, deliver,
  send_to, close_all, fail_all,
}

-- no channel is registered twice
abbrev pub AreDistinct {ℓ} : {K : Type ℓ} → List (K × ℕ) → Type 0
AreDistinct [] = Unit
AreDistinct (e ∷ es) = All (λ d. d.1 ≢ e.1) es × AreDistinct es

-- a registered channel is one that was made and holds nothing
abbrev pub IsWaiting {κ} : {A : Type κ} → Dict ℕ (Chan A) → ℕ → ℕ → Type κ
IsWaiting cs made ch = (get cs ch ≡ some waiting) × (ch < made)

module _ {ℓ κ} {K : Type ℓ} {A : Type κ} where
  -- Every registered channel is open and empty, and is registered under one key only.
  abbrev pub IsReady : Waiters K A → Type κ
  IsReady w =
      All (λ d. IsWaiting w.chans w.made d.1) w.pending.entries × AreDistinct w.pending.entries

module _ {ℓ μ} {K : Type ℓ} ⦃eq : Eq K⦄ (P : ℕ → Type μ) where
  All-without : (k : K) (m : List (K × ℕ)) → All (λ d. P d.1) m → All (λ d. P d.1) (without k m)
  unfolding without
  All-without k [] h = tt
  All-without k ((j, c) ∷ m) h =
      elim (j == k) as (λ b. All (λ d. P d.1) (if b then without k m else (j, c) ∷ without k m)) [
        | true ↦ All-without k m h.1
        | false ↦ (h.0, All-without k m h.1)
      ]

  All-find : (k : K) (m : List (K × ℕ)) {c : ℕ} → All (λ d. P d.1) m → find k m ≡ some c → P c
  unfolding find
  All-find k [] h found = cc
  All-find k ((j, d) ∷ m) {c} h found = elim (Bool-cases (j == k)) [
    | inl e ↦ let same : d ≡ c = (cc) in subst P same h.0
    | inr e ↦ All-find k m h.1 cc
  ]

  All-imp {ν} :
      (Q : ℕ → Type ν) (m : List (K × ℕ))
      → ((c : ℕ) → P c → Q c)
      → All (λ d. P d.1) m
      → All (λ d. Q d.1) m
  All-imp Q [] f h = tt
  All-imp Q ((j, c) ∷ m) f h = (f c h.0, All-imp Q m f h.1)

module _ {ℓ} {K : Type ℓ} ⦃eq : Eq K⦄ where
  AreDistinct-without : (k : K) (m : List (K × ℕ)) → AreDistinct m → AreDistinct (without k m)
  unfolding without
  AreDistinct-without k [] h = tt
  AreDistinct-without k ((j, c) ∷ m) h =
      elim (j == k) as (λ b. AreDistinct (if b then without k m else (j, c) ∷ without k m)) [
        | true ↦ AreDistinct-without k m h.1
        | false ↦ (All-without (λ d. d ≢ c) k m h.0, AreDistinct-without k m h.1)
      ]

  -- what is left registered is not the channel that was taken out
  others_differ :
      (k : K) (m : List (K × ℕ)) {ch : ℕ}
      → AreDistinct m
      → find k m ≡ some ch
      → All (λ d. d.1 ≢ ch) (without k m)
  unfolding find without
  others_differ k [] h found = tt
  others_differ k ((j, c) ∷ m) {ch} h found = elim (Bool-cases (j == k)) [
    | inl e ↦
        let same : c ≡ ch = (cc) in
        rw e (subst (λ x. All (λ d. d.1 ≢ x) (without k m)) same (All-without (λ d. d ≢ c) k m h.0))
    | inr e ↦
        let later : find k m ≡ some ch = (cc) in
        rw e (λ p. All-find (λ d. d ≢ c) k m h.0 later (sym p), others_differ k m h.1 later)
  ]

module _ {ℓ μ ν ρ} {K : Type ℓ} (P : ℕ → Type μ) (Q : ℕ → Type ν) (R : ℕ → Type ρ) where
  All-both :
      (m : List (K × ℕ))
      → ((c : ℕ) → P c → Q c → R c)
      → All (λ d. P d.1) m
      → All (λ d. Q d.1) m
      → All (λ d. R d.1) m
  All-both [] f h i = tt
  All-both ((j, c) ∷ m) f h i = (f c h.0 i.0, All-both m f h.1 i.1)

pub no_waiters-IsReady {ℓ κ} : (K : Type ℓ) (A : Type κ) → IsReady (no_waiters {K = K} {A = A})
unfolding no_waiters empty
no_waiters-IsReady K A = (tt, tt)

-- a channel stays as it is when another one changes
put-IsWaiting {κ} :
    {A : Type κ} (cs : Dict ℕ (Chan A)) (made made' ch c : ℕ) (v : Chan A)
    → c ≢ ch
    → made ≤ made'
    → IsWaiting cs made c
    → IsWaiting (put cs ch v) made' c
put-IsWaiting cs made made' ch c v differs le h =
    (get-put_other cs ch c v differs ∙ h.0, omega (arith, h.1, le))

module _ {ℓ κ} {K : Type ℓ} {A : Type κ} ⦃eq : Eq K⦄ where
  pub register-IsReady : (w : Waiters K A) (k : K) → IsReady w → IsReady (register w k)
  unfolding register put without
  register-IsReady w k (open_chans, distinct) =
      let others = All-without (IsWaiting w.chans w.made) k w.pending.entries open_chans in
      let older : (c : ℕ) → IsWaiting w.chans w.made c → c ≢ w.made =
        λ c h p. omega (arith, h.1, p) in
      (
        (
          (get-put_same w.chans w.made waiting, omega arith),
          All-imp (IsWaiting w.chans w.made) (IsWaiting (put w.chans w.made waiting) (suc w.made))
              (without k w.pending.entries)
              (λ c h.
                put-IsWaiting w.chans w.made (suc w.made) w.made c waiting (older c h) (omega arith)
                  h)
              others,
        ),
        (
          All-imp (IsWaiting w.chans w.made) (λ c. c ≢ w.made) (without k w.pending.entries) older
              others,
          AreDistinct-without k w.pending.entries distinct,
        ),
      )

  pub withdraw-IsReady : (w : Waiters K A) (k : K) → IsReady w → IsReady (withdraw w k)
  unfolding withdraw remove
  withdraw-IsReady w k (open_chans, distinct) = (
    All-without (IsWaiting w.chans w.made) k w.pending.entries open_chans,
    AreDistinct-without k w.pending.entries distinct,
  )

  -- What a delivery leaves: the value in the channel `m` that was found, and the others ready.
  IsDelivered : Waiters K A → Option ℕ → A → Option (Waiters K A) → Type (ℓ ⊔ κ)
  IsDelivered w m a out =
      (w' : Waiters K A) × (out ≡ some w')
      × IsReady w'
      × ((ch : ℕ) → m ≡ some ch → get w'.chans ch ≡ some (holding a))

  send_to-IsReady :
      (w : Waiters K A) (k : K) (a : A) (m : Option ℕ)
      → get w.pending k ≡ m
      → IsReady w
      → IsDelivered w m a (send_to (withdraw w k) m a)
  unfolding send withdraw get remove IsDelivered
  send_to-IsReady w k a none found ready =
      (withdraw w k, refl, withdraw-IsReady w k ready, λ ch h. cc)
  send_to-IsReady w k a (some ch) found (open_chans, distinct) =
      let (open_chan, old) =
        All-find (IsWaiting w.chans w.made) k w.pending.entries open_chans found in
      let left = All-without (IsWaiting w.chans w.made) k w.pending.entries open_chans in
      let differ = others_differ k w.pending.entries distinct found in
      (
        record (withdraw w k) { chans = put w.chans ch (holding a) },
        (rw open_chan refl),
        (
          All-both (λ c. c ≢ ch) (IsWaiting w.chans w.made)
              (IsWaiting (put w.chans ch (holding a)) w.made) (without k w.pending.entries)
              (λ c d h. put-IsWaiting w.chans w.made w.made ch c (holding a) d (omega arith) h)
              differ left,
          AreDistinct-without k w.pending.entries distinct,
        ),
        λ c e. (let same : c ≡ ch = (cc) in rw same (get-put_same w.chans ch (holding a))),
      )

  -- The reader's send meets a channel that is registered, so it never waits and never panics; the
  -- value is then in the channel that was registered under the key, and nothing else changes.
  pub deliver-IsReady :
      (w : Waiters K A) (k : K) (a : A)
      → IsReady w
      → (w' : Waiters K A) × (deliver w k a ≡ some w')
        × IsReady w'
        × ((ch : ℕ) → get w.pending k ≡ some ch → get w'.chans ch ≡ some (holding a))
  unfolding deliver IsDelivered
  deliver-IsReady w k a ready = send_to-IsReady w k a (get w.pending k) refl ready

  close_all-shut :
      (es : List (K × ℕ)) (cs : Dict ℕ (Chan A)) (made : ℕ)
      → All (λ d. IsWaiting cs made d.1) es
      → AreDistinct es
      → (cs' : Dict ℕ (Chan A)) × (close_all es cs ≡ some cs')
        × All (λ d. get cs' d.1 ≡ some shut) es
        × ((c : ℕ) → All (λ d. d.1 ≢ c) es → get cs' c ≡ get cs c)
  unfolding close_all close
  close_all-shut [] cs made open_chans distinct = (cs, refl, tt, λ c h. refl)
  close_all-shut ((k, ch) ∷ es) cs made open_chans distinct =
      let left =
        All-both (λ c. c ≢ ch) (IsWaiting cs made) (IsWaiting (put cs ch shut) made) es
          (λ c d h. put-IsWaiting cs made made ch c shut d (omega arith) h) distinct.0
          open_chans.1 in
      let (cs', closed, shuts, same) = close_all-shut es (put cs ch shut) made left distinct.1 in
      (
        cs',
        (rw (open_chans.0.0) closed),
        (same ch distinct.0 ∙ get-put_same cs ch shut, shuts),
        λ c h. same c h.1 ∙ get-put_other cs ch c shut (λ p. h.0 (sym p)),
      )

  -- When the reader ends, no close panics, and every caller that was waiting finds its channel closed.
  pub fail_all-shut :
      (w : Waiters K A)
      → IsReady w
      → (w' : Waiters K A) × (fail_all w ≡ some w')
        × IsReady w'
        × All (λ d. get w'.chans d.1 ≡ some shut) w.pending.entries
  unfolding fail_all get empty
  fail_all-shut w (open_chans, distinct) =
      let (cs, closed, shuts, same) =
        close_all-shut w.pending.entries w.chans w.made open_chans distinct in
      (record w { pending = empty; chans = cs }, (rw closed refl), (tt, tt), shuts)
