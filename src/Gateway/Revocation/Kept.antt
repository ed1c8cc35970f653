-- ===== src/Gateway/Revocation/Kept.antt =====
-- Which revocations Add and Prune keep.
use cli_server.Common.{
  ℕ, ◌<◌, ◌≡◌, refl, sym, ◌∙◌, inl, inr, String, true, false, Option, none, some, List, [], ◌∷◌,
  ◌++◌, if◌then◌else◌, ltb, leb, ◌==◌, ==_iff, ==_self, string_eq, nat_eq, length, arith, tests,
  Bool-cases,
}
use cli_server.Common.Dict.{Dict, get, remove}
use cli_server.Gateway.Revocation.{
  RevokedSet, RevokedEntry, unlink, evict, is_some, contains, add, prune,
}
use cli_server.Gateway.Revocation.Linked.{
  listed, IsOnce, fresh, listed-unlink, listed-fresh, listed-append, prune_loop-fresh,
}
use cli_server.Gateway.Revocation.Bounded.{IsBounded, add-IsBounded, listed-evict}

-- The expiry that a set holds for a turn.
abbrev pub expiry_in : String → List RevokedEntry → Option ℕ
expiry_in t [] = none
expiry_in t (e ∷ es) = if e.turn_id == t then some e.exp else expiry_in t es

abbrev pub expiry : RevokedSet → String → Option ℕ
expiry r t = expiry_in t r.order

listed_of_expiry :
    (t : String) (es : List RevokedEntry) {x : ℕ} → expiry_in t es ≡ some x → listed t es ≡ true
listed_of_expiry t [] h = cc
listed_of_expiry t (e ∷ es) h = elim (Bool-cases (e.turn_id == t)) [
  | inl q ↦ rw q refl
  | inr f ↦ rw f (listed_of_expiry t es (rw f at h))
]

expiry_in-unlink :
    (k t : String) (es : List RevokedEntry)
    → (k == t) ≡ false
    → expiry_in t (unlink k es) ≡ expiry_in t es
unfolding unlink
expiry_in-unlink k t [] h = refl
expiry_in-unlink k t (e ∷ es) h =
    ground (arith, expiry_in-unlink k t es h, ==_iff e.turn_id k, ==_iff e.turn_id t, ==_iff k t)

expiry_in-append :
    (t : String) (es : List RevokedEntry) (e : RevokedEntry)
    → expiry_in t (es ++ e ∷ [])
      ≡ (if listed t es then expiry_in t es else if e.turn_id == t then some e.exp else none)
expiry_in-append t [] e = refl
expiry_in-append t (f ∷ es) e = ground (arith, expiry_in-append t es e)

expiry_in_unlisted :
    (t : String) (es : List RevokedEntry) → listed t es ≡ false → expiry_in t es ≡ none
expiry_in_unlisted t [] h = refl
expiry_in_unlisted t (e ∷ es) h = ground (arith, expiry_in_unlisted t es)

-- Eviction that reports nothing live has kept everything that is live.
evict_silent :
    (cap now : ℕ) (es : List RevokedEntry) (items : Dict String (Unit {0})) (t : String) (x : ℕ)
    → (evict cap now es items).live ≡ false
    → expiry_in t es ≡ some x
    → now < x
    → expiry_in t (evict cap now es items).order ≡ some x
unfolding evict
evict_silent cap now [] items t x q h lt = cc
evict_silent cap now (e ∷ es) items t x q h lt =
    ground (arith, evict_silent cap now es (remove items e.turn_id) t x, ==_iff e.turn_id t)

-- Eviction that reports a live entry has dropped one.
evict_loud :
    (cap now : ℕ) (es : List RevokedEntry) (items : Dict String (Unit {0}))
    → IsOnce es
    → (evict cap now es items).live ≡ true
    → (t : String) × (x : ℕ) × (expiry_in t es ≡ some x)
      × (now < x)
      × (listed t (evict cap now es items).order ≡ false)
unfolding evict
evict_loud cap now [] items h q = absurd (ground arith)
evict_loud cap now (e ∷ es) items h q = elim (Bool-cases (leb cap (length (e ∷ es)))) [
  | inr f ↦ absurd (ground (arith, f))
  | inl t ↦ elim (Bool-cases (ltb now e.exp)) [
    | inl live ↦ (
      e.turn_id,
      e.exp,
      ground (arith, ==_self e.turn_id),
      omega (tests, live),
      rw t (listed-evict cap now e.turn_id es (remove items e.turn_id) h.0),
    )
    | inr dead ↦
        let (j, x, had, lt, lost) =
          evict_loud cap now es (remove items e.turn_id) h.1 (ground (arith, t, dead, q)) in
        (
          j,
          x,
          ground (arith, had, h.0, listed_of_expiry j es had, ==_iff e.turn_id j),
          lt,
          rw t lost,
        )
  ]
]

abbrev entry : String → ℕ → RevokedEntry
entry t exp = record { turn_id = t; exp = exp }

module _ (r : RevokedSet) (v : IsBounded r) (t : String) (exp now : ℕ) where
  expiry-add_self : expiry (add r t exp now).0 t ≡ some exp
  unfolding add
  expiry-add_self = elim (Bool-cases (is_some (get r.items t))) [
    | inl old ↦
        rw
          (
            old,
            expiry_in-append t (unlink t r.order) (entry t exp),
            listed-unlink t t r.order v.once,
          )
          (ground (arith, ==_self t))
    | inr new ↦
        let absent = listed-evict r.cap now t r.order r.items (sym (v.agree t) ∙ new) in
        rw (new, expiry_in-append t (evict r.cap now r.order r.items).order (entry t exp), absent)
          (ground (arith, ==_self t))
  ]

  silent :
      (add r t exp now).1 ≡ false
      → (j : String) (x : ℕ) → (t == j) ≡ false
      → expiry r j ≡ some x
      → now < x
      → expiry (add r t exp now).0 j ≡ some x
  unfolding add
  silent q j x ne had lt = elim (Bool-cases (is_some (get r.items t))) [
    | inl old ↦
        rw (old, expiry_in-append j (unlink t r.order) (entry t exp))
          (ground (
            arith,
            expiry_in-unlink t j r.order ne,
            listed-unlink t j r.order v.once,
            listed_of_expiry j r.order had,
            had,
            ne,
          ))
    | inr new ↦
        let kept = evict_silent r.cap now r.order r.items j x (ground (arith, q, new)) had lt in
        rw (new, expiry_in-append j (evict r.cap now r.order r.items).order (entry t exp))
          (ground (arith, kept, listed_of_expiry j (evict r.cap now r.order r.items).order kept))
  ]

  loud :
      (add r t exp now).1 ≡ true
      → (j : String) × (x : ℕ) × (expiry r j ≡ some x)
        × (now < x)
        × (listed j (add r t exp now).0.order ≡ false)
  unfolding add
  loud q = elim (Bool-cases (is_some (get r.items t))) [
    | inl old ↦ absurd (ground (arith, old, q))
    | inr new ↦
        let (j, x, had, lt, lost) =
          evict_loud r.cap now r.order r.items v.once (ground (arith, q, new)) in
        let here = listed_of_expiry j r.order had in
        let absent : listed t r.order ≡ false = sym (v.agree t) ∙ new in
        (
          j,
          x,
          had,
          lt,
          rw (new, listed-append j (evict r.cap now r.order r.items).order (entry t exp ∷ []))
              (ground (arith, lost, here, absent, ==_iff t j)),
        )
  ]

expiry-fresh :
    (now : ℕ) (j : String) (es : List RevokedEntry)
    → IsOnce es
    → expiry_in j (fresh now es)
      ≡ elim (expiry_in j es) [ none ↦ none | some x ↦ if ltb x now then none else some x ]
expiry-fresh now j [] h = refl
expiry-fresh now j (e ∷ es) h = ground (
  arith,
  expiry-fresh now j es h.1,
  expiry_in_unlisted j (fresh now es),
  listed-fresh now j es,
  h.0,
  ==_iff e.turn_id j,
)

module _ (r : RevokedSet) (v : IsBounded r) where
  -- Add makes its turn revoked, until the given expiry.
  pub add_revokes :
      (t : String) (exp now : ℕ)
      → (contains (add r t exp now).0 t ≡ true) × (expiry (add r t exp now).0 t ≡ some exp)
  unfolding contains
  add_revokes t exp now = (
    (add-IsBounded r t exp now v).agree t
        ∙ listed_of_expiry t (add r t exp now).0.order (expiry-add_self r v t exp now),
    expiry-add_self r v t exp now,
  )

  -- If Add reports nothing, every other revocation whose expiry lies in the future is kept, with its
  -- expiry.
  pub add_unreported :
      (t : String) (exp now : ℕ) (j : String) (x : ℕ)
      → (add r t exp now).1 ≡ false
      → (t == j) ≡ false
      → expiry r j ≡ some x
      → now < x
      → expiry (add r t exp now).0 j ≡ some x
  add_unreported t exp now j x q ne had lt = silent r v t exp now q j x ne had lt

  -- If Add reports an eviction, some turn whose expiry lies in the future was revoked and is no longer.
  pub add_reported :
      (t : String) (exp now : ℕ)
      → (add r t exp now).1 ≡ true
      → (j : String) × (x : ℕ) × (expiry r j ≡ some x)
        × (now < x)
        × (contains (add r t exp now).0 j ≡ false)
  unfolding contains
  add_reported t exp now q =
      let (j, x, had, lt, lost) = loud r v t exp now q in
      (j, x, had, lt, (add-IsBounded r t exp now v).agree j ∙ lost)

  -- Prune at a time keeps exactly the revocations that expire no earlier, with their expiries.
  pub prune_keeps :
      (now : ℕ) (j : String)
      → expiry (prune r now) j
        ≡ elim (expiry r j) [ none ↦ none | some x ↦ if ltb x now then none else some x ]
  unfolding prune
  prune_keeps now j = rw (prune_loop-fresh now r.order r.items) (expiry-fresh now j r.order v.once)
