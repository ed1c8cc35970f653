-- ===== src/Gateway/Revocation/Bounded.antt =====
-- What a client of a revoked set can rely on: its bound, what Add and Prune keep, and what Add warns of.
use cli_server.Common.{
  ℕ, zero, suc, ◌+◌, ◌≤◌, ◌<◌, ◌≡◌, refl, sym, ap, ◌∙◌, inl, inr, String, true, false, List, [],
  ◌∷◌, ==_iff, ==_self, string_eq, nat_eq, length, arith, Bool-cases, length-append,
}
use cli_server.Common.Int.{ℤ, pos, negsuc}
use cli_server.Gateway.Revocation.{
  RevokedSet, RevokedEntry, unlink, evict, is_some, add, prune, new_revoked_set, size,
}
use cli_server.Gateway.Revocation.Linked.{
  listed, IsOnce, Agree, fresh, listed-unlink, listed-append, unlink-IsOnce, append-IsOnce,
  evict-Agree, prune_loop-fresh, prune_loop-items, fresh-IsOnce, listed-fresh,
}
use cli_server.Common.Dict.{Dict, get, get-empty, get-put, remove}

pub record IsBounded (r : RevokedSet) : Type 0 where
  pub once : IsOnce r.order
  pub agree : Agree r.order r.items
  pub within : size r ≤ r.cap
  pub positive : 0 < r.cap

new_revoked_set-IsBounded : (cap : ℤ) → IsBounded (new_revoked_set cap)
unfolding new_revoked_set size
new_revoked_set-IsBounded (pos zero) = record {
  once = tt;
  agree = λ t. ap is_some (get-empty {K = String} {V = Unit {0}} t);
  within = omega arith;
  positive = omega arith;
}
new_revoked_set-IsBounded (pos (suc n)) = record {
  once = tt;
  agree = λ t. ap is_some (get-empty {K = String} {V = Unit {0}} t);
  within = omega arith;
  positive = omega arith;
}
new_revoked_set-IsBounded (negsuc n) = record {
  once = tt;
  agree = λ t. ap is_some (get-empty {K = String} {V = Unit {0}} t);
  within = omega arith;
  positive = omega arith;
}

length-unlink :
    (k : String) (es : List RevokedEntry)
    → listed k es ≡ true
    → length (unlink k es) + 1 ≡ length es
unfolding unlink
length-unlink k [] h = cc
length-unlink k (e ∷ es) h = ground (arith, length-unlink k es)

pub length-evict :
    (cap now : ℕ) (es : List RevokedEntry) (items : Dict String (Unit {0}))
    → 0 < cap
    → length (evict cap now es items).order < cap
unfolding evict
length-evict cap now [] items h = omega arith
length-evict cap now (e ∷ es) items h =
    ground (arith, length-evict cap now es (remove items e.turn_id) h)

pub listed-evict :
    (cap now : ℕ) (t : String) (es : List RevokedEntry) (items : Dict String (Unit {0}))
    → listed t es ≡ false
    → listed t (evict cap now es items).order ≡ false
unfolding evict
listed-evict cap now t [] items h = refl
listed-evict cap now t (e ∷ es) items h =
    ground (arith, listed-evict cap now t es (remove items e.turn_id))

pub add-IsBounded :
    (r : RevokedSet) (t : String) (exp now : ℕ) → IsBounded r → IsBounded (add r t exp now).0
unfolding add size
add-IsBounded r t exp now v = elim (Bool-cases (is_some (get r.items t))) [
  | inl old ↦ rw old (record {
    once =
        append-IsOnce (unlink t r.order) (record { turn_id = t; exp = exp })
          (unlink-IsOnce t r.order v.once) (rw (listed-unlink t t r.order v.once, ==_self t));
    agree = λ j.
        rw
          (
            listed-append j (unlink t r.order) (record { turn_id = t; exp = exp } ∷ []),
            listed-unlink t j r.order v.once,
          )
          (ground (arith, v.agree j, v.agree t, old, ==_iff t j));
    within = omega (
      arith,
      length-append (unlink t r.order) (record { turn_id = t; exp = exp } ∷ []),
      length-unlink t r.order (sym (v.agree t) ∙ old),
      v.within,
    );
    positive = v.positive;
  })
  | inr new ↦
      let (once', agree') = evict-Agree r.cap now r.order r.items v.once v.agree in
      let absent : listed t r.order ≡ false = sym (v.agree t) ∙ new in
      let absent' = listed-evict r.cap now t r.order r.items absent in
      rw new (record {
        once =
            append-IsOnce (evict r.cap now r.order r.items).order
              (record { turn_id = t; exp = exp }) once' absent';
        agree = λ j.
            rw
              (
                get-put (evict r.cap now r.order r.items).items t j tt,
                listed-append j (evict r.cap now r.order r.items).order
                    (record { turn_id = t; exp = exp } ∷ []),
              )
              (ground (arith, agree' j));
        within = omega (
          arith,
          length-append (evict r.cap now r.order r.items).order
              (record { turn_id = t; exp = exp } ∷ []),
          length-evict r.cap now r.order r.items v.positive,
        );
        positive = v.positive;
      })
]

length-fresh : (now : ℕ) (es : List RevokedEntry) → length (fresh now es) ≤ length es
length-fresh now [] = omega arith
length-fresh now (e ∷ es) = ground (arith, length-fresh now es)

pub prune-IsBounded : (r : RevokedSet) (now : ℕ) → IsBounded r → IsBounded (prune r now)
unfolding prune size
prune-IsBounded r now v = record {
  once = rw (prune_loop-fresh now r.order r.items) (fresh-IsOnce now r.order v.once);
  agree = λ t. rw (prune_loop-fresh now r.order r.items) (
      prune_loop-items now r.order r.items t v.once (λ l. v.agree t ∙ l)
      ∙ ground (arith, v.agree t, listed-fresh now t r.order));
  within =
      rw (prune_loop-fresh now r.order r.items) (omega (arith, length-fresh now r.order, v.within));
  positive = v.positive;
}

-- The revoked sets that Add and Prune make, at any times, from a new one.
pub data Reach : RevokedSet → Type 0 where
  start : (cap : ℤ) → Reach (new_revoked_set cap)
  added : (t : String) (exp now : ℕ) {r : RevokedSet} → Reach r → Reach (add r t exp now).0
  pruned : (now : ℕ) {r : RevokedSet} → Reach r → Reach (prune r now)

-- After any calls the set holds no more entries than its cap, each turn once, and the map knows exactly
-- the turns of the list.
pub Reach-IsBounded : {r : RevokedSet} → Reach r → IsBounded r
Reach-IsBounded (start cap) = new_revoked_set-IsBounded cap
Reach-IsBounded (added t exp now h) = add-IsBounded _ t exp now (Reach-IsBounded h)
Reach-IsBounded (pruned now h) = prune-IsBounded _ now (Reach-IsBounded h)
