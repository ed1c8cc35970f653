-- ===== src/Common/Dict/Count.antt =====
-- How many entries of a map pass a test, and how writes and deletes change that.
use mathlib.Core.Logic.{inl, inr}
use mathlib.Core.List.{List, [], ◌∷◌}
use mathlib.Core.Bool.{Bool, true, false}
use native.Mathlib.Omega.{arith}
use Prim.Native.Nat.{ℕ, ◌+◌}
use mathlib.Core.Path.{◌≡◌, refl, ap}
use mathlib.Core.Option.{none, some}
use cli_server.Common.Tests.{Bool-cases}
use cli_server.Common.Dict.{Dict, find, without, find-without, get, put, remove}
use cli_server.Common.Keys.{Eq, ◌==◌, ==_iff}

abbrev pub one_if : Bool → ℕ
one_if true = 1
one_if false = 0

module _ {ℓ κ} {K : Type ℓ} {V : Type κ} ⦃e : Eq K⦄ where
  abbrev pub IsDistinctList : List (K × V) → Type κ
  IsDistinctList [] = Unit
  IsDistinctList ((k, v) ∷ m) = (find k m ≡ none) × IsDistinctList m

  abbrev pub count_list : (V → Bool) → List (K × V) → ℕ
  count_list p [] = 0
  count_list p ((k, v) ∷ m) = one_if (p v) + count_list p m

  without_absent : (k : K) (m : List (K × V)) → find k m ≡ none → without k m ≡ m
  unfolding find without
  without_absent k [] h = refl
  without_absent k ((j, v) ∷ m) h = elim (Bool-cases (j == k)) [
    | inl t ↦ absurd (ground (arith, t))
    | inr f ↦ rw f (ap (◌∷◌ (j, v)) (without_absent k m (rw f at h)))
  ]

  without-IsDistinct : (k : K) (m : List (K × V)) → IsDistinctList m → IsDistinctList (without k m)
  unfolding without
  without-IsDistinct k [] h = tt
  without-IsDistinct k ((j, v) ∷ m) h = elim (Bool-cases (j == k)) [
    | inl t ↦ rw t (without-IsDistinct k m h.1)
    | inr f ↦ rw f (ground (arith, find-without k j m, h.0), without-IsDistinct k m h.1)
  ]

  count-without :
      (p : V → Bool) (k : K) (v : V) (m : List (K × V))
      → IsDistinctList m
      → find k m ≡ some v
      → count_list p m ≡ one_if (p v) + count_list p (without k m)
  unfolding find without
  count-without p k v [] d h = cc
  count-without p k v ((j, w) ∷ m) d h = elim (Bool-cases (j == k)) [
    | inl t ↦
        let same : j ≡ k = (==_iff j k).0 t in
        let value : w ≡ v = ground (arith, t) in
        rw (t, value, without_absent k m (rw (← same) d.0)) refl
    | inr f ↦ rw f (omega (arith, count-without p k v m d.1 (rw f at h)))
  ]

  -- The same of maps.
  abbrev pub IsDistinct : Dict K V → Type κ
  IsDistinct m = IsDistinctList m.entries

  abbrev pub count : (V → Bool) → Dict K V → ℕ
  count p m = count_list p m.entries

  pub remove-IsDistinct : (m : Dict K V) (k : K) → IsDistinct m → IsDistinct (remove m k)
  unfolding remove
  remove-IsDistinct m k = without-IsDistinct k m.entries

  pub put-IsDistinct : (m : Dict K V) (k : K) (v : V) → IsDistinct m → IsDistinct (put m k v)
  unfolding put
  put-IsDistinct m k v d =
      (ground (arith, find-without k k m.entries, ==_iff k k), without-IsDistinct k m.entries d)

  pub count-put_new :
      (p : V → Bool) (m : Dict K V) (k : K) (v : V)
      → get m k ≡ none
      → count p (put m k v) ≡ one_if (p v) + count p m
  unfolding put get
  count-put_new p m k v h = rw (without_absent k m.entries h) refl

  pub count-remove :
      (p : V → Bool) (m : Dict K V) (k : K) (v : V)
      → IsDistinct m
      → get m k ≡ some v
      → count p m ≡ one_if (p v) + count p (remove m k)
  unfolding remove get
  count-remove p m k v d h = count-without p k v m.entries d h

  pub remove_absent : (m : Dict K V) (k : K) → get m k ≡ none → remove m k ≡ m
  unfolding remove get
  remove_absent m k h = ap (λ l. record { entries = l }) (without_absent k m.entries h)
