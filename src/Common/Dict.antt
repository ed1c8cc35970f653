-- ===== src/Common/Dict.antt =====
-- Go's `map[K]V` as an association list: reads, writes, deletes, and a count of entries.
pub mod Count
use mathlib.Core.Path.{◌≡◌, refl, sym}
use mathlib.Core.Logic.{◌≢◌, inl, inr}
use mathlib.Core.Bool.{Bool, true, false}
use mathlib.Core.List.{List, [], ◌∷◌}
use mathlib.Core.Option.{Option, none, some}
use native.Mathlib.Omega.{arith}
use cli_server.Common.Tests.{if◌then◌else◌, Bool-cases}
use cli_server.Common.Keys.{Eq, ◌==◌, ==_iff, ==_self}

pub record Dict {ℓ κ} (K : Type ℓ) (V : Type κ) : Type (ℓ ⊔ κ) where
  pub entries : List (K × V)

module _ {ℓ κ} {K : Type ℓ} {V : Type κ} ⦃e : Eq K⦄ where
  unfoldable pub find : K → List (K × V) → Option V
  find k [] = none
  find k ((j, v) ∷ m) = if j == k then some v else find k m

  unfoldable pub without : K → List (K × V) → List (K × V)
  without k [] = []
  without k ((j, v) ∷ m) = if j == k then without k m else (j, v) ∷ without k m

  pub find-without :
      (k j : K) (m : List (K × V)) → find j (without k m) ≡ (if k == j then none else find j m)
  unfolding find without
  find-without k j [] = ground arith
  find-without k j ((i, v) ∷ m) =
      ground (arith, find-without k j m, ==_iff i k, ==_iff i j, ==_iff k j)

  -- m[k], with `none` for a missing key
  unfoldable pub get : Dict K V → K → Option V
  unfolding find
  get m k = find k m.entries

  -- delete(m, k)
  unfoldable pub remove : Dict K V → K → Dict K V
  unfolding without
  remove m k = record { entries = without k m.entries }

  -- m[k] = v
  unfoldable pub put : Dict K V → K → V → Dict K V
  unfolding without
  put m k v = record { entries = (k, v) ∷ without k m.entries }

  pub get-remove :
      (m : Dict K V) (k j : K) → get (remove m k) j ≡ (if k == j then none else get m j)
  unfolding get remove
  get-remove m k j = find-without k j m.entries

  pub get-put :
      (m : Dict K V) (k j : K) (v : V) → get (put m k v) j ≡ (if k == j then some v else get m j)
  unfolding get put
  get-put m k j v = ground (arith, find-without k j m.entries)

module _ {ℓ κ} {K : Type ℓ} {V : Type κ} ⦃e : Eq K⦄ where
  pub get-put_same : (m : Dict K V) (k : K) (v : V) → get (put m k v) k ≡ some v
  get-put_same m k v = rw (get-put m k k v) (rw (==_self k) refl)

  pub get-put_other : (m : Dict K V) (k j : K) (v : V) → j ≢ k → get (put m k v) j ≡ get m j
  get-put_other m k j v differs = elim (Bool-cases (k == j)) [
    | inl same ↦ elim (differs (sym ((==_iff k j).0 same))) [ ]
    | inr other ↦ rw (get-put m k j v) (rw other refl)
  ]

module _ {ℓ κ} {K : Type ℓ} {V : Type κ} ⦃e : Eq K⦄ where
  pub get-remove-none : (m : Dict K V) (k j : K) → get m j ≡ none → get (remove m k) j ≡ none
  get-remove-none m k j missing = rw (get-remove m k j) (none_either (k == j))
    where
      none_either : (b : Bool) → (if b then none else get m j) ≡ none
      none_either true = refl
      none_either false = missing

-- map[K]V{}
unfoldable pub empty {ℓ κ} : {K : Type ℓ} {V : Type κ} → Dict K V
empty = record { entries = [] }

pub get-empty {ℓ κ} :
    {K : Type ℓ} {V : Type κ} ⦃e : Eq K⦄ (k : K) → get (empty {K = K} {V = V}) k ≡ none
unfolding get empty find
get-empty k = refl

pub ruleset dict_laws = (get-empty, get-remove, get-put)
