-- ===== src/Common/Outcome.antt =====
-- Go's `(value, error)` results: a value, or an error of the model's own type.
use mathlib.Core.Path.{◌≡◌, refl, subst}
use mathlib.Core.Bool.{Bool, true, false}
use cli_server.Common.Tests.{if◌then◌else◌}

pub data Result {ℓ κ} (E : Type ℓ) (A : Type κ) : Type (ℓ ⊔ κ) where
  err : E → Result E A
  ok : A → Result E A

infixl 5 ◌>>=◌
abbrev pub ◌>>=◌ {ℓ κ μ} :
    {E : Type ℓ} {A : Type κ} {B : Type μ} → Result E A → (A → Result E B) → Result E B
err e >>= next = err e
ok a >>= next = next a

pub ok-inj {ℓ κ} : {E : Type ℓ} {A : Type κ} {x y : A} → ◌≡◌ {A = Result E A} (ok x) (ok y) → x ≡ y
ok-inj h = cc

-- A successful chain had a successful first step.
pub >>=-eq-ok {ℓ κ μ} :
    {X : Type ℓ} {A : Type κ} {B : Type μ} (first : Result X A) (next : A → Result X B) {out : B}
    → (first >>= next) ≡ ok out
    → (mid : A) × (first ≡ ok mid) × (next mid ≡ ok out)
>>=-eq-ok (err x) next done = cc
>>=-eq-ok (ok mid) next done = (mid, refl, done)

-- A postcondition: `P` of a value, `Q` of an error.
abbrev pub Post {ℓ κ μ} :
    {E : Type ℓ} {A : Type κ} → (A → Type μ) → (E → Type μ) → Result E A → Type μ
Post P Q (ok a) = P a
Post P Q (err e) = Q e

module _ {ℓ κ μ} {E : Type ℓ} {A : Type κ} (P : A → Type μ) (Q : E → Type μ) where
  pub Post-bind {ν} :
      {B : Type ν} (R : B → Type μ) (m : Result E B) (f : B → Result E A)
      → Post R Q m
      → ((b : B) → R b → Post P Q (f b))
      → Post P Q (m >>= f)
  Post-bind R (ok b) f hm hf = hf b hm
  Post-bind R (err e) f hm hf = hm

  pub Post-if :
      (b : Bool) (m n : Result E A)
      → (b ≡ true → Post P Q m)
      → (b ≡ false → Post P Q n)
      → Post P Q (if b then m else n)
  Post-if true m n hm hn = hm refl
  Post-if false m n hm hn = hn refl

  pub Post-ok : (m : Result E A) {a : A} → Post P Q m → m ≡ ok a → P a
  Post-ok m h e = subst (Post P Q) e h

  pub Post-err : (m : Result E A) {x : E} → Post P Q m → m ≡ err x → Q x
  Post-err m h e = subst (Post P Q) e h
