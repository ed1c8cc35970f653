-- ===== src/Common/Keys.antt =====
-- Decidable equality of map keys and identifiers, as an interface with its law.
use Prim.Native.Nat.{ℕ}
use Prim.Native.String.{String}
use mathlib.Core.Path.{◌≡◌, refl}
use mathlib.Core.Logic.{◌↔◌}
use mathlib.Core.Bool.{Bool, true}
use text.Mathlib.Text.{◌==◌ as str_eq}
use text.Mathlib.TextEquality.{eq_iff}
use cli_server.Common.Tests.{nat_beq, nat_beq_iff}

-- The test of a type, and that it decides the type's paths.
pub record Eq {ℓ} (Key : Type ℓ) : Type ℓ where
  pub agrees : Key → Key → Bool
  pub agrees_iff : (j k : Key) → (agrees j k ≡ true) ↔ (j ≡ k)

infix 50 ◌==◌
abbrev pub ◌==◌ {ℓ} : {Key : Type ℓ} ⦃d : Eq Key⦄ → Key → Key → Bool
◌==◌ ⦃d⦄ = d.agrees

pub ==_iff {ℓ} : {Key : Type ℓ} ⦃d : Eq Key⦄ (j k : Key) → ((j == k) ≡ true) ↔ (j ≡ k)
==_iff ⦃d⦄ = d.agrees_iff

pub ==_self {ℓ} : {Key : Type ℓ} ⦃d : Eq Key⦄ (k : Key) → (k == k) ≡ true
==_self k = (==_iff k k).1 refl

-- Go's == on strings, and on integers that are not negative.
instance abbrev pub string_eq : Eq String
string_eq = record { agrees_iff = eq_iff; agrees = str_eq }

instance abbrev pub nat_eq : Eq ℕ
nat_eq = record { agrees_iff = nat_beq_iff; agrees = nat_beq }
