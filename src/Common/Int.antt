-- ===== src/Common/Int.antt =====
-- Signed integers over the native numbers, as far as the program compares them with zero.
use Prim.Native.Nat.{ℕ, zero, suc}
use mathlib.Core.Path.{◌≡◌, refl, ap}
use mathlib.Core.Bool.{Bool, true, false}
use cli_server.Common.Tests.{nat_beq, nat_beq_iff}
use cli_server.Common.Keys.{Eq}

-- `negsuc n` is -(n + 1).
pub data ℤ : Type 0 where
  pos : ℕ → ℤ
  negsuc : ℕ → ℤ

-- z if z > 0, and the default otherwise
abbrev pub positive_or : ℤ → ℕ → ℕ
positive_or (pos zero) d = d
positive_or (pos (suc n)) d = suc n
positive_or (negsuc n) d = d

abbrev pub int_beq : ℤ → ℤ → Bool
int_beq (pos m) (pos n) = nat_beq m n
int_beq (pos m) (negsuc n) = false
int_beq (negsuc m) (pos n) = false
int_beq (negsuc m) (negsuc n) = nat_beq m n

int_beq→eq : (a b : ℤ) → int_beq a b ≡ true → a ≡ b
int_beq→eq (pos m) (pos n) h = ap pos ((nat_beq_iff m n).0 h)
int_beq→eq (pos m) (negsuc n) h = cc
int_beq→eq (negsuc m) (pos n) h = cc
int_beq→eq (negsuc m) (negsuc n) h = ap negsuc ((nat_beq_iff m n).0 h)

int_beq_self : (a : ℤ) → int_beq a a ≡ true
int_beq_self (pos m) = (nat_beq_iff m m).1 refl
int_beq_self (negsuc m) = (nat_beq_iff m m).1 refl

-- Go's == on int64
instance pub int_eq : Eq ℤ
int_eq = record {
  agrees_iff = λ a b. (int_beq→eq a b, λ p. rw p (int_beq_self b));
  agrees = int_beq;
}
