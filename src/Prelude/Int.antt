-- ===== src/Prelude/Int.antt =====
-- Go's signed `int` as an integer. `negsuc n` is -(n + 1). The program compares such numbers and
-- prints them; its only sums are over pool counts.
use Prim.Native.Nat.{ℕ, suc, ◌+◌, ◌-◌, ◌≤◌, ◌<◌, ◌%◌}
use mathlib.Core.Path.{◌≡◌}
use mathlib.Core.Bool.{Bool, true, false}
use mathlib.Core.Logic.{◌↔◌}
use native.Mathlib.Omega.{arith}
use proxmox_k3s.Prelude.Tests.{ltb, leb, eqb, eqb_iff, if◌then◌else◌}

pub data ℤ : Type 0 where
  pos : ℕ → ℤ
  negsuc : ℕ → ℤ

abbrev pub pos_part : ℤ → ℕ
pos_part (pos n) = n
pos_part (negsuc n) = 0

abbrev pub neg_part : ℤ → ℕ
neg_part (pos n) = 0
neg_part (negsuc n) = suc n

infixl 65 ◌+ℤ◌
infix 50 ◌≤ℤ◌ ◌<ℤ◌
-- a - b, as an integer.
abbrev pub sub_ℕ : ℕ → ℕ → ℤ
sub_ℕ a b = if leb b a then pos (a - b) else negsuc (b - a - 1)

unfoldable pub ◌+ℤ◌ : ℤ → ℤ → ℤ
a +ℤ b = sub_ℕ (pos_part a + pos_part b) (neg_part a + neg_part b)

abbrev pub ◌≤ℤ◌ : ℤ → ℤ → Type 0
a ≤ℤ b = pos_part a + neg_part b ≤ pos_part b + neg_part a

abbrev pub ◌<ℤ◌ : ℤ → ℤ → Type 0
a <ℤ b = pos_part a + neg_part b < pos_part b + neg_part a

-- `a < b` and `a == 0` as tests.
abbrev pub ltb_ℤ : ℤ → ℤ → Bool
ltb_ℤ a b = ltb (pos_part a + neg_part b) (pos_part b + neg_part a)

abbrev pub is_zero : ℤ → Bool
is_zero (pos n) = eqb n 0
is_zero (negsuc n) = false

-- `a % 2 == 0`: Go's remainder takes the sign of `a`, and is zero at the even numbers.
abbrev pub is_even : ℤ → Bool
is_even (pos n) = eqb (n % 2) 0
is_even (negsuc n) = eqb (suc n % 2) 0

-- A number that is not negative.
abbrev pub IsNatural : ℤ → Type 0
IsNatural a = neg_part a ≡ 0

pub +ℤ-IsNatural :
    (a b : ℤ)
    → IsNatural a
    → IsNatural b
    → (pos_part (a +ℤ b) ≡ pos_part a + pos_part b) × IsNatural (a +ℤ b)
unfolding ◌+ℤ◌
+ℤ-IsNatural a b ha hb = ground arith

-- `a == b`
abbrev pub eqb_ℤ : ℤ → ℤ → Bool
eqb_ℤ (pos m) (pos n) = eqb m n
eqb_ℤ (pos m) (negsuc n) = false
eqb_ℤ (negsuc m) (pos n) = false
eqb_ℤ (negsuc m) (negsuc n) = eqb m n

pub eqb_ℤ_iff : (a b : ℤ) → (eqb_ℤ a b ≡ true) ↔ (a ≡ b)
eqb_ℤ_iff (pos m) (pos n) = ground (arith, eqb_iff m n)
eqb_ℤ_iff (pos m) (negsuc n) = (λ h. cc, λ h. cc)
eqb_ℤ_iff (negsuc m) (pos n) = (λ h. cc, λ h. cc)
eqb_ℤ_iff (negsuc m) (negsuc n) = ground (arith, eqb_iff m n)
