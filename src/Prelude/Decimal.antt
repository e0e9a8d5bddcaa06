-- ===== src/Prelude/Decimal.antt =====
-- The verb %d of package fmt: decimal digits, a minus sign before a negative number.
use Prim.Native.Nat.{ℕ, zero, suc, ◌+◌, ◌-◌, ◌*◌, ◌/◌, ◌%◌, ◌<◌, ◌≤◌}
use mathlib.Core.Path.{◌≡◌, refl, ap, ◌∙◌, sym}
use mathlib.Core.Bool.{Bool, true, false, ◌&&◌}
use mathlib.Core.List.{[], ◌∷◌}
use native.Mathlib.Omega.{arith}
use proxmox_k3s.Prelude.Tests.{ltb, leb, if◌then◌else◌}
use proxmox_k3s.Prelude.Lists.{All}
use proxmox_k3s.Prelude.Int.{ℤ, pos, negsuc}
use proxmox_k3s.Prelude.Text.{Text, is_empty}
use proxmox_k3s.Prelude.Text.Split.{Lacks}

-- Each round takes the last digit off; a number has no more digits than its own size and one.
emit : ℕ → ℕ → Text → Text
emit zero n out = out
emit (suc fuel) n out = elim (ltb n 10) [
  | true ↦ (48 + n) ∷ out
  | false ↦ emit fuel (n / 10) ((48 + n % 10) ∷ out)
]

unfoldable pub decimal : ℕ → Text
unfolding emit
decimal n = emit (suc n) n []

unfoldable pub decimal_ℤ : ℤ → Text
unfolding decimal
decimal_ℤ (pos n) = decimal n
decimal_ℤ (negsuc n) = b'-' ∷ decimal (suc n)

-- The number that digits spell behind `n`.
abbrev pub value : ℕ → Text → ℕ
value n [] = n
value n (c ∷ s) = value (n * 10 + (c - 48)) s

value-emit : (fuel n : ℕ) (out : Text) → n < fuel → value 0 (emit fuel n out) ≡ value n out
unfolding emit
value-emit zero n out h = absurd (omega arith)
value-emit (suc fuel) n out h =
    ground (arith, value-emit fuel (n / 10) ((48 + n % 10) ∷ out), last_digit)
  where
    last_digit : n / 10 * 10 + (48 + n % 10 - 48) ≡ n
    last_digit = omega arith

-- Reading the digits gives the number back, so two numbers with one print are equal.
pub decimal-injective : (m n : ℕ) → decimal m ≡ decimal n → m ≡ n
unfolding decimal
decimal-injective m n h =
    sym (value-emit (suc m) m [] (omega arith))
    ∙ (ap (value 0) h ∙ value-emit (suc n) n [] (omega arith))

pub value-decimal : (n : ℕ) → value 0 (decimal n) ≡ n
unfolding decimal
value-decimal n = value-emit (suc n) n [] (omega arith)

abbrev pub IsDigit : ℕ → Type 0
IsDigit c = (48 ≤ c) × (c ≤ 57)

emit-IsDigit : (fuel n : ℕ) (out : Text) → All IsDigit out → All IsDigit (emit fuel n out)
unfolding emit
emit-IsDigit zero n out h = h
emit-IsDigit (suc fuel) n out h =
    ground (arith, emit-IsDigit fuel (n / 10) ((48 + n % 10) ∷ out) (omega arith, h))

pub decimal-IsDigit : (n : ℕ) → All IsDigit (decimal n)
unfolding decimal
decimal-IsDigit n = emit-IsDigit (suc n) n [] tt

digits-Lacks : (b : ℕ) (s : Text) → b < 48 → All IsDigit s → Lacks b s
digits-Lacks b [] h d = tt
digits-Lacks b (c ∷ s) h d = (λ e. omega arith, digits-Lacks b s h d.1)

pub decimal-Lacks : (b n : ℕ) → b < 48 → Lacks b (decimal n)
decimal-Lacks b n h = digits-Lacks b (decimal n) h (decimal-IsDigit n)

-- A character that the class \d matches.
abbrev pub is_digit : ℕ → Bool
is_digit c = leb 48 c && leb c 57

abbrev pub all_digits : Text → Bool
all_digits [] = true
all_digits (c ∷ s) = is_digit c && all_digits s

-- The digits at the start of a text.
abbrev pub leading_digits : Text → Text
leading_digits [] = []
leading_digits (c ∷ s) = let rest = leading_digits s in if is_digit c then c ∷ rest else []

all_digits-IsDigit : (s : Text) → All IsDigit s → all_digits s ≡ true
all_digits-IsDigit [] h = refl
all_digits-IsDigit (c ∷ s) (hc, h) = ground (arith, all_digits-IsDigit s h)

pub all_digits-decimal : (n : ℕ) → all_digits (decimal n) ≡ true
all_digits-decimal n = all_digits-IsDigit (decimal n) (decimal-IsDigit n)

leading_digits-IsDigit : (s : Text) → All IsDigit s → leading_digits s ≡ s
leading_digits-IsDigit [] h = refl
leading_digits-IsDigit (c ∷ s) (hc, h) = ground (arith, leading_digits-IsDigit s h)

pub leading_digits-decimal : (n : ℕ) → leading_digits (decimal n) ≡ decimal n
leading_digits-decimal n = leading_digits-IsDigit (decimal n) (decimal-IsDigit n)

emit-non-empty : (fuel n c : ℕ) (out : Text) → is_empty (emit fuel n (c ∷ out)) ≡ false
unfolding emit
emit-non-empty zero n c out = refl
emit-non-empty (suc fuel) n c out =
    ground (arith, emit-non-empty fuel (n / 10) (48 + n % 10) (c ∷ out))

-- A number has a digit.
pub decimal-non-empty : (n : ℕ) → is_empty (decimal n) ≡ false
unfolding decimal emit
decimal-non-empty n = ground (arith, emit-non-empty n (n / 10) (48 + n % 10) [])
