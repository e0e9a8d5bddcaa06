-- ===== src/Prelude/Text.antt =====
-- Go strings as lists of code points (the program's texts come from YAML and JSON decoders, whose
-- strings are valid UTF-8), with the functions of package `strings` that the program calls.
pub mod Split
pub mod Find
use Prim.Native.Nat.{ℕ, zero, suc, ◌+◌}
use Prim.Native.Char.{code}
use Prim.Native.String.{String}
use mathlib.Core.Path.{◌≡◌, refl, sym, ap, subst}
use mathlib.Core.Logic.{◌≢◌, ◌↔◌}
use mathlib.Core.Bool.{Bool, true, false, ◌&&◌, ◌||◌}
use mathlib.Core.Option.{Option, none, some}
use mathlib.Core.List.{List, [], ◌∷◌, ◌++◌, reverse}
use native.Mathlib.Omega.{arith}
use proxmox_k3s.Prelude.Tests.{eqb, leb, eqb_iff, if◌then◌else◌}

abbrev pub Text : Type 0
Text = List ℕ

abbrev pub codes : String → Text
codes String.[] = []
codes (String.◌∷◌ c s) = code c ∷ codes s

infix 50 ◌==◌
unfoldable pub ◌==◌ : Text → Text → Bool
[] == [] = true
[] == (d ∷ t) = false
(c ∷ s) == [] = false
(c ∷ s) == (d ∷ t) = eqb c d && s == t

pub eq_iff : (s t : Text) → ((s == t) ≡ true) ↔ (s ≡ t)
unfolding ◌==◌
eq_iff [] [] = (λ h. refl, λ h. refl)
eq_iff [] (d ∷ t) = (λ h. cc, λ h. cc)
eq_iff (c ∷ s) [] = (λ h. cc, λ h. cc)
eq_iff (c ∷ s) (d ∷ t) = ground (arith, eq_iff s t)

pub eq_refl : (s : Text) → (s == s) ≡ true
eq_refl s = (eq_iff s s).1 refl

abbrev pub is_empty : Text → Bool
is_empty [] = true
is_empty (c ∷ s) = false

-- Membership in a Go `map[string]bool` that holds `true` at the listed keys.
unfoldable pub member : Text → List Text → Bool
member x [] = false
member x (y ∷ ys) = x == y || member x ys

-- strings.HasPrefix
unfoldable pub has_prefix : Text → Text → Bool
has_prefix s [] = true
has_prefix [] (d ∷ p) = false
has_prefix (c ∷ s) (d ∷ p) = eqb c d && has_prefix s p

-- strings.TrimPrefix
unfoldable pub trim_prefix : Text → Text → Text
trim_prefix s [] = s
trim_prefix [] (d ∷ p) = []
trim_prefix (c ∷ s) (d ∷ p) = elim (has_prefix (c ∷ s) (d ∷ p)) [
  | true ↦ trim_prefix s p
  | false ↦ c ∷ s
]

-- unicode.IsSpace
unfoldable pub is_space : ℕ → Bool
is_space c =
    (leb 9 c && leb c 13)
    || eqb c 32
    || eqb c 0x85
    || eqb c 0xa0
    || eqb c 0x1680
    || (leb 0x2000 c && leb c 0x200a)
    || eqb c 0x2028
    || eqb c 0x2029
    || eqb c 0x202f
    || eqb c 0x205f
    || eqb c 0x3000

unfoldable pub trim_left : Text → Text
trim_left [] = []
trim_left (c ∷ s) = elim (is_space c) [ true ↦ trim_left s | false ↦ c ∷ s ]

-- strings.TrimSpace
unfoldable pub trim_space : Text → Text
unfolding trim_left is_space
trim_space s = reverse (trim_left (reverse (trim_left s)))

-- strings.Join
unfoldable pub join : List Text → Text → Text
join [] sep = []
join (s ∷ []) sep = s
join (s ∷ t ∷ ts) sep = s ++ (sep ++ join (t ∷ ts) sep)

pub member_self : (x : Text) (ys : List Text) → member x (x ∷ ys) ≡ true
unfolding member
member_self x ys = ground (arith, eq_refl x)

pub has_prefix-append : (p s : Text) → has_prefix (p ++ s) p ≡ true
unfolding has_prefix
has_prefix-append [] s = refl
has_prefix-append (c ∷ p) s = ground (arith, has_prefix-append p s)

pub has_prefix_iff : (s p : Text) → (has_prefix s p ≡ true) ↔ ((t : Text) × (s ≡ p ++ t))
unfolding has_prefix
has_prefix_iff s [] = (λ h. (s, refl), λ h. refl)
has_prefix_iff [] (d ∷ p) = (λ h. cc, λ (t, e). cc)
has_prefix_iff (c ∷ s) (d ∷ p) = (
  λ h.
      let (same, more) : (c ≡ d) × (has_prefix s p ≡ true) = ground (arith, h) in
      let (t, e) = (has_prefix_iff s p).0 more in (t, rw (same, e) refl),
  λ (t, e). subst (λ x. has_prefix x (d ∷ p) ≡ true) (sym e) (has_prefix-append (d ∷ p) t),
)

pub trim_prefix-append : (p s : Text) → trim_prefix (p ++ s) p ≡ s
unfolding trim_prefix has_prefix
trim_prefix-append [] s = refl
trim_prefix-append (c ∷ p) s = ground (arith, has_prefix-append p s, trim_prefix-append p s)
