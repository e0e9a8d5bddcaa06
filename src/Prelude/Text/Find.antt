-- ===== src/Prelude/Text/Find.antt =====
-- strings.Contains, and strings.SplitN with a limit of two.
use Prim.Native.Nat.{ℕ}
use mathlib.Core.Path.{◌≡◌, refl, sym, ap, subst}
use mathlib.Core.Logic.{◌↔◌, inl, inr}
use mathlib.Core.Bool.{Bool, true, false, ◌&&◌, ◌||◌}
use mathlib.Core.Option.{Option, none, some}
use mathlib.Core.List.{List, [], ◌∷◌, ◌++◌}
use native.Mathlib.Omega.{arith}
use proxmox_k3s.Prelude.Tests.{eqb, Bool-cases}
use proxmox_k3s.Prelude.Text.Split.{Lacks}

-- `sub` stands at the start of the text.
unfoldable pub starts : List ℕ → List ℕ → Bool
starts s [] = true
starts [] (d ∷ p) = false
starts (c ∷ s) (d ∷ p) = eqb c d && starts s p

unfoldable pub contains : List ℕ → List ℕ → Bool
unfolding starts
contains [] sub = starts [] sub
contains (c ∷ s) sub = starts (c ∷ s) sub || contains s sub

abbrev pub onto_first : ℕ → Option (List ℕ × List ℕ) → Option (List ℕ × List ℕ)
onto_first c none = none
onto_first c (some (a, b)) = some (c ∷ a, b)

-- The parts before and behind the first separator; `none` where SplitN gives one part.
unfoldable pub cut : List ℕ → ℕ → Option (List ℕ × List ℕ)
cut [] sep = none
cut (c ∷ s) sep =
    let rest = cut s sep in elim (eqb c sep) [ true ↦ some ([], s) | false ↦ onto_first c rest ]

pub cut_at : (p rest : List ℕ) (sep : ℕ) → Lacks sep p → cut (p ++ sep ∷ rest) sep ≡ some (p, rest)
unfolding cut
cut_at [] rest sep h = ground arith
cut_at (c ∷ p) rest sep (hc, hp) = ground (arith, cut_at p rest sep hp)

starts-append : (p b : List ℕ) → starts (p ++ b) p ≡ true
unfolding starts
starts-append [] b = refl
starts-append (c ∷ p) b = ground (arith, starts-append p b)

starts-rest : (s p : List ℕ) → starts s p ≡ true → (b : List ℕ) × (s ≡ p ++ b)
unfolding starts
starts-rest s [] h = (s, refl)
starts-rest [] (d ∷ p) h = cc
starts-rest (c ∷ s) (d ∷ p) h =
    let (same, more) : (c ≡ d) × (starts s p ≡ true) = ground (arith, h) in
    let (b, e) = starts-rest s p more in (b, rw (same, e) refl)

contains-around : (a p b : List ℕ) → contains (a ++ p ++ b) p ≡ true
unfolding contains
contains-around [] p b = contains_start (p ++ b) p (starts-append p b)
  where
    contains_start : (s p : List ℕ) → starts s p ≡ true → contains s p ≡ true
    contains_start [] p h = h
    contains_start (c ∷ s) p h = rw h refl
contains-around (c ∷ a) p b = ground (arith, contains-around a p b)

pub contains_iff :
    (s p : List ℕ) → (contains s p ≡ true) ↔ ((a : List ℕ) × (b : List ℕ) × (s ≡ a ++ p ++ b))
unfolding contains
contains_iff s p =
    (parts s, λ (a, b, e). subst (λ x. contains x p ≡ true) (sym e) (contains-around a p b))
  where
    parts : (s : List ℕ) → contains s p ≡ true → (a : List ℕ) × (b : List ℕ) × (s ≡ a ++ p ++ b)
    parts [] h = let (b, e) = starts-rest [] p h in ([], b, e)
    parts (c ∷ s) h = elim (Bool-cases (starts (c ∷ s) p)) [
      | inl here ↦ let (b, e) = starts-rest (c ∷ s) p here in ([], b, e)
      | inr later ↦
          let (a, b, e) = parts s (ground (arith, h, later)) in (c ∷ a, b, ap (λ t. c ∷ t) e)
    ]
