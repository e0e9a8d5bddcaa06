-- ===== src/Prelude/Text/Split.antt =====
-- strings.Split on one character, and the round trip with a join.
use Prim.Native.Nat.{ℕ}
use mathlib.Core.Path.{◌≡◌, refl}
use mathlib.Core.Logic.{◌≢◌}
use mathlib.Core.Bool.{Bool, true, false}
use mathlib.Core.List.{List, [], ◌∷◌, ◌++◌}
use native.Mathlib.Omega.{arith}
use proxmox_k3s.Prelude.Tests.{eqb}
use proxmox_k3s.Prelude.Lists.{All}

-- Puts a character before the first part.
unfoldable pub onto : ℕ → List (List ℕ) → List (List ℕ)
onto c [] = (c ∷ []) ∷ []
onto c (p ∷ ps) = (c ∷ p) ∷ ps

-- There is always one part more than there are separators.
unfoldable pub split : List ℕ → ℕ → List (List ℕ)
split [] sep = [] ∷ []
split (c ∷ s) sep =
    let rest = split s sep in elim (eqb c sep) [ true ↦ [] ∷ rest | false ↦ onto c rest ]

abbrev pub Lacks : ℕ → List ℕ → Type 0
Lacks b = All (λ c. c ≢ b)

-- A part that lacks the separator is split off whole.
pub split_part :
    (p rest : List ℕ) (sep : ℕ) → Lacks sep p → split (p ++ sep ∷ rest) sep ≡ p ∷ split rest sep
unfolding split onto
split_part [] rest sep h = ground arith
split_part (c ∷ p) rest sep (hc, hp) = ground (arith, split_part p rest sep hp)

pub split_last : (p : List ℕ) (sep : ℕ) → Lacks sep p → split p sep ≡ p ∷ []
unfolding split onto
split_last [] sep h = refl
split_last (c ∷ p) sep (hc, hp) = ground (arith, split_last p sep hp)

onto-Lacks :
    (c sep : ℕ) (parts : List (List ℕ))
    → c ≢ sep
    → All (Lacks sep) parts
    → All (Lacks sep) (onto c parts)
unfolding onto
onto-Lacks c sep [] h hs = ((h, tt), tt)
onto-Lacks c sep (p ∷ ps) h (hp, hs) = ((h, hp), hs)

split_step-Lacks :
    (c sep : ℕ) (rest : List (List ℕ)) (same : Bool)
    → eqb c sep ≡ same
    → All (Lacks sep) rest
    → All (Lacks sep) (elim same [ true ↦ [] ∷ rest | false ↦ onto c rest ])
split_step-Lacks c sep rest true e h = (tt, h)
split_step-Lacks c sep rest false e h = onto-Lacks c sep rest (λ q. ground (arith, e, q)) h

-- No part has the separator.
pub split-Lacks : (s : List ℕ) (sep : ℕ) → All (Lacks sep) (split s sep)
unfolding split
split-Lacks [] sep = (tt, tt)
split-Lacks (c ∷ s) sep = split_step-Lacks c sep (split s sep) (eqb c sep) refl (split-Lacks s sep)
