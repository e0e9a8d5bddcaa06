-- ===== src/Domain/Size/Minimum.antt =====
-- ValidateSize of internal/domain/catalog.go against the minimums, and the catalogue.
use proxmox_k3s.Prelude.{List, [], ◌∷◌, some, ◌≡◌, ◌↔◌, arith, All, inl, inr, Bool-cases, subst}
use mathlib.Core.Option.{some-injective}
use proxmox_k3s.Prelude.Int.{◌≤ℤ◌}
use proxmox_k3s.Prelude.Text.{Text, ◌==◌}
use proxmox_k3s.Prelude.Result.{ok}
use proxmox_k3s.Domain.Size.{
  NodeRole, master, worker, VmSize, SizeMinimums, minimums, catalog, find_size, size_by_name,
  validate_size,
}

-- Every resource reaches the minimum.
abbrev pub Reaches : SizeMinimums → VmSize → Type 0
Reaches mins s = (mins.cpu ≤ℤ s.cpu) × (mins.memory_mb ≤ℤ s.memory_mb) × (mins.disk_gb ≤ℤ s.disk_gb)

-- A size is accepted for a role exactly when its CPU, memory and disk all reach the role's
-- minimums.
pub validate_size_iff :
    (s : VmSize) (role : NodeRole) → (validate_size s role ≡ ok tt) ↔ Reaches (minimums role) s
unfolding validate_size
validate_size_iff s role = ground arith

find_size-All :
    (P : VmSize → Type 0) (n : Text) (entries : List (Text × VmSize)) (s : VmSize)
    → All (λ (e : Text × VmSize). P e.1) entries
    → find_size n entries ≡ some s
    → P s
unfolding find_size
find_size-All P n [] s h e = cc
find_size-All P n ((k, t) ∷ rest) s (ht, hrest) e = elim (Bool-cases (k == n)) [
  | inl same ↦ subst P (some-injective t s (rw same at e)) ht
  | inr other ↦ find_size-All P n rest s hrest (rw other at e)
]

-- Every size of the catalogue is accepted for masters and for workers alike.
pub catalog-valid :
    (n : Text) (s : VmSize) (role : NodeRole)
    → size_by_name n ≡ some s
    → validate_size s role ≡ ok tt
unfolding size_by_name
catalog-valid n s master h =
    (validate_size_iff s master).1
      (find_size-All (Reaches (minimums master)) n catalog s (omega arith) h)
catalog-valid n s worker h =
    (validate_size_iff s worker).1
      (find_size-All (Reaches (minimums worker)) n catalog s (omega arith) h)
