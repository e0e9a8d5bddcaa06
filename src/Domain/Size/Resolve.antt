-- ===== src/Domain/Size/Resolve.antt =====
-- The branches of ResolveSize of internal/domain/catalog.go.
use proxmox_k3s.Prelude.{
  [], ◌∷◌, none, some, ◌≡◌, ◌≢◌, ◌⊎◌, inl, inr, refl, arith, Bool-cases, Option-cases, true, false,
}
use proxmox_k3s.Prelude.Int.{ℤ, pos, is_zero}
use proxmox_k3s.Prelude.Text.{Text, is_empty}
use proxmox_k3s.Prelude.Result.{ok, err}
use proxmox_k3s.Domain.Error.{size_unspecified, unknown_size}
use proxmox_k3s.Domain.Size.{
  VmSize, zero_size, size_by_name, resolve_size, overridden, override_size, named, custom_name,
}

-- The three resources of `s` are those of `base`, each replaced by its override if that is positive.
abbrev pub HasResources : VmSize → ℤ → ℤ → ℤ → VmSize → Type 0
HasResources base c m d s =
    (s.cpu ≡ overridden base.cpu c)
    × (s.memory_mb ≡ overridden base.memory_mb m)
    × (s.disk_gb ≡ overridden base.disk_gb d)

named-resources :
    (s : VmSize)
    → ((named s).cpu ≡ s.cpu)
      × ((named s).memory_mb ≡ s.memory_mb)
      × ((named s).disk_gb ≡ s.disk_gb)
unfolding named
named-resources s = elim (Bool-cases (is_empty s.name)) [
  | inl e ↦ rw e (refl, refl, refl)
  | inr e ↦ rw e (refl, refl, refl)
]

named-name : (s : VmSize) → is_empty (named s).name ≡ false
unfolding named custom_name
named-name s = elim (Bool-cases (is_empty s.name)) [ inl e ↦ rw e refl | inr e ↦ rw e e ]

override_size-HasResources :
    (base : VmSize) (c m d : ℤ) → HasResources base c m d (override_size base c m d)
unfolding override_size
override_size-HasResources base c m d = named-resources _

override_size-name : (base : VmSize) (c m d : ℤ) → is_empty (override_size base c m d).name ≡ false
unfolding override_size
override_size-name base c m d = named-name _

zero_of : (c : ℤ) → is_zero c ≡ true → c ≡ pos 0
zero_of c h = ground arith

ne_zero : (c : ℤ) → is_zero c ≡ false → c ≢ pos 0
ne_zero c h = ground arith

-- A name of the catalogue gives that size with each positive override in place of the catalogue's
-- resource; a name outside the catalogue is refused.
pub resolve_size_name :
    (n : Text) (c m d : ℤ)
    → n ≢ []
    → ((size_by_name n ≡ none) × (resolve_size n c m d ≡ err (unknown_size n)))
      ⊎ ((base s : VmSize) × (size_by_name n ≡ some base)
          × (resolve_size n c m d ≡ ok s)
          × HasResources base c m d s)
unfolding resolve_size
resolve_size_name [] c m d h = absurd (h refl)
resolve_size_name (x ∷ n) c m d h = elim (Option-cases (size_by_name (x ∷ n))) [
  | inl e ↦ inl (e, rw e refl)
  | inr (base, e) ↦
      inr (base, override_size base c m d, e, rw e refl, override_size-HasResources base c m d)
]

-- With no name the resources are the positive overrides and zero elsewhere, under a made-up name
-- that is not empty; a CPU override of zero is refused.
pub resolve_size_custom :
    (c m d : ℤ)
    → ((c ≡ pos 0) × (resolve_size [] c m d ≡ err size_unspecified))
      ⊎ ((s : VmSize) × (c ≢ pos 0)
          × (resolve_size [] c m d ≡ ok s)
          × HasResources zero_size c m d s
          × (is_empty s.name ≡ false))
unfolding resolve_size
resolve_size_custom c m d = elim (Bool-cases (is_zero c)) [
  | inl e ↦ inl (zero_of c e, rw e refl)
  | inr e ↦ inr (
    override_size zero_size c m d,
    ne_zero c e,
    rw e refl,
    override_size-HasResources zero_size c m d,
    override_size-name zero_size c m d,
  )
]
