-- ===== src/Domain/Size.antt =====
-- internal/domain/catalog.go: the catalogue of VM sizes, the minimums of each role, and how a size
-- name and explicit resources make one size.
pub mod Resolve
pub mod Minimum
use proxmox_k3s.Prelude.{
  ℕ, List, [], ◌∷◌, ◌++◌, map, Option, none, some, Bool, true, false, ◌&&◌, if◌then◌else◌,
}
use proxmox_k3s.Prelude.Int.{ℤ, pos, ltb_ℤ, is_zero}
use proxmox_k3s.Prelude.Text.{Text, codes, is_empty, ◌==◌}
use proxmox_k3s.Prelude.Decimal.{decimal_ℤ}
use proxmox_k3s.Prelude.Result.{Result, ok, err}
use proxmox_k3s.Domain.Error.{Error, size_below_minimum, size_unspecified, unknown_size}

pub data NodeRole : Type 0 where
  master worker : NodeRole

abbrev pub role_text : NodeRole → Text
role_text master = codes "master"
role_text worker = codes "worker"

pub record VmSize : Type 0 where
  pub name : Text
  pub cpu : ℤ
  pub memory_mb : ℤ
  pub disk_gb : ℤ

pub record SizeMinimums : Type 0 where
  pub cpu : ℤ
  pub memory_mb : ℤ
  pub disk_gb : ℤ

abbrev master_minimums : SizeMinimums
master_minimums = record { cpu = pos 2; memory_mb = pos 4096; disk_gb = pos 20 }

abbrev worker_minimums : SizeMinimums
worker_minimums = record { cpu = pos 2; memory_mb = pos 2048; disk_gb = pos 20 }

abbrev pub minimums : NodeRole → SizeMinimums
minimums master = master_minimums
minimums worker = worker_minimums

-- An entry of the map, whose key is also the name in the value.
abbrev entry : Text → ℕ → ℕ → ℕ → Text × VmSize
entry n c m d = (n, record { name = n; cpu = pos c; memory_mb = pos m; disk_gb = pos d })

catalog : List (Text × VmSize)
catalog =
    entry (codes "cp-small") 2 4096 40
    ∷ entry (codes "cp-medium") 4 8192 60
    ∷ entry (codes "cp-large") 8 16384 100
    ∷ entry (codes "standard-2") 2 4096 60
    ∷ entry (codes "standard-4") 4 8192 100
    ∷ entry (codes "standard-8") 8 16384 200
    ∷ entry (codes "memory-4") 4 16384 200
    ∷ entry (codes "memory-8") 8 32768 400
    ∷ entry (codes "cpu-8") 8 8192 100
    ∷ []

find_size : Text → List (Text × VmSize) → Option VmSize
find_size n [] = none
find_size n ((k, s) ∷ rest) = if k == n then some s else find_size n rest

unfoldable pub size_by_name : Text → Option VmSize
unfolding catalog find_size
size_by_name n = find_size n catalog

-- The zero value of the struct.
abbrev pub zero_size : VmSize
zero_size = record { name = []; cpu = pos 0; memory_mb = pos 0; disk_gb = pos 0 }

-- A missing key reads as the zero value.
or_zero : Option VmSize → VmSize
or_zero none = zero_size
or_zero (some s) = s

abbrev size_order : List Text
size_order =
    codes "cp-small"
    ∷ codes "cp-medium"
    ∷ codes "cp-large"
    ∷ codes "standard-2"
    ∷ codes "standard-4"
    ∷ codes "standard-8"
    ∷ codes "memory-4"
    ∷ codes "memory-8"
    ∷ codes "cpu-8"
    ∷ []

unfoldable pub all_sizes : List VmSize
unfolding or_zero size_by_name
all_sizes = map (λ n. or_zero (size_by_name n)) size_order

unfoldable pub validate_size : VmSize → NodeRole → Result Error Unit
validate_size size role =
    let mins = minimums role in
    if ltb_ℤ size.cpu mins.cpu
    then err (size_below_minimum size.name (role_text role) (codes "cpu") size.cpu mins.cpu)
    else if ltb_ℤ size.memory_mb mins.memory_mb
    then err (
        size_below_minimum size.name (role_text role) (codes "memory_mb") size.memory_mb
          mins.memory_mb)
    else if ltb_ℤ size.disk_gb mins.disk_gb
    then err
        (size_below_minimum size.name (role_text role) (codes "disk_gb") size.disk_gb mins.disk_gb)
    else ok tt

-- `if override > 0 { base = override }`
abbrev pub overridden : ℤ → ℤ → ℤ
overridden base override = if ltb_ℤ (pos 0) override then override else base

-- `custom(%d cpu/%d MB/%d GB)`
custom_name : ℤ → ℤ → ℤ → Text
custom_name c m d =
    codes "custom("
    ++ (decimal_ℤ c
        ++ (codes " cpu/" ++ (decimal_ℤ m ++ (codes " MB/" ++ (decimal_ℤ d ++ codes " GB)")))))

named : VmSize → VmSize
named s = if is_empty s.name then record s { name = custom_name s.cpu s.memory_mb s.disk_gb } else s

override_size : VmSize → ℤ → ℤ → ℤ → VmSize
unfolding named custom_name
override_size base c m d = named (record base {
  cpu = overridden base.cpu c;
  memory_mb = overridden base.memory_mb m;
  disk_gb = overridden base.disk_gb d;
})

found_size : Text → Option VmSize → Result Error VmSize
found_size n none = err (unknown_size n)
found_size n (some s) = ok s

-- The size that the name stands for: the zero value where there is no name.
base_size : Text → Result Error VmSize
unfolding found_size
base_size [] = ok zero_size
base_size (c ∷ n) = found_size (c ∷ n) (size_by_name (c ∷ n))

overriding : Result Error VmSize → ℤ → ℤ → ℤ → Result Error VmSize
overriding (err e) c m d = err e
overriding (ok s) c m d = ok (override_size s c m d)

unfoldable pub resolve_size : Text → ℤ → ℤ → ℤ → Result Error VmSize
unfolding base_size overriding override_size
resolve_size n c m d =
    if is_empty n && is_zero c then err size_unspecified else overriding (base_size n) c m d
