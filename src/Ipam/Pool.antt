-- ===== src/Ipam/Pool.antt =====
-- internal/adapter/ipam/static.go: the pool of addresses of a range, and the static allocator.
pub mod Increment
pub mod Range
pub mod Access
use mathlib.Core.List.{reverse}
use proxmox_k3s.Prelude.{
  ℕ, zero, suc, ◌+◌, ◌%◌, ◌^◌, List, [], ◌∷◌, ◌++◌, Option, none, some, Bool, true, false, ◌||◌,
  leb, eqb, length, get_elem?, if◌then◌else◌,
}
use proxmox_k3s.Prelude.Int.{ℤ, pos, negsuc}
use proxmox_k3s.Prelude.Text.{Text, codes, ◌==◌, trim_space, is_empty}
use proxmox_k3s.Prelude.Text.Find.{cut}
use proxmox_k3s.Prelude.Decimal.{decimal}
use proxmox_k3s.Prelude.Result.{Result, ok, err, map_err, bind}
use proxmox_k3s.Net.{Ip, Ipv6, parse_ip, ip_string, parse_cidr}
use proxmox_k3s.Domain.Error.{
  Error, invalid_range, invalid_start_ip, invalid_end_ip, index_out_of_range,
}

pub record IpPool : Type 0 where
  pub start : Ip
  pub end : Ip
  pub ips : List Ip

-- The loop of incrementIP, over the bytes from the last to the first: a byte that wraps around to
-- zero carries on.
bump : List ℕ → List ℕ
bump [] = []
bump (b ∷ bs) = let b' = (b + 1) % 256 in elim (eqb b' 0) [ true ↦ b' ∷ bump bs | false ↦ b' ∷ bs ]

unfoldable pub increment_ip : Ip → Ip
unfolding bump
increment_ip ip = reverse (bump (reverse ip))

-- The loop of ParsePool. It increments `start` in place, so the address where it stops comes back
-- with the addresses that it copied. It stops at the end address, or when the rounds run out.
unfoldable pub collect : ℕ → Ip → Ip → List Ip → List Ip × Ip
collect zero ip last ips = (ips, ip)
collect (suc rounds) ip last ips = elim (ip == last) [
  | true ↦ (ips, ip)
  | false ↦ collect rounds (increment_ip ip) last (ips ++ ip ∷ [])
]

-- There are as many addresses of 16 bytes.
abbrev pub address_space : ℕ
address_space = 2 ^ 128

unfoldable pub pool_of : Ip → Ip → IpPool
unfolding collect increment_ip
pool_of start last =
    let (ips, ip) = collect address_space start last [] in
    record { start = ip; end = last; ips = ips ++ last ∷ [] }

both : Text → Text → Option Ip → Option Ip → Result Error IpPool
unfolding pool_of
both a b none last = err (invalid_start_ip a)
both a b (some start) none = err (invalid_end_ip b)
both a b (some start) (some last) = ok (pool_of start last)

-- IPPool.Get, on the index that a caller passes
got : Ipv6 → ℤ → List Ip → Option Ip → Result Error Text
got v6 i ips none = err (index_out_of_range i (pos (length ips)))
got v6 i ips (some ip) = ok (ip_string v6 ip)

module _ (v6 : Ipv6) where
  parts_of : Text → Option (Text × Text) → Result Error IpPool
  unfolding both
  parts_of r none = err (invalid_range r)
  parts_of r (some (a, b)) = both a b (parse_ip v6 (trim_space a)) (parse_ip v6 (trim_space b))

  unfoldable pub parse_pool : Text → Result Error IpPool
  unfolding parts_of cut
  parse_pool r = parts_of r (cut r b'-')

  -- IPPool.Get
  unfoldable pub get : IpPool → ℤ → Result Error Text
  unfolding got
  get p (pos i) = got v6 (pos i) p.ips (get_elem? p.ips i)
  get p (negsuc i) = err (index_out_of_range (negsuc i) (pos (length p.ips)))

-- IPPool.Size
unfoldable pub size : IpPool → ℕ
size p = length p.ips

holds : List Ip → Ip → Bool
holds [] ip = false
holds (x ∷ xs) ip = x == ip || holds xs ip

in_pool : List Ip → Option Ip → Bool
unfolding holds
in_pool ips none = false
in_pool ips (some ip) = holds ips ip

-- IPPool.Contains
unfoldable pub contains : Ipv6 → IpPool → Text → Bool
unfolding in_pool
contains v6 p s = in_pool p.ips (parse_ip v6 s)

pub record StaticAllocator : Type 0 where
  pub pool : IpPool
  pub cidr : Text
  pub gateway : Text

prefix_text : Option ℕ → Text
prefix_text none = codes "24"
prefix_text (some ones) = decimal ones

-- The text `ip=A/P`, with `,gw=G` behind it if there is a gateway.
pub config_text : Text → Text → Text → Text
config_text prefix gateway ip =
    let cfg = codes "ip=" ++ (ip ++ (b'/' ∷ prefix)) in
    if is_empty gateway then cfg else cfg ++ (codes ",gw=" ++ gateway)

module _ (v6 : Ipv6) where
  unfoldable pub new_static_allocator : Text → Text → Text → Result Error StaticAllocator
  new_static_allocator range cidr gateway =
      bind (parse_pool v6 range) (λ p. ok (record { pool = p; cidr = cidr; gateway = gateway }))

  unfoldable pub ip_for_index : StaticAllocator → ℤ → Result Error Text
  ip_for_index a i = get v6 a.pool i

  -- The prefix is 24 where the CIDR is empty or does not parse.
  pub prefix_for : Text → Text
  unfolding prefix_text
  prefix_for cidr = if is_empty cidr then codes "24" else prefix_text (parse_cidr v6 cidr)

  unfoldable pub ip_config_for_index : StaticAllocator → ℤ → Result Error Text
  unfolding config_text prefix_for
  ip_config_for_index a i =
      bind (get v6 a.pool i) (λ ip. ok (config_text (prefix_for a.cidr) a.gateway ip))

unfoldable pub total_ips : StaticAllocator → ℕ
total_ips a = size a.pool
