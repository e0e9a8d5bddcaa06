-- ===== src/Ipam/Pool/Access.antt =====
-- Reading a pool by index: Get, IPForIndex and IPConfigForIndex of internal/adapter/ipam/static.go.
use proxmox_k3s.Prelude.{
  ℕ, zero, suc, ◌<◌, ◌≤◌, List, [], ◌∷◌, none, some, ◌≡◌, ◌⊎◌, inl, inr, refl, arith, length,
  get_elem?,
}
use proxmox_k3s.Prelude.Int.{pos}
use proxmox_k3s.Prelude.Result.{ok, err}
use proxmox_k3s.Domain.Error.{index_out_of_range}
use proxmox_k3s.Net.{Ip, Ipv6, ip_string}
use proxmox_k3s.Ipam.Pool.{
  StaticAllocator, get, size, ip_config_for_index, total_ips, prefix_for, config_text,
}

get_elem?_cases :
    (ips : List Ip) (i : ℕ)
    → ((i < length ips) × ((ip : Ip) × (get_elem? ips i ≡ some ip)))
      ⊎ ((length ips ≤ i) × (get_elem? ips i ≡ none))
get_elem?_cases [] i = inr (omega arith, refl)
get_elem?_cases (x ∷ xs) zero = inl (omega arith, (x, refl))
get_elem?_cases (x ∷ xs) (suc i) = elim (get_elem?_cases xs i) [
  | inl (lt, found) ↦ inl (omega arith, found)
  | inr (le, none_there) ↦ inr (omega arith, none_there)
]

module _ (v6 : Ipv6) where
  -- At an index below the pool's size the configuration text is that of the address at that place,
  -- with the allocator's prefix and gateway; at the size and above the index is refused, with the
  -- size in the error.
  pub ip_config_outcome :
      (a : StaticAllocator) (i : ℕ)
      → ((i < total_ips a)
          × ((ip : Ip) × (get_elem? a.pool.ips i ≡ some ip)
              × (ip_config_for_index v6 a (pos i)
                  ≡ ok (config_text (prefix_for v6 a.cidr) a.gateway (ip_string v6 ip)))))
        ⊎ ((total_ips a ≤ i)
            × (ip_config_for_index v6 a (pos i)
                ≡ err (index_out_of_range (pos i) (pos (total_ips a)))))
  unfolding total_ips size ip_config_for_index get
  ip_config_outcome a i = elim (get_elem?_cases a.pool.ips i) [
    | inl (lt, (ip, e)) ↦ inl (lt, (ip, e, rw e refl))
    | inr (le, e) ↦ inr (le, rw e refl)
  ]
