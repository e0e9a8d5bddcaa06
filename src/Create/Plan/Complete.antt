-- ===== src/Create/Plan/Complete.antt =====
-- planIPs as a whole: when there is a plan, and what it holds.
use native.Mathlib.Nat.{zero-add}
use proxmox_k3s.Prelude.{
  ℕ, ◌+◌, ◌<◌, ◌≤◌, List, [], ◌∷◌, map, some, ◌≡◌, ◌≢◌, refl, arith, All, get_elem?, ◌⊎◌, inl, inr,
  Bool-cases,
}
use proxmox_k3s.Prelude.Int.{ℤ, pos, pos_part, ltb_ℤ, ◌+ℤ◌, IsNatural, +ℤ-IsNatural}
use proxmox_k3s.Prelude.Text.{Text, ◌==◌, eq_iff}
use proxmox_k3s.Prelude.Dict.{lookup}
use proxmox_k3s.Prelude.Result.{ok, err}
use proxmox_k3s.Domain.Error.{ip_pool_exhausted}
use proxmox_k3s.Domain.Model.{Cluster, NodePool, ip_mode_dhcp}
use proxmox_k3s.Net.{Ip, Ipv6, ip_string}
use proxmox_k3s.Ipam.Pool.{
  StaticAllocator, new_static_allocator, total_ips, config_text, prefix_for,
}
use proxmox_k3s.Ipam.Pool.Access.{ip_config_outcome}
use proxmox_k3s.Create.Names.{
  cluster_names, all_pool_names, Distinct, nodes_in, length-all_pool_names, cluster_names-Distinct,
}
use proxmox_k3s.Create.Plan.{IpPlan, total_needed, plan_with, plan_ips}
use proxmox_k3s.Create.Plan.Lookup.{plan_pools-assign, IsAssigned, assign-IsAssigned, assign_total}

-- No pool has a negative count.
abbrev pub Counted : List NodePool → Type 0
Counted = All (λ (p : NodePool). IsNatural p.count)

total_needed-sum :
    (n : ℤ) (ps : List NodePool)
    → IsNatural n
    → Counted ps
    → (pos_part (total_needed n ps) ≡ pos_part n + nodes_in ps) × IsNatural (total_needed n ps)
unfolding total_needed
total_needed-sum n [] hn h = (omega arith, hn)
total_needed-sum n (p ∷ ps) hn (hp, h) =
    let (sum, natural) = +ℤ-IsNatural n p.count hn hp in
    let (total, result) = total_needed-sum (n +ℤ p.count) ps natural h in (omega arith, result)

module _ (v6 : Ipv6) (c : Cluster) (alloc : StaticAllocator) where
  -- The cluster's addresses are static, and its range makes that allocator.
  abbrev pub Allocates : Type 0
  Allocates =
      (c.network.mode ≢ ip_mode_dhcp)
      × (new_static_allocator v6 c.network.node_pool_range c.network.cidr c.network.gateway
          ≡ ok alloc)

  plan_ips-with : Allocates → plan_ips v6 c ≡ plan_with v6 alloc c
  unfolding plan_ips
  plan_ips-with (static, made) = elim (Bool-cases (c.network.mode == ip_mode_dhcp)) [
    | inl e ↦ absurd (static ((eq_iff c.network.mode ip_mode_dhcp).0 e))
    | inr e ↦ rw (e, made) refl
  ]

  assigned :
      (plan : IpPlan)
      → plan_with v6 alloc c ≡ ok plan
      → Distinct (map (λ (p : NodePool). p.name) (c.masters ∷ c.workers))
      → IsAssigned v6 alloc (cluster_names c) 0 [] plan
  unfolding plan_with cluster_names
  assigned plan h d =
      elim (Bool-cases (ltb_ℤ (pos (total_ips alloc)) (total_needed c.masters.count c.workers))) [
        | inl e ↦ cc (rw e at h)
        | inr e ↦
            assign-IsAssigned v6 alloc (cluster_names c) 0 [] plan (cluster_names-Distinct c d)
              (rw plan_pools-assign at (rw e at h))
      ]

  -- With static addresses and no negative count, there is a plan exactly when the range has an
  -- address for every node of the cluster; else the pool is reported as exhausted.
  pub plan_ips_outcome :
      Allocates
      → Counted (c.masters ∷ c.workers)
      → ((nodes_in (c.masters ∷ c.workers) ≤ total_ips alloc)
          × ((plan : IpPlan) × (plan_ips v6 c ≡ ok plan)))
        ⊎ ((total_ips alloc < nodes_in (c.masters ∷ c.workers))
            × (plan_ips v6 c ≡ err (ip_pool_exhausted c.network.node_pool_range)))
  unfolding plan_with
  plan_ips_outcome a (hm, hw) =
      let (total, natural) = total_needed-sum c.masters.count c.workers hm hw in
      rw (plan_ips-with a)
        (elim (Bool-cases
          (ltb_ℤ (pos (total_ips alloc)) (total_needed c.masters.count c.workers))) [
            | inl e ↦ inr (ground arith, rw e refl)
            | inr e ↦ inl (
              ground arith,
              rw (e, plan_pools-assign v6 alloc c.name (c.masters ∷ c.workers) 0 [])
                  (assign_total v6 alloc (all_pool_names c.name (c.masters ∷ c.workers)) 0 []
                    (ground (arith, length-all_pool_names c.name (c.masters ∷ c.workers)))),
            )
          ])

  -- With static addresses, and where no two pools share a name, a plan gives the nodes, masters
  -- first, the addresses of the range in order: node `k` has the configuration text of address `k`.
  pub plan_ips_node :
      (plan : IpPlan) (k : ℕ) (n : Text)
      → Allocates
      → Distinct (map (λ (p : NodePool). p.name) (c.masters ∷ c.workers))
      → plan_ips v6 c ≡ ok plan
      → get_elem? (cluster_names c) k ≡ some n
      → (ip : Ip) × (get_elem? alloc.pool.ips k ≡ some ip)
        × (lookup n plan
            ≡ some (config_text (prefix_for v6 alloc.cidr) alloc.gateway (ip_string v6 ip)))
  plan_ips_node plan k n a d h e =
      let (cfg, found, held) = (assigned plan (rw (plan_ips-with a) at h) d).named k n e in
      elim (ip_config_outcome v6 alloc k) [
        | inl (lt, (ip, there, answer)) ↦ (ip, there, cc (held, answer, rw (zero-add k) at found))
        | inr (le, refused) ↦ cc (refused, rw (zero-add k) at found)
      ]
