-- ===== src/Create/Plan.antt =====
-- Phase 3, planIPs: which address each node gets. Go's nil map, in DHCP mode, is the empty one.
pub mod Lookup
pub mod Complete
use proxmox_k3s.Prelude.{ℕ, zero, suc, ◌+◌, List, [], ◌∷◌, Bool, true, false, if◌then◌else◌}
use proxmox_k3s.Prelude.Int.{ℤ, pos, ◌+ℤ◌, ltb_ℤ}
use proxmox_k3s.Prelude.Text.{Text, ◌==◌}
use proxmox_k3s.Prelude.Dict.{insert}
use proxmox_k3s.Prelude.Result.{Result, ok, err, bind}
use proxmox_k3s.Domain.Error.{Error, ip_pool_exhausted}
use proxmox_k3s.Domain.Model.{Cluster, NodePool, Node, NetworkPlan, ip_mode_dhcp}
use proxmox_k3s.Net.{Ipv6}
use proxmox_k3s.Ipam.Pool.{StaticAllocator, new_static_allocator, ip_config_for_index, total_ips}
use proxmox_k3s.Create.Names.{node_name, rounds}

abbrev pub IpPlan : Type 0
IpPlan = List (Text × Text)

unfoldable pub total_needed : ℤ → List NodePool → ℤ
total_needed n [] = n
total_needed n (p ∷ ps) = total_needed (n +ℤ p.count) ps

module _ (v6 : Ipv6) (alloc : StaticAllocator) where
  -- The loop over one pool: rounds left, the number `i`, the index in the address pool, the plan.
  plan_pool : Text → Text → ℕ → ℕ → ℕ → IpPlan → Result Error IpPlan
  plan_pool cluster pool zero i idx plan = ok plan
  plan_pool cluster pool (suc n) i idx plan = bind (ip_config_for_index v6 alloc (pos idx)) (λ cfg.
      plan_pool cluster pool n (i + 1) (idx + 1) (insert (node_name cluster pool i) cfg plan))

  -- The loop over the pools, masters first. Each pool goes on at the index where the last one ended.
  pub plan_pools : Text → List NodePool → ℕ → IpPlan → Result Error IpPlan
  unfolding plan_pool
  plan_pools cluster [] idx plan = ok plan
  plan_pools cluster (p ∷ ps) idx plan =
      bind (plan_pool cluster p.name (rounds p.count) 0 idx plan)
        (λ plan'. plan_pools cluster ps (idx + rounds p.count) plan')

  -- The pool must have an address for every node.
  plan_with : Cluster → Result Error IpPlan
  unfolding plan_pools
  plan_with c =
      if ltb_ℤ (pos (total_ips alloc)) (total_needed c.masters.count c.workers)
      then err (ip_pool_exhausted c.network.node_pool_range)
      else plan_pools c.name (c.masters ∷ c.workers) 0 []

abbrev with_allocator : Ipv6 → Cluster → Result Error StaticAllocator → Result Error IpPlan
with_allocator v6 c (err e) = err e
with_allocator v6 c (ok alloc) = plan_with v6 alloc c

module _ (v6 : Ipv6) where
  -- Pipeline.planIPs. The set of existing addresses that the code builds is never read.
  unfoldable pub plan_ips : Cluster → Result Error IpPlan
  unfolding plan_with new_static_allocator
  plan_ips c =
      if c.network.mode == ip_mode_dhcp
      then ok []
      else with_allocator v6 c
          (new_static_allocator v6 c.network.node_pool_range c.network.cidr c.network.gateway)
