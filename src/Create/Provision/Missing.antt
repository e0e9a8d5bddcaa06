-- ===== src/Create/Provision/Missing.antt =====
-- Which nodes are missing.
use proxmox_k3s.Prelude.{
  ℕ, zero, suc, ◌+◌, List, [], ◌∷◌, map, map-append, true, not, ◌≡◌, refl, ◌∙◌, arith, All, keep,
  keep-append,
}
use proxmox_k3s.Prelude.Text.{Text, member}
use proxmox_k3s.Prelude.Result.{ok}
use proxmox_k3s.Domain.Size.{NodeRole, master, worker}
use proxmox_k3s.Domain.Model.{Cluster, NodePool, Node, NodeSpec}
use proxmox_k3s.Infra.{InfraProvider}
use proxmox_k3s.Create.Names.{rounds, pool_names, all_pool_names, cluster_names}
use proxmox_k3s.Create.Plan.{IpPlan}
use proxmox_k3s.Create.Provision.{
  spec_of, missing_in_pool, missing_workers, missing, create_all, provision_nodes,
}

abbrev spec_names : List NodeSpec → List Text
spec_names = map (λ (s : NodeSpec). s.name)

-- The names that do not exist yet.
abbrev pub not_in : List Text → List Text → List Text
not_in existing = keep (λ n. not (member n existing))

missing_in_pool-names :
    (c : Cluster) (role : NodeRole) (p : NodePool) (plan : IpPlan) (existing : List Text) (n i : ℕ)
    → spec_names (missing_in_pool c role p plan existing n i)
      ≡ not_in existing (pool_names c.name p.name n i)
unfolding missing_in_pool pool_names spec_of keep
missing_in_pool-names c role p plan existing zero i = refl
missing_in_pool-names c role p plan existing (suc n) i =
    ground (arith, missing_in_pool-names c role p plan existing n (i + 1))

missing_workers-names :
    (c : Cluster) (ps : List NodePool) (plan : IpPlan) (existing : List Text)
    → spec_names (missing_workers c ps plan existing) ≡ not_in existing (all_pool_names c.name ps)
unfolding missing_workers all_pool_names
missing_workers-names c [] plan existing = unfold keep in refl
missing_workers-names c (p ∷ ps) plan existing =
    rw
      (
        map-append,
        keep-append,
        missing_in_pool-names c worker p plan existing,
        missing_workers-names c ps plan existing,
      )
      refl

-- The specifications that are created are those of the cluster's names that no existing node has, in
-- the order of the names.
pub missing-names :
    (c : Cluster) (plan : IpPlan) (existing : List Node)
    → map (λ (s : NodeSpec). s.name) (missing c plan existing)
      ≡ keep (λ n. not (member n (map (λ (e : Node). e.name) existing))) (cluster_names c)
unfolding missing cluster_names all_pool_names
missing-names c plan existing =
    let names = map (λ (e : Node). e.name) existing in
    rw
      (
        map-append,
        keep-append,
        missing_in_pool-names c master c.masters plan names (rounds c.masters.count) 0,
        missing_workers-names c c.workers plan names,
      )
      refl

none_missing :
    (existing ns : List Text) → All (λ n. member n existing ≡ true) ns → not_in existing ns ≡ []
unfolding keep
none_missing existing [] h = refl
none_missing existing (n ∷ ns) (hn, h) = ground (arith, none_missing existing ns h)

no_specs : (specs : List NodeSpec) → spec_names specs ≡ [] → specs ≡ []
no_specs [] h = refl
no_specs (s ∷ specs) h = cc

module _ (I : InfraProvider) where
  open I use {State}

  -- Running `create` again is safe: where a node of each of the cluster's names exists already, no
  -- node is created and the provider's state is unchanged.
  pub provision_nodes_again :
      (c : Cluster) (plan : IpPlan) (existing : List Node) (s : State)
      → All (λ n. member n (map (λ (e : Node). e.name) existing) ≡ true) (cluster_names c)
      → provision_nodes I c plan existing s ≡ (ok [], s)
  unfolding provision_nodes create_all
  provision_nodes_again c plan existing s h =
      rw
        (no_specs (missing c plan existing) (
          missing-names c plan existing
          ∙ none_missing (map (λ (e : Node). e.name) existing) (cluster_names c) h))
        refl
