-- ===== src/Create/Provision/Converged.antt =====
-- The names of the cluster and those of the nodes after provisionNodes.
use proxmox_k3s.Prelude.{
  ℕ, List, [], ◌∷◌, ◌++◌, map, map-append, Bool, true, not, ◌≡◌, refl, sym, ap, ◌∙◌, arith, keep,
  inl, inr, Bool-cases,
}
use proxmox_k3s.Prelude.Text.{Text, eq_iff, member}
use proxmox_k3s.Prelude.Result.{ok, ok-injective}
use proxmox_k3s.Domain.Model.{Cluster, Node, NodeSpec}
use proxmox_k3s.Proxmox.Placement.{Floats}
use proxmox_k3s.Proxmox.Api.{Api}
use proxmox_k3s.Proxmox.Provider.{created_node}
use proxmox_k3s.Proxmox.Provider.Created.{create_node-created_node}
use proxmox_k3s.Infra.{InfraProvider, proxmox_provider}
use proxmox_k3s.Create.Names.{cluster_names, member-append}
use proxmox_k3s.Create.Plan.{IpPlan}
use proxmox_k3s.Create.Provision.{missing, provision_nodes}
use proxmox_k3s.Create.Provision.Missing.{missing-names}
use proxmox_k3s.Create.Provision.Rollback.{Creates, none_left, one_more, provision_nodes_outcome}

-- A provider that gives a node the name of its specification.
pub record KeepsNames (I : InfraProvider) : Type 0 where
  pub keeps :
      (spec : NodeSpec) (s t : I.State) (n : Node)
      → I.create_node spec s ≡ (ok n, t)
      → n.name ≡ spec.name

-- The Proxmox provider is such a provider, over any API.
pub proxmox_provider-KeepsNames :
    (floats : Floats) (A : Api) (template storage : Text) (rounds : ℕ)
    → KeepsNames (proxmox_provider floats A template storage rounds)
unfolding created_node
proxmox_provider-KeepsNames floats A template storage rounds = record {
  keeps = λ spec s t n h.
      let (chosen, vmid, e) = create_node-created_node floats A template storage spec s t n h in
      ap (λ (x : Node). x.name) e;
}

member-keep :
    (p : Text → Bool) (n : Text) (ns : List Text)
    → p n ≡ true
    → member n ns ≡ true
    → member n (keep p ns) ≡ true
unfolding member keep
member-keep p n [] hp h = h
member-keep p n (m ∷ ns) hp h = ground (arith, member-keep p n ns hp, eq_iff n m)

module _ (I : InfraProvider) (law : KeepsNames I) where
  Creates-names :
      (specs : List NodeSpec) (ns : List Node) (s t : I.State)
      → Creates I s specs ns t
      → map (λ (n : Node). n.name) ns ≡ map (λ (x : NodeSpec). x.name) specs
  Creates-names [] [] s t none_left = refl
  Creates-names [] (n ∷ ns) s t made = elim made [ ]
  Creates-names (spec ∷ specs) [] s t made = elim made [ ]
  Creates-names (spec ∷ specs) (n ∷ ns) s t (one_more {t = mid} h made) =
      cc (law.keeps spec s mid n h, Creates-names specs ns mid t made)

  -- Given a provider that gives each node the name of its specification: if provisioning succeeds,
  -- every name of the cluster is the name of a node that existed or was created, and the created
  -- nodes have the cluster's names that no existing node had, in order.
  pub provision_nodes_converges :
      (c : Cluster) (plan : IpPlan) (existing ns : List Node) (s t : I.State)
      → provision_nodes I c plan existing s ≡ (ok ns, t)
      → (map (λ (n : Node). n.name) ns
          ≡ keep (λ n. not (member n (map (λ (e : Node). e.name) existing))) (cluster_names c))
        × ((n : Text)
            → member n (cluster_names c) ≡ true
            → member n (map (λ (e : Node). e.name) (existing ++ ns)) ≡ true)
  provision_nodes_converges c plan existing ns s t h = (names, covered)
    where
      old : List Text
      old = map (λ (e : Node). e.name) existing

      names : map (λ (n : Node). n.name) ns ≡ keep (λ n. not (member n old)) (cluster_names c)
      names = elim (provision_nodes_outcome I c plan existing s) [
        | inl (made, u, creates, e) ↦
            ap (map (λ (n : Node). n.name)) (ok-injective ns made t u (sym h ∙ e))
            ∙ (Creates-names (missing c plan existing) made s u creates
                ∙ missing-names c plan existing)
        | inr (f, u, removes, e) ↦ cc (h, e)
      ]

      covered :
          (n : Text)
          → member n (cluster_names c) ≡ true
          → member n (map (λ (e : Node). e.name) (existing ++ ns)) ≡ true
      covered n hn = elim (Bool-cases (member n old)) [
        | inl e ↦ rw (map-append, member-append, e) refl
        | inr e ↦
            rw (map-append, member-append, e, names)
              (member-keep (λ m. not (member m old)) n (cluster_names c) (rw e refl) hn)
      ]
