-- ===== src/Tests/WholeRuns.antt =====
-- Runs of the phases as a whole.
use proxmox_k3s.Prelude.{
  List, [], ◌∷◌, ◌++◌, map, true, not, ◌≡◌, refl, keep, length, ltb, Bool-cases, inl, inr,
}
use proxmox_k3s.Prelude.Decimal.{decimal}
use proxmox_k3s.Prelude.Text.{Text, codes, ◌==◌, member}
use proxmox_k3s.Prelude.Result.{ok}
use proxmox_k3s.Domain.Model.{Node, NodeSpec}
use proxmox_k3s.Create.Names.{node_name, cluster_names}
use proxmox_k3s.Create.Provision.{missing, spec_of, provision_nodes}
use proxmox_k3s.Create.Provision.Converged.{KeepsNames, provision_nodes_converges}
use proxmox_k3s.Tests.Fixtures.{lab, node, small_provider, nodes_named}

small-KeepsNames : KeepsNames (small_provider 5)
small-KeepsNames = record { keeps = λ spec s t n h. kept spec s t n h }
  where
    kept :
        (spec : NodeSpec) (s t : List Text) (n : Node)
        → (small_provider 5).create_node spec s ≡ (ok n, t)
        → n.name ≡ spec.name
    kept spec s t n h = elim (Bool-cases (ltb (length s) 5)) [
      | inl e ↦ cc (rw e at h)
      | inr e ↦ cc (rw e at h)
    ]

-- What is created where the cluster's first worker exists already.
abbrev made : List Node
made =
    node (codes "lab-master-1")
    ∷ node (codes "lab-master-2")
    ∷ node (codes "lab-master-3")
    ∷ node (codes "lab-w-2")
    ∷ []

abbrev before : List Text
before = codes "lab-w-1" ∷ []

abbrev after : List Text
after =
    codes "lab-w-2"
    ∷ codes "lab-master-3"
    ∷ codes "lab-master-2"
    ∷ codes "lab-master-1"
    ∷ codes "lab-w-1"
    ∷ []

provisioned_lab :
    provision_nodes (small_provider 5) lab [] (nodes_named before) before ≡ (ok made, after)
unfolding provision_nodes missing node_name spec_of member ◌==◌ decimal
provisioned_lab = refl

provision_nodes_converges_example :
    (map (λ (n : Node). n.name) made
      ≡ keep
          (λ n. not (member n (map (λ (e : Node). e.name) (nodes_named before))))
          (cluster_names lab))
    × ((n : Text)
        → member n (cluster_names lab) ≡ true
        → member n (map (λ (e : Node). e.name) (nodes_named before ++ made)) ≡ true)
provision_nodes_converges_example =
    provision_nodes_converges (small_provider 5) small-KeepsNames lab [] (nodes_named before) made
      before after provisioned_lab
