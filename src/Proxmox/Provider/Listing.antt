-- ===== src/Proxmox/Provider/Listing.antt =====
-- Which VMs ListNodes finds.
use proxmox_k3s.Prelude.{
  List, [], ◌∷◌, true, false, ◌≡◌, refl, arith, keep_pass, keep_drop, if◌then◌else◌, Bool-cases,
  inl, inr, same_test, ◌↔◌, ◌∙◌,
}
use proxmox_k3s.Prelude.Text.{Text, codes, ◌==◌, eq_iff}
use proxmox_k3s.Domain.Size.{NodeRole, master, worker}
use proxmox_k3s.Domain.Model.{Node, NodeSpec, provisioned}
use proxmox_k3s.Proxmox.Node.{ClusterResource, is_one}
use proxmox_k3s.Proxmox.Tags.{tag, tag_cluster, tag_role, build_tags, has_tag}
use proxmox_k3s.Proxmox.Tags.RoundTrip.{
  IsPlain, has_tag-cluster_iff, has_tag-role_iff, extract_tag-pool,
}
use proxmox_k3s.Proxmox.Provider.{provider_id, node_of, is_listed, nodes_of}

-- A VM that CreateNode tagged for a specification, as the API lists it.
abbrev pub IsTagged : Text → NodeSpec → ClusterResource → Type 0
IsTagged cluster spec r = (r.tags ≡ build_tags cluster spec) × (is_one r.template ≡ false)

-- The node that ListNodes makes of such a VM.
abbrev pub listed_node : NodeSpec → ClusterResource → Node
listed_node spec r = record {
  name = r.name;
  role = spec.role;
  pool = spec.pool;
  provider_id = provider_id r.node r.vmid;
  vmid = r.vmid;
  host_node = r.node;
  desired_ip = [];
  observed_ip = [];
  state = provisioned;
  labels = [];
  taints = [];
}

module _ (cluster : Text) (spec : NodeSpec) (r : ClusterResource) (hc : IsPlain cluster)
    (hp : IsPlain spec.pool) (tagged : IsTagged cluster spec r) where
  is_listed-tagged : (other : Text) → is_listed other r ≡ (cluster == other)
  unfolding is_listed
  is_listed-tagged other =
      rw (tagged.0, tagged.1)
        (same_test (has_tag (build_tags cluster spec) (tag tag_cluster other)) (cluster == other)
          (λ h. (eq_iff cluster other).1 ((has_tag-cluster_iff cluster spec hc hp other).0 h))
          (λ h. (has_tag-cluster_iff cluster spec hc hp other).1 ((eq_iff cluster other).0 h)))

  role_of-tagged :
      (if has_tag (build_tags cluster spec) (tag tag_role (codes "master")) then master else worker)
      ≡ spec.role
  role_of-tagged = by_role spec.role (has_tag-role_iff cluster spec hc hp)
    where
      by_role :
          (role : NodeRole)
          → (has_tag (build_tags cluster spec) (tag tag_role (codes "master")) ≡ true)
            ↔ (role ≡ master)
          → (if has_tag (build_tags cluster spec) (tag tag_role (codes "master"))
              then master
              else worker)
            ≡ role
      by_role master h = rw (h.1 refl) refl
      by_role worker h = ground arith

  node_of-tagged : node_of r ≡ listed_node spec r
  unfolding node_of
  node_of-tagged = rw (tagged.0, role_of-tagged, extract_tag-pool cluster spec hc hp) refl

  -- A VM that is no template and has the tags of a cluster and a specification, whose cluster and
  -- pool names have no space and no semicolon, is listed for that cluster and for no other; and its
  -- node has the role and the pool of the specification, with the name, number and host of the VM.
  pub nodes_of-tagged :
      (other : Text) (rs : List ClusterResource)
      → nodes_of other (r ∷ rs)
        ≡ (if cluster == other then listed_node spec r ∷ nodes_of other rs else nodes_of other rs)
  unfolding nodes_of
  nodes_of-tagged other rs = elim (Bool-cases (cluster == other)) [
    | inl e ↦
        rw (e, keep_pass (is_listed other) r rs (is_listed-tagged other ∙ e))
          (rw node_of-tagged refl)
    | inr e ↦ rw (e, keep_drop (is_listed other) r rs (is_listed-tagged other ∙ e)) refl
  ]
