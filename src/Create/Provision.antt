-- ===== src/Create/Provision.antt =====
-- Phase 4, provisionNodes: the nodes that are missing are created one after the other; if one cannot
-- be created, those created before it in this run are deleted again.
pub mod Rollback
pub mod Missing
pub mod Converged
use proxmox_k3s.Prelude.{
  ℕ, zero, suc, ◌+◌, List, [], ◌∷◌, ◌++◌, map, Option, none, some, Bool, true, false, not,
  if◌then◌else◌,
}
use proxmox_k3s.Prelude.Text.{Text, codes, member}
use proxmox_k3s.Prelude.Dict.{lookup}
use proxmox_k3s.Prelude.Result.{Result, ok, err, Exec}
use proxmox_k3s.Domain.Error.{Error, wrap}
use proxmox_k3s.Domain.Size.{NodeRole, master, worker}
use proxmox_k3s.Domain.Model.{Cluster, NodePool, Node, NodeSpec, CloudInitSpec}
use proxmox_k3s.Infra.{InfraProvider}
use proxmox_k3s.Create.Names.{node_name, rounds}
use proxmox_k3s.Create.Plan.{IpPlan}

-- A missing key of a map reads as the empty text.
or_empty : Option Text → Text
or_empty none = []
or_empty (some t) = t

-- The specification of node `i` of a pool.
unfoldable pub spec_of : Cluster → NodeRole → NodePool → IpPlan → ℕ → NodeSpec
unfolding or_empty
spec_of c role p plan i = record {
  name = node_name c.name p.name i;
  cluster_name = c.name;
  role = role;
  pool = p.name;
  size = p.size;
  host_node = [];
  desired_ip = [];
  labels = p.labels;
  taints = p.taints;
  cloud_init = record {
    user = codes "ubuntu";
    ssh_keys = c.network.ssh.public_key ∷ [];
    nameservers = c.network.nameservers;
    search_domain = [];
    network_mode = c.network.mode;
    ip_config = or_empty (lookup (node_name c.name p.name i) plan);
    gateway = c.network.gateway;
  };
}

-- The loop over one pool, which passes over the names that exist.
unfoldable pub missing_in_pool :
    Cluster → NodeRole → NodePool → IpPlan → List Text → ℕ → ℕ → List NodeSpec
missing_in_pool c role p plan existing zero i = []
missing_in_pool c role p plan existing (suc n) i =
    let rest = missing_in_pool c role p plan existing n (i + 1) in
    if member (node_name c.name p.name i) existing then rest else spec_of c role p plan i ∷ rest

unfoldable pub missing_workers : Cluster → List NodePool → IpPlan → List Text → List NodeSpec
unfolding missing_in_pool
missing_workers c [] plan existing = []
missing_workers c (p ∷ ps) plan existing =
    missing_in_pool c worker p plan existing (rounds p.count) 0
    ++ missing_workers c ps plan existing

-- `toCreate`: what the cluster wants and does not have, masters first.
unfoldable pub missing : Cluster → IpPlan → List Node → List NodeSpec
unfolding missing_workers
missing c plan existing =
    let names = map (λ (n : Node). n.name) existing in
    missing_in_pool c master c.masters plan names (rounds c.masters.count) 0
    ++ missing_workers c c.workers plan names

module _ (I : InfraProvider) where
  open I use {State, create_node, delete_node}

  -- Pipeline.rollback: every node is deleted in turn, and a failure is only logged.
  unfoldable pub rollback : List Node → State → State
  rollback [] s = s
  rollback (n ∷ ns) s = rollback ns (delete_node n s).1

  -- What the loop does with the answer of CreateNode, given how it goes on.
  after_create :
      NodeSpec
      → List Node
      → (List Node → Exec State Error (List Node))
      → Result Error Node
      → Exec State Error (List Node)
  after_create spec created next (ok n) s = next (created ++ n ∷ []) s
  after_create spec created next (err e) s =
      (err (wrap (codes "creating " ++ spec.name) e), rollback created s)

  -- The loop over `toCreate`, with the nodes created so far.
  unfoldable pub create_all : List NodeSpec → List Node → Exec State Error (List Node)
  unfolding after_create
  create_all [] created s = (ok created, s)
  create_all (spec ∷ specs) created s =
      let (r, s') = create_node spec s in after_create spec created (create_all specs) r s'

  -- Pipeline.provisionNodes
  unfoldable pub provision_nodes : Cluster → IpPlan → List Node → Exec State Error (List Node)
  unfolding create_all missing
  provision_nodes c plan existing = create_all (missing c plan existing) []
