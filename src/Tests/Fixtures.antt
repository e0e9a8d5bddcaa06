-- ===== src/Tests/Fixtures.antt =====
-- A small cluster, a provider with a bound on its VMs, and the parameters of the models as concrete
-- functions.
use proxmox_k3s.Prelude.{ℕ, List, [], ◌∷◌, none, true, false, not, if◌then◌else◌, keep, length, ltb}
use proxmox_k3s.Prelude.Int.{ℤ, pos}
use proxmox_k3s.Prelude.Text.{Text, codes, ◌==◌}
use proxmox_k3s.Prelude.Result.{ok, err, Exec}
use proxmox_k3s.Domain.Error.{Error, api, no_nodes_available}
use proxmox_k3s.Domain.Size.{master, zero_size}
use proxmox_k3s.Domain.Model.{Cluster, NodePool, Node, NodeSpec, provisioned}
use proxmox_k3s.Net.{Ip, Ipv6}
use proxmox_k3s.Ipam.Pool.{StaticAllocator}
use proxmox_k3s.Proxmox.Node.{PveNode}
use proxmox_k3s.Proxmox.Placement.{Floats}
use proxmox_k3s.Infra.{InfraProvider}

-- No IPv6.
abbrev pub only_v4 : Ipv6
only_v4 = record { parse = λ s. none; print = λ ip. []; parse-IsIp = λ s e. cc }

-- Whole numbers in place of floating point.
abbrev pub whole : ℤ → ℕ
whole (pos n) = n
whole _ = 0

abbrev pub floats : Floats
floats = record { Float = ℕ; ratio = λ x y. whole x; two = 1000; lt = ltb }

abbrev pub pool : Text → ℕ → NodePool
pool name n = record {
  name = name;
  count = pos n;
  size = zero_size;
  labels = [];
  taints = [];
  autoscaling = none;
}

-- Three masters and two workers on four or more addresses.
abbrev pub cluster_on : Text → Cluster
cluster_on range = record {
  name = codes "lab";
  masters = pool (codes "master") 3;
  workers = pool (codes "w") 2 ∷ [];
  network = record {
    mode = codes "static";
    bridge = codes "vmbr0";
    vlan_tag = pos 0;
    cidr = codes "10.0.0.0/24";
    gateway = codes "10.0.0.1";
    nameservers = [];
    node_pool_range = range;
    control_plane_vip = [];
    ssh = record { public_key_path = []; private_key_path = []; port = pos 22; public_key = [] };
  };
  k3s = record { version = []; cni = []; cluster_cidr = []; service_cidr = []; disable_items = [] };
  addons = record {
    kube_vip_enabled = true;
    metal_lb = record { enabled = false; address_pool = [] };
  };
  proxmox = record {
    endpoint = [];
    token_id = [];
    token_secret = [];
    insecure_skip_tls = false;
    ca_file = [];
    target_nodes = [];
    template = [];
    storage = [];
    snippets_storage = [];
    placement_strategy = [];
    vmid_range = (pos 0, pos 0);
  };
}

abbrev pub lab : Cluster
lab = cluster_on (codes "10.0.0.10-10.0.0.14")

abbrev pub node : Text → Node
node name = record {
  name = name;
  role = master;
  pool = codes "master";
  provider_id = [];
  vmid = pos 100;
  host_node = codes "pve1";
  desired_ip = [];
  observed_ip = [];
  state = provisioned;
  labels = [];
  taints = [];
}

-- A provider that keeps the names of its VMs, at most so many. The VM `stuck` cannot be deleted.
abbrev pub add_vm : ℕ → NodeSpec → Exec (List Text) Error Node
add_vm bound spec vms =
    if ltb (length vms) bound
    then (ok (node spec.name), spec.name ∷ vms)
    else (err no_nodes_available, vms)

abbrev pub remove_vm : Node → Exec (List Text) Error Unit
remove_vm n vms =
    if n.name == codes "stuck"
    then (err (api (codes "locked")), vms)
    else (ok tt, keep (λ m. not (m == n.name)) vms)

abbrev pub nodes_named : List Text → List Node
nodes_named [] = []
nodes_named (v ∷ vms) = node v ∷ nodes_named vms

abbrev pub small_provider : ℕ → InfraProvider
small_provider bound = record {
  State = List Text;
  preflight = λ c s. (ok tt, s);
  list_nodes = λ c s. (ok (nodes_named s), s);
  create_node = add_vm bound;
  delete_node = remove_vm;
  wait_ready = λ n s. (ok n, s);
}

abbrev pub host : Text → Text → PveNode
host name status = record {
  name = name;
  status = status;
  max_cpu = pos 4;
  mem = pos 1;
  max_mem = pos 2;
  disk = pos 0;
  max_disk = pos 0;
}

abbrev pub at : ℕ → Ip
at n = 0 ∷ 0 ∷ 0 ∷ 0 ∷ 0 ∷ 0 ∷ 0 ∷ 0 ∷ 0 ∷ 0 ∷ 255 ∷ 255 ∷ 10 ∷ 0 ∷ 0 ∷ n ∷ []

abbrev pub five : StaticAllocator
five = record {
  pool = record { start = at 14; end = at 14; ips = at 10 ∷ at 11 ∷ at 12 ∷ at 13 ∷ at 14 ∷ [] };
  cidr = codes "10.0.0.0/24";
  gateway = codes "10.0.0.1";
}
