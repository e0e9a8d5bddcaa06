-- ===== src/Config/ToModel.antt =====
-- internal/config/tomodel.go: the model of a configuration. `read_file` is os.ReadFile, with the text
-- of its error.
use proxmox_k3s.Prelude.{ℕ, ◌+◌, List, [], ◌∷◌, ◌++◌, Option, none, some, if◌then◌else◌}
use proxmox_k3s.Prelude.Int.{ℤ, pos}
use proxmox_k3s.Prelude.Text.{Text, codes, is_empty, trim_space}
use proxmox_k3s.Prelude.Decimal.{decimal}
use proxmox_k3s.Prelude.Result.{Result, ok, map_err, bind}
use proxmox_k3s.Domain.Error.{Error, api, wrap}
use proxmox_k3s.Domain.Size.{VmSize, resolve_size}
use proxmox_k3s.Domain.Model.{AutoscalingConfig, NodePool, NetworkPlan, Cluster}
use proxmox_k3s.Config.Schema.{Config, PoolConfig, ResourceOverride}
use proxmox_k3s.Config.Schema

-- The overrides of a pool, zero where there are none.
abbrev pub override_of : Option ResourceOverride → ResourceOverride
override_of none = record { cpu = pos 0; memory_mb = pos 0; disk_gb = pos 0 }
override_of (some r) = r

-- The size that a pool asks for.
abbrev pub pool_size : PoolConfig → Result Error VmSize
pool_size p = let r = override_of p.resources in resolve_size p.size r.cpu r.memory_mb r.disk_gb

abbrev autoscaling_of : Option Schema.AutoscalingConfig → Option AutoscalingConfig
autoscaling_of none = none
autoscaling_of (some a) = some (record { enabled = a.enabled; min = a.min; max = a.max })

abbrev pub sized_pool : Text → PoolConfig → VmSize → NodePool
sized_pool name p s = record {
  name = name;
  count = p.count;
  size = s;
  labels = p.labels;
  taints = p.taints;
  autoscaling = autoscaling_of p.autoscaling;
}

unfoldable pub pool_to_model : Text → PoolConfig → Result Error NodePool
unfolding resolve_size
pool_to_model name p = bind (pool_size p) (λ s. ok (sized_pool name p s))

-- The loop over the worker pools from number `i` on.
unfoldable pub workers_to_model : ℕ → List PoolConfig → Result Error (List NodePool)
unfolding pool_to_model
workers_to_model i [] = ok []
workers_to_model i (p ∷ ps) =
    bind
      (map_err (wrap (codes "worker_node_pools[" ++ (decimal i ++ codes "]")))
        (pool_to_model p.name p))
      (λ w. bind (workers_to_model (i + 1) ps) (λ ws. ok (w ∷ ws)))

-- Only a list of two numbers is a range.
abbrev range_of : List ℤ → ℤ × ℤ
range_of (a ∷ b ∷ []) = (a, b)
range_of _ = (pos 0, pos 0)

abbrev network_of : Config → Text → NetworkPlan
network_of c key =
    let n = c.networking in
    record {
      mode = n.mode;
      bridge = n.bridge;
      vlan_tag = n.vlan_tag;
      cidr = n.cidr;
      gateway = n.gateway;
      nameservers = n.nameservers;
      node_pool_range = n.node_pool_range;
      control_plane_vip = n.control_plane_vip;
      ssh = record {
        public_key_path = n.ssh.public_key_path;
        private_key_path = n.ssh.private_key_path;
        port = n.ssh.port;
        public_key = trim_space key;
      };
    }

abbrev pub cluster_of : Config → NodePool → List NodePool → Text → Cluster
cluster_of c masters workers key = record {
  name = c.cluster_name;
  masters = masters;
  workers = workers;
  network = network_of c key;
  k3s = record {
    version = c.k3s.version;
    cni = c.k3s.cni;
    cluster_cidr = c.k3s.cluster_cidr;
    service_cidr = c.k3s.service_cidr;
    disable_items = c.k3s.disable;
  };
  addons = record {
    kube_vip_enabled = c.addons.kube_vip.enabled;
    metal_lb = record {
      enabled = c.addons.metal_lb.enabled;
      address_pool = c.addons.metal_lb.address_pool;
    };
  };
  proxmox = record {
    endpoint = c.proxmox.endpoint;
    token_id = c.proxmox.token_id;
    token_secret = c.proxmox.token_secret;
    insecure_skip_tls = c.proxmox.insecure_skip_tls;
    ca_file = c.proxmox.ca_file;
    target_nodes = c.proxmox.target_nodes;
    template = c.proxmox.template;
    storage = c.proxmox.storage;
    snippets_storage = c.proxmox.snippets_storage;
    placement_strategy = c.proxmox.placement_strategy;
    vmid_range = range_of c.proxmox.vmid_range;
  };
}

module _ (read_file : Text → Result Text Text) where
  -- readFile: no path, no text.
  unfoldable pub key_text : Text → Result Error Text
  key_text path =
      if is_empty path
      then ok []
      else map_err (λ e. wrap (codes "reading public key") (api e)) (read_file path)

  -- ToModel. The masters' pool is named `master`, whatever the configuration calls it.
  unfoldable pub to_model : Config → Result Error Cluster
  unfolding workers_to_model key_text
  to_model c =
      bind (map_err (wrap (codes "masters_pool")) (pool_to_model (codes "master") c.masters_pool))
        (λ masters. bind (workers_to_model 0 c.worker_pools) (λ workers.
          bind (key_text c.networking.ssh.public_key_path)
            (λ key. ok (cluster_of c masters workers key))))
