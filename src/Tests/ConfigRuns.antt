-- ===== src/Tests/ConfigRuns.antt =====
-- Runs of the defaults, the validation and the model of a configuration.
use proxmox_k3s.Prelude.{ℕ, [], ◌∷◌, none, true, false, ◌≡◌, ◌↔◌, refl, ◌||◌, if◌then◌else◌}
use proxmox_k3s.Prelude.Int.{pos}
use proxmox_k3s.Prelude.Text.{Text, codes, ◌==◌, has_prefix}
use proxmox_k3s.Prelude.Result.{Result, ok, err}
use proxmox_k3s.Domain.Model.{Cluster}
use proxmox_k3s.Prelude.Text.Split.{onto}
use proxmox_k3s.Net.{parse_ip, parse_cidr}
use proxmox_k3s.Domain.Size.{resolve_size, size_by_name, validate_size}
use proxmox_k3s.Config.Schema.{Config, PoolConfig}
use proxmox_k3s.Config.Defaults.{apply_defaults}
use proxmox_k3s.Config.ToModel.{to_model}
use proxmox_k3s.Config.Validate.{cluster}
use proxmox_k3s.Config.Validate.Accepted.{IsValid, cluster_iff}
use proxmox_k3s.Config.Validate.Modelled.{IsReady, to_model-IsReady}
use proxmox_k3s.Tests.Fixtures.{only_v4}

abbrev pub pool : Text → Text → ℕ → PoolConfig
pool name size count = record {
  name = name;
  count = pos count;
  size = size;
  resources = none;
  labels = [];
  taints = [];
  autoscaling = none;
}

-- A file that leaves out what has a default.
abbrev pub sparse : Config
sparse = record {
  cluster_name = codes "lab";
  provider = [];
  proxmox = record {
    endpoint = codes "https://pve:8006";
    token_id = codes "root@pam!k3s";
    token_secret = codes "s3cret";
    insecure_skip_tls = true;
    ca_file = [];
    target_nodes = [];
    template = codes "ubuntu";
    storage = codes "local";
    snippets_storage = [];
    placement_strategy = [];
    vmid_range = [];
  };
  networking = record {
    mode = [];
    bridge = [];
    vlan_tag = pos 0;
    cidr = codes "10.0.0.0/24";
    gateway = codes "10.0.0.1";
    nameservers = [];
    node_pool_range = codes "10.0.0.10-10.0.0.14";
    control_plane_vip = codes "10.0.0.9";
    ssh = record {
      public_key_path = codes "~/.ssh/id.pub";
      private_key_path = codes "~/.ssh/id";
      port = pos 0;
    };
  };
  k3s = record { version = []; cni = []; cluster_cidr = []; service_cidr = []; disable = [] };
  masters_pool = pool [] [] 0;
  worker_pools = pool (codes "w") [] 2 ∷ [];
  addons = record {
    kube_vip = record { enabled = true };
    metal_lb = record { enabled = false; address_pool = [] };
  };
}

abbrev full : Config
full = apply_defaults (codes "/root") sparse

-- A file system with two keys.
abbrev pub keys : Text → Result Text Text
keys path =
    if path == codes "/root/.ssh/id" || path == codes "/root/.ssh/id.pub"
    then ok (codes "key")
    else err (codes "no such file")

cluster_iff_example : (cluster only_v4 keys full ≡ ok tt) ↔ IsValid only_v4 keys full
cluster_iff_example = cluster_iff only_v4 keys full

accepted : cluster only_v4 keys full ≡ ok tt
unfolding cluster apply_defaults has_prefix parse_ip onto ◌==◌ parse_cidr resolve_size size_by_name
    validate_size
accepted = refl

to_model-IsReady_example : (m : Cluster) × (to_model keys full ≡ ok m) × IsReady only_v4 keys full m
to_model-IsReady_example = to_model-IsReady only_v4 keys full accepted
