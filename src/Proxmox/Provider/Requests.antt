-- ===== src/Proxmox/Provider/Requests.antt =====
-- What CreateNode of internal/adapter/proxmox/provider.go asks the API for, and the node that it returns.
use proxmox_k3s.Prelude.{List, [], ◌∷◌, ◌++◌, not, ◌&&◌, if◌then◌else◌}
use proxmox_k3s.Prelude.Int.{ℤ, pos}
use proxmox_k3s.Prelude.Text.{Text, codes, ◌==◌, is_empty, join}
use proxmox_k3s.Prelude.Decimal.{decimal_ℤ}
use proxmox_k3s.Domain.Model.{Node, NodeSpec, CloudInitSpec, provisioned, ip_mode_static}
use proxmox_k3s.Proxmox.Tags.{build_tags}
use proxmox_k3s.Proxmox.Vm.{CloneRequest, ConfigRequest, ResizeRequest}

-- `proxmox://%s/%d`
unfoldable pub provider_id : Text → ℤ → Text
provider_id host vmid = codes "proxmox://" ++ (host ++ (b'/' ∷ decimal_ℤ vmid))

-- The requests of CreateNode.
unfoldable pub clone_request : Text → Text → ℤ → NodeSpec → CloneRequest
clone_request storage host vmid spec = record {
  new_id = vmid;
  name = spec.name;
  full = pos 1;
  storage = storage;
  target_node = host;
}

-- The static address is used in static mode if there is one; everything else is DHCP.
unfoldable pub ip_config_of : CloudInitSpec → Text
ip_config_of ci =
    if ci.network_mode == ip_mode_static && not (is_empty ci.ip_config)
    then ci.ip_config
    else codes "ip=dhcp"

-- encodeSSHKeys
unfoldable pub encode_ssh_keys : List Text → Text
unfolding join
encode_ssh_keys keys = join keys (codes "\n")

unfoldable pub config_request : NodeSpec → ConfigRequest
unfolding ip_config_of encode_ssh_keys join
config_request spec = record {
  cores = spec.size.cpu;
  memory = spec.size.memory_mb;
  agent = codes "enabled=1";
  on_boot = pos 1;
  tags = build_tags spec.cluster_name spec;
  ip_config0 = ip_config_of spec.cloud_init;
  ci_user = spec.cloud_init.user;
  ssh_keys = encode_ssh_keys spec.cloud_init.ssh_keys;
  nameserver = join spec.cloud_init.nameservers (codes " ");
  search_domain = [];
  net0 = codes "virtio,bridge=vmbr0";
}

unfoldable pub resize_request : NodeSpec → ResizeRequest
resize_request spec = record {
  disk = codes "scsi0";
  size = decimal_ℤ spec.size.disk_gb ++ codes "G";
}

-- The node that CreateNode returns.
unfoldable pub created_node : Text → ℤ → NodeSpec → Node
created_node host vmid spec = record {
  name = spec.name;
  role = spec.role;
  pool = spec.pool;
  provider_id = provider_id host vmid;
  vmid = vmid;
  host_node = host;
  desired_ip = spec.desired_ip;
  observed_ip = [];
  state = provisioned;
  labels = spec.labels;
  taints = spec.taints;
}
