-- ===== src/Domain/Model.antt =====
-- internal/domain/{cluster,network,node,nodepool}.go: the types that the adapters and use cases pass
-- on. Maps of labels are association lists.
use proxmox_k3s.Prelude.{List, Option, Bool, if◌then◌else◌}
use proxmox_k3s.Prelude.Int.{ℤ}
use proxmox_k3s.Prelude.Text.{Text, codes, is_empty}
use proxmox_k3s.Domain.Size.{NodeRole, VmSize}

-- IPMode is a string type; a configuration may hold any text.
abbrev pub ip_mode_static : Text
ip_mode_static = codes "static"

abbrev pub ip_mode_dhcp : Text
ip_mode_dhcp = codes "dhcp"

pub record SshConfig : Type 0 where
  pub public_key_path : Text
  pub private_key_path : Text
  pub port : ℤ
  pub public_key : Text

pub record NetworkPlan : Type 0 where
  pub mode : Text
  pub bridge : Text
  pub vlan_tag : ℤ
  pub cidr : Text
  pub gateway : Text
  pub nameservers : List Text
  pub node_pool_range : Text
  pub control_plane_vip : Text
  pub ssh : SshConfig

pub data NodeState : Type 0 where
  pending provisioned joined orphan unhealthy : NodeState

pub record Node : Type 0 where
  pub name : Text
  pub role : NodeRole
  pub pool : Text
  pub provider_id : Text
  pub vmid : ℤ
  pub host_node : Text
  pub desired_ip : Text
  pub observed_ip : Text
  pub state : NodeState
  pub labels : List (Text × Text)
  pub taints : List Text

-- Node.IP
unfoldable pub node_ip : Node → Text
node_ip n = if is_empty n.observed_ip then n.desired_ip else n.observed_ip

pub record AutoscalingConfig : Type 0 where
  pub enabled : Bool
  pub min : ℤ
  pub max : ℤ

pub record NodePool : Type 0 where
  pub name : Text
  pub count : ℤ
  pub size : VmSize
  pub labels : List (Text × Text)
  pub taints : List Text
  pub autoscaling : Option AutoscalingConfig

pub record CloudInitSpec : Type 0 where
  pub user : Text
  pub ssh_keys : List Text
  pub nameservers : List Text
  pub search_domain : Text
  pub network_mode : Text
  pub ip_config : Text
  pub gateway : Text

pub record NodeSpec : Type 0 where
  pub name : Text
  pub cluster_name : Text
  pub role : NodeRole
  pub pool : Text
  pub size : VmSize
  pub host_node : Text
  pub desired_ip : Text
  pub labels : List (Text × Text)
  pub taints : List Text
  pub cloud_init : CloudInitSpec

pub record K3sConfig : Type 0 where
  pub version : Text
  pub cni : Text
  pub cluster_cidr : Text
  pub service_cidr : Text
  pub disable_items : List Text

pub record MetalLbConfig : Type 0 where
  pub enabled : Bool
  pub address_pool : Text

pub record AddonsConfig : Type 0 where
  pub kube_vip_enabled : Bool
  pub metal_lb : MetalLbConfig

pub record ProxmoxConfig : Type 0 where
  pub endpoint : Text
  pub token_id : Text
  pub token_secret : Text
  pub insecure_skip_tls : Bool
  pub ca_file : Text
  pub target_nodes : List Text
  pub template : Text
  pub storage : Text
  pub snippets_storage : Text
  pub placement_strategy : Text
  pub vmid_range : ℤ × ℤ

pub record Cluster : Type 0 where
  pub name : Text
  pub masters : NodePool
  pub workers : List NodePool
  pub network : NetworkPlan
  pub k3s : K3sConfig
  pub addons : AddonsConfig
  pub proxmox : ProxmoxConfig
