-- ===== src/Config/Schema.antt =====
-- internal/config/schema.go: the configuration as it is read. A nil pointer is `none`.
use proxmox_k3s.Prelude.{List, Option, Bool}
use proxmox_k3s.Prelude.Int.{ℤ}
use proxmox_k3s.Prelude.Text.{Text}

pub record ProxmoxConfig : Type 0 where
  pub endpoint : Text
  pub token_id : Text
  pub token_secret : Text
  pub insecure_skip_tls : Bool
  pub ca_file : Text
  pub target_nodes : List Text
  pub template : Text
  pub storage : Text
  pub snippets_storage : Text
  pub placement_strategy : Text
  pub vmid_range : List ℤ

pub record SshConfig : Type 0 where
  pub public_key_path : Text
  pub private_key_path : Text
  pub port : ℤ

pub record NetworkConfig : Type 0 where
  pub mode : Text
  pub bridge : Text
  pub vlan_tag : ℤ
  pub cidr : Text
  pub gateway : Text
  pub nameservers : List Text
  pub node_pool_range : Text
  pub control_plane_vip : Text
  pub ssh : SshConfig

pub record K3sConfig : Type 0 where
  pub version : Text
  pub cni : Text
  pub cluster_cidr : Text
  pub service_cidr : Text
  pub disable : List Text

pub record ResourceOverride : Type 0 where
  pub cpu : ℤ
  pub memory_mb : ℤ
  pub disk_gb : ℤ

pub record AutoscalingConfig : Type 0 where
  pub enabled : Bool
  pub min : ℤ
  pub max : ℤ

pub record PoolConfig : Type 0 where
  pub name : Text
  pub count : ℤ
  pub size : Text
  pub resources : Option ResourceOverride
  pub labels : List (Text × Text)
  pub taints : List Text
  pub autoscaling : Option AutoscalingConfig

pub record KubeVipConfig : Type 0 where
  pub enabled : Bool

pub record MetalLbConfig : Type 0 where
  pub enabled : Bool
  pub address_pool : Text

pub record AddonsConfig : Type 0 where
  pub kube_vip : KubeVipConfig
  pub metal_lb : MetalLbConfig

pub record Config : Type 0 where
  pub cluster_name : Text
  pub provider : Text
  pub proxmox : ProxmoxConfig
  pub networking : NetworkConfig
  pub k3s : K3sConfig
  pub masters_pool : PoolConfig
  pub worker_pools : List PoolConfig
  pub addons : AddonsConfig
