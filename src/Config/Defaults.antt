-- ===== src/Config/Defaults.antt =====
-- internal/config/loader.go: applyDefaults and expandHome. Load and expandEnv are in Config.Load;
-- the home directory is a parameter.
pub mod Stable
use proxmox_k3s.Prelude.{
  ℕ, List, [], ◌∷◌, ◌++◌, map, Option, none, some, Bool, true, false, ◌&&◌, ◌||◌, leb, eqb,
  if◌then◌else◌,
}
use proxmox_k3s.Prelude.Int.{ℤ, pos, is_zero}
use proxmox_k3s.Prelude.Text.{Text, codes, is_empty, has_prefix}
use proxmox_k3s.Config.Schema.{
  Config, ProxmoxConfig, NetworkConfig, SshConfig, K3sConfig, PoolConfig, ResourceOverride,
}

-- `if t == "" { t = d }`
unfoldable pub or_default : Text → Text → Text
or_default t d = if is_empty t then d else t

-- `if n == 0 { n = d }`
unfoldable pub or_number : ℤ → ℤ → ℤ
or_number n d = if is_zero n then d else n

abbrev pub is_nil : Option ResourceOverride → Bool
is_nil none = true
is_nil (some r) = false

-- A pool without a size name and without resources gets the size.
unfoldable pub size_or : Text → Option ResourceOverride → Text → Text
size_or size r d = if is_empty size && is_nil r then d else size

abbrev pub tail : Text → Text
tail [] = []
tail (c ∷ s) = s

-- expandHome, where the home directory is `home`.
unfoldable pub expand_home : Text → Text → Text
expand_home home path = if has_prefix path (codes "~/") then home ++ tail path else path

default_proxmox : ProxmoxConfig → ProxmoxConfig
unfolding or_default
default_proxmox p = record p {
  placement_strategy = or_default p.placement_strategy (codes "round-robin");
}

default_ssh : Text → SshConfig → SshConfig
unfolding or_number expand_home
default_ssh home s = record {
  public_key_path = expand_home home s.public_key_path;
  private_key_path = expand_home home s.private_key_path;
  port = or_number s.port (pos 22);
}

default_network : Text → NetworkConfig → NetworkConfig
unfolding default_ssh or_default
default_network home n = record n {
  mode = or_default n.mode (codes "static");
  bridge = or_default n.bridge (codes "vmbr0");
  ssh = default_ssh home n.ssh;
}

default_k3s : K3sConfig → K3sConfig
unfolding or_default
default_k3s k = record k {
  version = or_default k.version (codes "stable");
  cni = or_default k.cni (codes "flannel");
  cluster_cidr = or_default k.cluster_cidr (codes "10.42.0.0/16");
  service_cidr = or_default k.service_cidr (codes "10.43.0.0/16");
}

default_masters : PoolConfig → PoolConfig
unfolding or_default or_number size_or
default_masters p = record p {
  name = or_default p.name (codes "master");
  count = or_number p.count (pos 3);
  size = size_or p.size p.resources (codes "cp-medium");
}

default_worker : PoolConfig → PoolConfig
unfolding size_or
default_worker p = record p { size = size_or p.size p.resources (codes "standard-4") }

-- applyDefaults
unfoldable pub apply_defaults : Text → Config → Config
unfolding default_proxmox default_network default_k3s default_masters default_worker or_default
apply_defaults home c = record {
  cluster_name = c.cluster_name;
  provider = or_default c.provider (codes "proxmox");
  proxmox = default_proxmox c.proxmox;
  networking = default_network home c.networking;
  k3s = default_k3s c.k3s;
  masters_pool = default_masters c.masters_pool;
  worker_pools = map default_worker c.worker_pools;
  addons = c.addons;
}
