-- ===== src/Config/Validate.antt =====
-- internal/config/validate/cluster.go: all that is wrong with a configuration, in the order of the
-- checks. `read_file` is os.ReadFile, with the text of its error.
pub mod Checks
pub mod Accepted
pub mod Modelled
use proxmox_k3s.Prelude.{
  ℕ, suc, ◌+◌, List, [], ◌∷◌, ◌++◌, Option, none, some, Bool, true, false, not, ◌&&◌, ◌||◌,
  if◌then◌else◌,
}
use proxmox_k3s.Prelude.Int.{ℤ, pos, ltb_ℤ, is_even}
use proxmox_k3s.Prelude.Text.{Text, codes, ◌==◌, is_empty, has_prefix}
use proxmox_k3s.Prelude.Decimal.{decimal}
use proxmox_k3s.Prelude.Result.{Result, ok, err}
use proxmox_k3s.Domain.Error.{Error, odd_master_count}
use proxmox_k3s.Domain.Size.{NodeRole, master, worker, VmSize, validate_size}
use proxmox_k3s.Net.{Ip, Ipv6, parse_ip, parse_cidr}
use proxmox_k3s.Config.Schema.{
  Config, PoolConfig, ProxmoxConfig, NetworkConfig, SshConfig, AddonsConfig,
}
use proxmox_k3s.Config.ToModel.{pool_size}

-- A message is a text, the message of an error, or an error as it prints.
pub data Message : Type 0 where
  text : Text → Message
  message_of : Error → Message
  printed : Error → Message

pub record ValidationError : Type 0 where
  pub field : Text
  pub message : Message

-- One entry: a field and what is wrong with it.
abbrev pub problem : Text → Text → List ValidationError
problem field message = record { field = field; message = text message } ∷ []

-- An entry if the test holds.
unfoldable pub check : Bool → Text → Text → List ValidationError
check wrong field message = if wrong then problem field message else []

abbrev pub required : Text → Text → List ValidationError
unfolding check
required t field = check (is_empty t) field (codes "required")

unfoldable pub secret_errors : Text → List ValidationError
unfolding check
secret_errors t =
    if is_empty t
    then problem (codes "proxmox.token_secret") (codes "required (use ${ENV_VAR})")
    else check (has_prefix t (codes "${")) (codes "proxmox.token_secret")
        (codes "environment variable not set: " ++ t)

unfoldable pub proxmox_errors : ProxmoxConfig → List ValidationError
unfolding secret_errors
proxmox_errors p =
    required p.endpoint (codes "proxmox.endpoint")
    ++ (required p.token_id (codes "proxmox.token_id")
        ++ (secret_errors p.token_secret
            ++ (required p.template (codes "proxmox.template")
                ++ required p.storage (codes "proxmox.storage"))))

abbrev pub absent {ℓ} : {A : Type ℓ} → Option A → Bool
absent none = true
absent (some x) = false

-- The error of net.ParseCIDR names the text.
abbrev bad_cidr : Text → Text
bad_cidr s = codes "invalid CIDR: invalid CIDR address: " ++ s

module _ (v6 : Ipv6) where
  unfoldable pub vip_errors : Text → List ValidationError
  unfolding check
  vip_errors t =
      if is_empty t
      then problem (codes "networking.control_plane_vip") (codes "required for HA clusters")
      else check (absent (parse_ip v6 t)) (codes "networking.control_plane_vip")
          (codes "invalid IP address")

  unfoldable pub cidr_errors : Text → List ValidationError
  unfolding check
  cidr_errors t =
      if is_empty t
      then problem (codes "networking.cidr") (codes "required for static mode")
      else check (absent (parse_cidr v6 t)) (codes "networking.cidr") (bad_cidr t)

  unfoldable pub static_errors : NetworkConfig → List ValidationError
  unfolding cidr_errors check
  static_errors n =
      if n.mode == codes "static"
      then cidr_errors n.cidr
        ++ (check (is_empty n.gateway) (codes "networking.gateway")
              (codes "required for static mode")
            ++ check (is_empty n.node_pool_range) (codes "networking.node_pool_range")
                (codes "required for static mode"))
      else []

unreadable : Text → Result Text Text → List ValidationError
unreadable field (ok data_read) = []
unreadable field (err e) = problem field (codes "cannot read file: " ++ e)

unfoldable pub minimum_errors : Text → Result Error Unit → List ValidationError
minimum_errors field (ok u) = []
minimum_errors field (err e) = record { field = field; message = printed e } ∷ []

unfoldable pub size_errors : Text → NodeRole → Result Error VmSize → List ValidationError
unfolding minimum_errors
size_errors field role (err e) = record { field = field; message = printed e } ∷ []
size_errors field role (ok s) = minimum_errors field (validate_size s role)

-- validatePool
unfoldable pub pool_errors : Text → PoolConfig → NodeRole → List ValidationError
unfolding size_errors
pool_errors field p role =
    if ltb_ℤ (pos 0) p.count
    then size_errors (field ++ codes ".size") role (pool_size p)
    else problem (field ++ codes ".count") (codes "must be > 0")

-- The loop over the worker pools from number `i` on.
unfoldable pub worker_errors : ℕ → List PoolConfig → List ValidationError
unfolding pool_errors check
worker_errors i [] = []
worker_errors i (p ∷ ps) =
    let field = codes "worker_node_pools[" ++ (decimal i ++ codes "]") in
    check (is_empty p.name) (field ++ codes ".name") (codes "required")
    ++ (pool_errors field p worker ++ worker_errors (i + 1) ps)

-- Fewer than three, or an even number.
unfoldable pub count_errors : ℤ → List ValidationError
count_errors n =
    if ltb_ℤ n (pos 3) || is_even n
    then record { field = codes "masters_pool.count"; message = message_of (odd_master_count n) }
      ∷ []
    else []

unfoldable pub addon_errors : AddonsConfig → List ValidationError
unfolding check
addon_errors a =
    check (a.metal_lb.enabled && is_empty a.metal_lb.address_pool)
      (codes "addons.metallb.address_pool") (codes "required when metallb is enabled")

abbrev pub report : List ValidationError → Result (List ValidationError) Unit
report [] = ok tt
report (e ∷ es) = err (e ∷ es)

module _ (read_file : Text → Result Text Text) where
  unfoldable pub key_errors : Text → Text → List ValidationError
  unfolding unreadable
  key_errors path field =
      if is_empty path then problem field (codes "required") else unreadable field (read_file path)

module _ (v6 : Ipv6) (read_file : Text → Result Text Text) where
  unfoldable pub cluster_errors : Config → List ValidationError
  unfolding proxmox_errors vip_errors static_errors key_errors count_errors pool_errors
      worker_errors addon_errors check
  cluster_errors c =
      required c.cluster_name (codes "cluster_name")
      ++ (proxmox_errors c.proxmox
          ++ (vip_errors v6 c.networking.control_plane_vip
              ++ (static_errors v6 c.networking
                  ++ (key_errors read_file c.networking.ssh.public_key_path
                        (codes "networking.ssh.public_key_path")
                      ++ (key_errors read_file c.networking.ssh.private_key_path
                            (codes "networking.ssh.private_key_path")
                          ++ (count_errors c.masters_pool.count
                              ++ (pool_errors (codes "masters_pool") c.masters_pool master
                                  ++ (worker_errors 0 c.worker_pools
                                      ++ addon_errors c.addons))))))))

  -- Cluster
  unfoldable pub cluster : Config → Result (List ValidationError) Unit
  unfolding cluster_errors
  cluster c = report (cluster_errors c)
