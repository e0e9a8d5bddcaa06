-- ===== src/Tests/CommandRuns.antt =====
-- A run of the command create as a whole.
use proxmox_k3s.Prelude.{List, [], ◌∷◌, ◌≡◌, refl, true}
use proxmox_k3s.Prelude.Text.{Text, codes, ◌==◌, has_prefix, member, trim_space}
use proxmox_k3s.Prelude.Result.{ok}
use proxmox_k3s.Prelude.Int.{◌+ℤ◌}
use proxmox_k3s.Prelude.Decimal.{decimal}
use proxmox_k3s.Prelude.Text.Split.{onto}
use proxmox_k3s.Net.{parse_ip, parse_cidr}
use proxmox_k3s.Domain.Size.{resolve_size, size_by_name, validate_size}
use proxmox_k3s.Ipam.Pool.{total_ips, size, get, ip_config_for_index, parse_pool}
use proxmox_k3s.Create.Names.{node_name}
use proxmox_k3s.Create.Plan.{total_needed}
use proxmox_k3s.Create.Provision.{spec_of}
use proxmox_k3s.Create.ControlPlane.{is_active}
use proxmox_k3s.K3s.Version.{is_exact_version, channel_of}
use proxmox_k3s.Cli.{Host, create_command, valid_config, model_of, check_provider}
use proxmox_k3s.Cli.Created.{Created}
use proxmox_k3s.Tests.Fixtures.{only_v4, small_provider}
use proxmox_k3s.Tests.ConfigRuns.{sparse, keys}
use proxmox_k3s.Tests.ClusterRuns.{tools}

abbrev host : Host
host = record {
  source = record {
    env = λ name. [];
    home = codes "/root";
    read = λ path. ok (codes "cluster_name: lab");
    decode = λ t. ok sparse;
    quote = λ t. t;
  };
  v6 = only_v4;
  read_file = keys;
  has_certificate = λ pem. true;
}

abbrev machines : List Text
machines =
    codes "lab-w-2"
    ∷ codes "lab-w-1"
    ∷ codes "lab-master-3"
    ∷ codes "lab-master-2"
    ∷ codes "lab-master-1"
    ∷ []

created_lab :
    create_command host (small_provider 5) tools (codes "cluster.yaml") ([], 0)
    ≡ (ok tt, (machines, 6))
unfolding create_command valid_config has_prefix parse_ip onto ◌==◌ parse_cidr resolve_size
    size_by_name validate_size model_of check_provider parse_pool total_ips size total_needed ◌+ℤ◌
    ip_config_for_index get member node_name decimal spec_of is_exact_version channel_of is_active
    trim_space
created_lab = refl
