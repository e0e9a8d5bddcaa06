-- ===== src/Tests/ProxmoxRuns.antt =====
-- Runs of placement, tags and guest addresses.
use proxmox_k3s.Prelude.{
  ℕ, ◌+◌, ◌<◌, List, [], ◌∷◌, some, ◌≡◌, ◌⊎◌, ◌↔◌, refl, arith, get_elem?, true, All, Any, length,
  if◌then◌else◌, keep,
}
use proxmox_k3s.Prelude.Int.{pos}
use proxmox_k3s.Prelude.Text.{Text, codes, ◌==◌, member, is_space}
use proxmox_k3s.Prelude.Result.{ok, err}
use proxmox_k3s.Domain.Error.{no_nodes_available}
use proxmox_k3s.Domain.Size.{worker, zero_size}
use proxmox_k3s.Domain.Model.{NodeSpec}
use proxmox_k3s.Proxmox.Node.{PveNode, ClusterResource}
use proxmox_k3s.Proxmox.Placement.{round_robin, filter_online, pick}
use proxmox_k3s.Proxmox.Placement.Fair.{Offers, IsAvailable, pick_outcome, round_robin_covers}
use proxmox_k3s.Proxmox.Tags.{tag, tag_cluster, build_tags, has_tag}
use proxmox_k3s.Proxmox.Tags.RoundTrip.{IsPlain, has_tag-cluster_iff}
use proxmox_k3s.Proxmox.Provider.{nodes_of}
use proxmox_k3s.Proxmox.Provider.Listing.{listed_node, nodes_of-tagged}
use proxmox_k3s.Proxmox.Vm.{AgentNetworkInterface, find_guest_ip}
use proxmox_k3s.Proxmox.Vm.GuestIp.{Reports, Silent, find_guest_ip_outcome}
use proxmox_k3s.Tests.Fixtures.{floats, host}

abbrev three_hosts : List PveNode
three_hosts =
    host (codes "pve1") (codes "online")
    ∷ host (codes "pve2") (codes "offline")
    ∷ host (codes "pve3") (codes "online")
    ∷ []

pick_outcome_example :
    (All (λ n. ¬ IsAvailable [] n) three_hosts
      × ((pick floats (round_robin 7) three_hosts []).0 ≡ err no_nodes_available))
    ⊎ ((name : Text) × ((pick floats (round_robin 7) three_hosts []).0 ≡ ok name)
        × Offers three_hosts [] name)
pick_outcome_example = pick_outcome floats (round_robin 7) three_hosts []

second_online :
    get_elem? (filter_online three_hosts []) 1 ≡ some (host (codes "pve3") (codes "online"))
unfolding filter_online ◌==◌ keep member
second_online = refl

round_robin_covers_example :
    (i : ℕ) × (i < length (filter_online three_hosts []))
    × (pick floats (round_robin (7 + i)) three_hosts []
        ≡ (ok (codes "pve3"), round_robin (7 + i + 1)))
round_robin_covers_example =
    round_robin_covers floats three_hosts [] 7 1 (host (codes "pve3") (codes "online"))
      second_online

abbrev spec : NodeSpec
spec = record {
  name = codes "lab-w-1";
  cluster_name = codes "lab";
  role = worker;
  pool = codes "w";
  size = zero_size;
  host_node = [];
  desired_ip = [];
  labels = [];
  taints = [];
  cloud_init = record {
    user = codes "ubuntu";
    ssh_keys = [];
    nameservers = [];
    search_domain = [];
    network_mode = codes "dhcp";
    ip_config = [];
    gateway = [];
  };
}

lab-IsPlain : IsPlain (codes "lab")
unfolding is_space
lab-IsPlain = ground arith

w-IsPlain : IsPlain (codes "w")
unfolding is_space
w-IsPlain = ground arith

has_tag-cluster_iff_example :
    (has_tag (build_tags (codes "lab") spec) (tag tag_cluster (codes "la")) ≡ true)
    ↔ (codes "lab" ≡ codes "la")
has_tag-cluster_iff_example =
    has_tag-cluster_iff (codes "lab") spec lab-IsPlain w-IsPlain (codes "la")

abbrev vm : ClusterResource
vm = record {
  vmid = pos 101;
  name = codes "lab-w-1";
  node = codes "pve1";
  kind = codes "qemu";
  status = codes "running";
  tags = build_tags (codes "lab") spec;
  template = pos 0;
}

nodes_of-tagged_example : nodes_of (codes "lab") (vm ∷ []) ≡ (
    if codes "lab" == codes "lab"
    then listed_node spec vm ∷ nodes_of (codes "lab") []
    else nodes_of (codes "lab") [])
nodes_of-tagged_example =
    nodes_of-tagged (codes "lab") spec vm lab-IsPlain w-IsPlain (refl, refl) (codes "lab") []

abbrev interface : Text → Text → AgentNetworkInterface
interface name ip = record {
  name = name;
  ip_addresses = record { ip_address = ip; ip_address_type = codes "ipv4"; prefix = pos 24 } ∷ [];
  hardware_address = [];
}

abbrev interfaces : List AgentNetworkInterface
interfaces =
    interface (codes "lo") (codes "127.0.0.1") ∷ interface (codes "eth0") (codes "10.0.0.12") ∷ []

find_guest_ip_outcome_example :
    (All Silent interfaces × (find_guest_ip interfaces ≡ []))
    ⊎ Any (Reports (find_guest_ip interfaces)) interfaces
find_guest_ip_outcome_example = find_guest_ip_outcome interfaces
