-- ===== src/EndToEnd/Ready.antt =====
-- Preflight and WaitReady of internal/adapter/proxmox/provider.go on the fake server.
use proxmox_k3s.Prelude.{ℕ, suc, ◌<◌, ◌≡◌, refl, ap, ◌∙◌, List, [], ◌∷◌, All, map, true, false}
use proxmox_k3s.Prelude.Text.{Text, is_empty, member, ◌==◌, has_prefix}
use proxmox_k3s.Prelude.Result.{ok}
use proxmox_k3s.Domain.Model.{Cluster, Node}
use proxmox_k3s.Proxmox.Vm.{find_guest_ip}
use proxmox_k3s.Proxmox.Placement.{Floats, Strategy}
use proxmox_k3s.Proxmox.Provider.{preflight, check_targets, online_names}
use proxmox_k3s.Proxmox.Provider.Created.{wait_ready-answered}
use proxmox_k3s.Proxmox.Client.{Client}
use proxmox_k3s.Proxmox.Client.Calls.{client_api, agent_interfaces}
use proxmox_k3s.Proxmox.FakeServer.{Server}
use proxmox_k3s.Proxmox.FakeServer.Answer.{Platform}
use proxmox_k3s.Proxmox.FakeServer.Handlers.{listed_node, vm_ip, eth0}
use proxmox_k3s.Proxmox.FakeServer.Transport.{fake_http}
use proxmox_k3s.EndToEnd.Calls.{
  Surroundings, NothingSet, version_lem, list_pve_nodes_lem, list_resources_lem,
}
use proxmox_k3s.EndToEnd.VmCalls.{agent_lem}
use proxmox_k3s.EndToEnd.Templates.{HasTemplate, HasTemplate-Found}
use proxmox_k3s.EndToEnd.Provisioned.{IsLive, stack}
use proxmox_k3s.Create.Ready.Waits.{Readies}

-- The hosts that the configuration names are online.
abbrev pub HasTargets : Cluster → Server → Type 0
HasTargets c s =
    All (λ t. member t (online_names (map listed_node s.nodes)) ≡ true) c.proxmox.target_nodes

check_targets_lem :
    (online ts : List Text) → All (λ t. member t online ≡ true) ts → check_targets online ts ≡ ok tt
unfolding check_targets
check_targets_lem online [] h = refl
check_targets_lem online (t ∷ ts) (ht, h) = rw (ht, check_targets_lem online ts h) refl

-- A node that has an address.
abbrev pub HasAddress : Node → Type 0
HasAddress m = is_empty m.observed_ip ≡ false

guest_address : (name : Text) → find_guest_ip (eth0 (vm_ip name) ∷ []) ≡ vm_ip name
unfolding find_guest_ip vm_ip has_prefix ◌==◌
guest_address name = refl

vm_ip-non_empty : (name : Text) → is_empty (vm_ip name) ≡ false
unfolding vm_ip
vm_ip-non_empty name = refl

module _ (floats : Floats) (c : Client) (P : Platform) (around : Surroundings c P) (left : ℕ)
    (late : 500 < left) (template storage : Text) (rounds : ℕ) where
  pub preflight_lem :
      (cl : Cluster) (source : Text) (s : Server) (strategy : Strategy)
      → HasTemplate cl.proxmox.template source s
      → HasTargets cl s
      → preflight floats (client_api c (fake_http P) left) template storage cl (s, strategy)
        ≡ (ok tt, (s, strategy))
  unfolding preflight
  preflight_lem cl source s strategy has targets =
      rw
        (
          version_lem c P around s,
          list_pve_nodes_lem c P around s,
          check_targets_lem (online_names (map listed_node s.nodes)) cl.proxmox.target_nodes
              targets,
          list_resources_lem c P around s,
          (HasTemplate-Found c P around cl.proxmox.template source s has).found,
        )
        refl

  -- A node whose VM is there becomes ready at the first question, and gets the address of its VM.
  pub live-Readies :
      (s : Server) (strategy : Strategy) (m : Node)
      → NothingSet s
      → IsLive s m
      → Readies (stack floats c P left template storage (suc rounds)) HasAddress (s, strategy) m
  live-Readies s strategy m unset live =
      let asked =
        agent_lem c P around m.host_node live.vmid live.hosted live.small s live.vm unset
          live.present in
      let guest = eth0 (vm_ip live.vm.name) ∷ [] in
      let some_address : is_empty (find_guest_ip guest) ≡ false =
        ap is_empty (guest_address live.vm.name) ∙ vm_ip-non_empty live.vm.name in
      record {
        ready = record m { observed_ip = find_guest_ip guest };
        waited =
            wait_ready-answered floats (client_api c (fake_http P) left) template storage rounds m s
              s strategy guest
              (ap (λ v. agent_interfaces c (fake_http P) m.host_node v s) live.numbered ∙ asked)
              some_address;
        good = some_address;
      }
