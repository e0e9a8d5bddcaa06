-- ===== src/Tests/StackRuns.antt =====
-- Create and delete, down to the fake server that New makes.
use proxmox_k3s.Prelude.{
  ℕ, ◌≡◌, ◌≢◌, refl, ap, arith, List, [], ◌∷◌, map, All, inl, inr, length, true, keep, subst,
}
use proxmox_k3s.Prelude.Int.{pos, pos_part}
use proxmox_k3s.Prelude.Text.{Text, codes, is_space, ◌==◌, member}
use proxmox_k3s.Domain.Model.{Cluster, NodeSpec}
use proxmox_k3s.Proxmox.Placement.{round_robin, filter_online}
use proxmox_k3s.Proxmox.Placement.Fair.{Offers}
use proxmox_k3s.Proxmox.Provider.{nodes_of}
use proxmox_k3s.Proxmox.FakeServer.{Server, FakeVm, VmMap, new_server, set_error, injected}
use proxmox_k3s.Proxmox.FakeServer.Handlers.{vm_resource, listed_node}
use proxmox_k3s.Proxmox.FakeServer.Segments.{IsSegment, all_plain-IsPlain}
use proxmox_k3s.Create.Provision.{missing, missing_in_pool, spec_of, provision_nodes}
use proxmox_k3s.EndToEnd.Calls.{Surroundings}
use proxmox_k3s.EndToEnd.Templates.{HasTemplate}
use proxmox_k3s.EndToEnd.CanCreate.{CanCreate}
use proxmox_k3s.EndToEnd.Provisioned.{stack}
use proxmox_k3s.EndToEnd.RoundTrip.{HasPlainNames, LivesAndDies, create_then_delete}
use proxmox_k3s.Prelude.Perm.{Permᴰ, Permᴰ-refl}
use proxmox_k3s.Prelude.{◌++◌, ◌+◌, some, Option}
use proxmox_k3s.Prelude.Result.{ok, err}
use proxmox_k3s.Domain.Error.{Error}
use proxmox_k3s.Domain.Size.{master}
use proxmox_k3s.Prelude.Dict.{Dict, lookup, insert}
use proxmox_k3s.Delete.{run}
use proxmox_k3s.EndToEnd.Refused.{CannotConfigure}
use proxmox_k3s.EndToEnd.Orphan.{refused_node_stays}
use proxmox_k3s.Domain.Model.{Node}
use proxmox_k3s.Proxmox.Placement.{Strategy}
use proxmox_k3s.Proxmox.Provider.{online_names}
use proxmox_k3s.Create.Names.{cluster_names}
use proxmox_k3s.Create.Plan.{plan_ips}
use proxmox_k3s.Create.Phases.{ready_nodes}
use proxmox_k3s.EndToEnd.Ready.{HasTargets, HasAddress}
use proxmox_k3s.EndToEnd.Phases.{phases_succeed}
use proxmox_k3s.Tests.Fixtures.{floats, lab, only_v4}
use proxmox_k3s.Tests.FakeRuns.{
  flipped, platform, client, documented, pve1, pve1-IsSegment, nothing_set,
}

abbrev ubuntu : Text
ubuntu = codes "ubuntu-2404-cloudinit"

same_entries : (m : VmMap) → Permᴰ (flipped m) m
same_entries [] = Permᴰ.nil
same_entries (a ∷ []) = Permᴰ-refl (a ∷ [])
same_entries (a ∷ b ∷ m) = Permᴰ.swap refl refl

surroundings : Surroundings client platform
surroundings = record {
  docs = documented;
  stamps = λ seq. all_plain-IsPlain (codes "6740AAAA") refl;
  exact = λ n h. refl;
  ranged = λ s. same_entries s.vms;
  queried = refl;
}

has_template :
    (errors : Dict (Option Text)) → HasTemplate ubuntu pve1 (record new_server { errors = errors })
unfolding vm_resource
has_template errors = record {
  there = inl (refl, refl);
  usable = (λ is. record { vmid = 9000; numbered = refl; small = omega arith; at = refl }, tt);
  placed = pve1-IsSegment;
}

only_pve1 : (name : Text) → Offers (map listed_node new_server.nodes) [] name → IsSegment name
unfolding listed_node
only_pve1 name (inl (e, available)) = subst IsSegment e pve1-IsSegment
only_pve1 name (inr none) = absurd none

some_host : filter_online (map listed_node new_server.nodes) [] ≢ []
unfolding filter_online keep listed_node ◌==◌ member
some_host e = cc

five_nodes : length (missing lab [] []) ≡ 5
unfolding missing missing_in_pool member
five_nodes = refl

can_create : (k : ℕ) → k ≡ 5 → CanCreate ubuntu pve1 k new_server
can_create k five = record {
  unset = nothing_set;
  has = has_template [];
  online = some_host;
  named = only_pve1;
  room = omega arith;
  free = λ i h. (λ e. omega (arith, ap pos_part e), tt);
}

plain_names : HasPlainNames lab
unfolding is_space
plain_names = ground arith

none_yet : nodes_of lab.name (map vm_resource new_server.vms) ≡ []
unfolding nodes_of vm_resource keep
none_yet = refl

create_then_delete_example :
    (life : LivesAndDies
      (stack floats client platform 1000 ubuntu (codes "local") 1)
      lab
      []
      (new_server, round_robin 0))
    × (life.emptied.0.vms ≡ new_server.vms)
create_then_delete_example =
    create_then_delete floats client platform surroundings 1000 (omega arith) ubuntu (codes "local")
      1 lab [] pve1 new_server (round_robin 0) plain_names (can_create _ five_nodes) none_yet

-- The cluster with the template of the server, one target and addresses from DHCP.
abbrev dhcp_lab : Cluster
dhcp_lab = record lab {
  network = record lab.network { mode = codes "dhcp" };
  proxmox = record lab.proxmox { template = ubuntu; target_nodes = pve1 ∷ [] };
}

dhcp-planned : plan_ips only_v4 dhcp_lab ≡ ok []
unfolding plan_ips ◌==◌
dhcp-planned = refl

five_missing : length (missing dhcp_lab [] []) ≡ 5
unfolding missing missing_in_pool member
five_missing = refl

pve1-HasTargets : HasTargets dhcp_lab new_server
unfolding online_names listed_node keep member ◌==◌
pve1-HasTargets = (refl, tt)

phases_succeed_example :
    (masters : List Node) × (workers : List Node) × (t : Server × Strategy) × (ready_nodes only_v4
        (stack floats client platform 1000 ubuntu (codes "local") 1)
        dhcp_lab
        (new_server, round_robin 0)
      ≡ (ok (masters, workers), t))
    × All HasAddress (masters ++ workers)
    × ((n : Text)
        → member n (cluster_names dhcp_lab) ≡ true
        → member n (map (λ (m : Node). m.name) (masters ++ workers)) ≡ true)
phases_succeed_example =
    phases_succeed floats client platform surroundings 1000 (omega arith) (codes "local") 0 only_v4
      dhcp_lab [] dhcp-planned pve1 new_server (round_robin 0) plain_names pve1-HasTargets
      (can_create _ five_missing) none_yet

-- The new server, which is told to refuse every configuration.
abbrev refusing : Server
refusing = set_error (codes "config") (some (codes "no space")) new_server

refusing-CannotConfigure : CannotConfigure ubuntu pve1 refusing
unfolding injected lookup insert ◌==◌
refusing-CannotConfigure = record {
  refusal = codes "no space";
  refused = refl;
  cloning = refl;
  has = has_template ((codes "config", some (codes "no space")) ∷ []);
  online = some_host;
  named = only_pve1;
  room = omega arith;
  free = (λ e. omega (arith, ap pos_part e), tt);
}

abbrev tail : {A : Type 0} → List A → List A
tail [] = []
tail (x ∷ xs) = xs

abbrev lab_specs : List NodeSpec
lab_specs = tail (missing lab [] [])

lab-missing : missing lab [] [] ≡ spec_of lab master lab.masters [] 0 ∷ lab_specs
unfolding missing missing_in_pool member
lab-missing = refl

refused_node_stays_example :
    (error : Error) × (orphan : FakeVm) × (t : Server × Strategy) × (provision_nodes
        (stack floats client platform 1000 ubuntu (codes "local") 1)
        lab
        []
        []
        (refusing, round_robin 0)
      ≡ (err error, t))
    × (t.0.vms ≡ refusing.vms ++ ((pos (refusing.next_vmid + 1), orphan) ∷ []))
    × (orphan.name ≡ (spec_of lab master lab.masters [] 0).name)
    × (orphan.tags ≡ [])
    × ((stack floats client platform 1000 ubuntu (codes "local") 1).list_nodes lab.name t
        ≡ (ok [], t))
    × (run (stack floats client platform 1000 ubuntu (codes "local") 1) lab t ≡ (ok tt, t))
refused_node_stays_example =
    refused_node_stays floats client platform surroundings 1000 (omega arith) ubuntu (codes "local")
      1 lab [] pve1 refusing (round_robin 0) (spec_of lab master lab.masters [] 0) lab_specs
      refusing-CannotConfigure lab-missing none_yet
