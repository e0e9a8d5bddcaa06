-- ===== src/EndToEnd/Provisioned.antt =====
-- provisionNodes of internal/usecase/create/create.go, over the provider and the client, against the
-- fake server.
use proxmox_k3s.Prelude.{
  some, ℕ, suc, ◌+◌, ◌^◌, ◌≤◌, ◌<◌, ◌≡◌, refl, ap, ◌∙◌, arith, List, [], ◌∷◌, ◌++◌, All, map,
  append_assoc, append-nil, inl, inr, true, length,
}
use proxmox_k3s.Prelude.Int.{pos}
use proxmox_k3s.Prelude.Text.{Text, is_empty}
use proxmox_k3s.Prelude.Result.{Result, ok}
use proxmox_k3s.Domain.Error.{Error}
use proxmox_k3s.Domain.Model.{Node, NodeSpec}
use proxmox_k3s.Proxmox.Placement.{Floats, Strategy, pick}
use proxmox_k3s.Proxmox.Placement.Fair.{pick_cases}
use proxmox_k3s.Proxmox.Provider.{created_node}
use proxmox_k3s.Proxmox.Client.{Client}
use proxmox_k3s.Proxmox.Client.Calls.{client_api}
use proxmox_k3s.Proxmox.FakeServer.{Server, FakeVm, VmMap, vm_at}
use proxmox_k3s.Proxmox.FakeServer.Route.{max_int}
use proxmox_k3s.Proxmox.FakeServer.Answer.{Platform}
use proxmox_k3s.Proxmox.FakeServer.Handlers.{listed_node}
use proxmox_k3s.Proxmox.FakeServer.Transport.{fake_http}
use proxmox_k3s.Proxmox.FakeServer.Segments.{IsSegment}
use proxmox_k3s.Infra.{InfraProvider, proxmox_provider}
use proxmox_k3s.Create.Provision.{create_all}
use proxmox_k3s.EndToEnd.Fresh.{vm_at-free}
use proxmox_k3s.EndToEnd.Calls.{Surroundings, NothingSet, counted}
use proxmox_k3s.EndToEnd.VmCalls.{tasked}
use proxmox_k3s.EndToEnd.Created.{
  same_errors, after_start, create_node_lem, built_vm, built_vm-tagged, created_vms,
}
use proxmox_k3s.EndToEnd.CanCreate.{CanCreate, CanCreate-next, first-IsFree}

-- The VMs of specifications that are created in turn, under the numbers behind `n`.
unfoldable pub entries : Platform → Text → ℕ → List NodeSpec → VmMap
entries P source n [] = []
entries P source n (spec ∷ specs) =
    (pos (n + 1), built_vm P source (pos (n + 1)) spec) ∷ entries P source (n + 1) specs

-- The Proxmox provider over the client against the fake server.
abbrev pub stack : Floats → Client → Platform → ℕ → (template storage : Text) → ℕ → InfraProvider
stack floats c P left template storage rounds =
    proxmox_provider floats (client_api c (fake_http P) left) template storage rounds

-- The VM of a node is on the server, and its host can stand in a path.
pub record IsLive (s : Server) (m : Node) : Type 0 where
  pub vmid : ℕ
  pub vm : FakeVm
  pub numbered : m.vmid ≡ pos vmid
  pub small : vmid ≤ max_int
  pub hosted : IsSegment m.host_node
  pub present : vm_at (pos vmid) s.vms ≡ some vm

module _ (floats : Floats) (c : Client) (P : Platform) (around : Surroundings c P) (left : ℕ)
    (late : 500 < left) (template storage : Text) (rounds : ℕ) where
  -- One more node on the fake server.
  record CreatesOne (spec : NodeSpec) (k : ℕ) (s : Server) (source : Text) (strategy : Strategy)
      : Type 0 where
    made : Node
    after : Server
    next : Strategy
    succeeded :
        (stack floats c P left template storage rounds).create_node spec (s, strategy)
        ≡ (ok made, (after, next))
    same_name : made.name ≡ spec.name
    hosted : IsSegment made.host_node
    own_number : made.vmid ≡ pos (s.next_vmid + 1)
    vms :
        after.vms
        ≡ s.vms ++ ((pos (s.next_vmid + 1), built_vm P source (pos (s.next_vmid + 1)) spec) ∷ [])
    numbered : after.next_vmid ≡ s.next_vmid + 1
    nodes_kept : after.nodes ≡ s.nodes
    can : CanCreate template source k after

  creates_one :
      (spec : NodeSpec) (source : Text) (k : ℕ) (s : Server) (strategy : Strategy)
      (can : CanCreate template source (suc k) s)
      → is_empty spec.host_node ≡ true
      → CreatesOne spec k s source strategy
  unfolding after_start tasked created_node
  creates_one spec source k s strategy can anywhere =
      elim (pick_cases floats strategy (map listed_node s.nodes) []) [
        | inl (none, e) ↦ absurd (can.online none)
        | inr (host, e, offered) ↦
            let next = (pick floats strategy (map listed_node s.nodes) []).1 in
            let number = pos (s.next_vmid + 1) in
            let t = after_start P storage source host spec number (counted s) in
            let room : s.next_vmid + 1 < 2 ^ 31 = omega (arith, can.room) in
            let here = first-IsFree template source k s can in
            let vms = created_vms c P around storage source host spec s room here in
            record {
              made = created_node host number spec;
              after = t;
              next = next;
              succeeded =
                  create_node_lem floats c P around left late template storage s can.unset source
                    can.has room spec anywhere strategy next host (ap (λ r. (r, next)) e)
                    (can.named host offered);
              same_name = refl;
              hosted = can.named host offered;
              own_number = refl;
              vms = vms;
              numbered = refl;
              nodes_kept = refl;
              can =
                  CanCreate-next template source k s t _ vms
                    (built_vm-tagged P source number spec).3 refl refl
                    (same_errors s t refl can.unset) can;
            }
      ]

  -- All nodes of a list of specifications on the fake server.
  pub record Provisioned (specs : List NodeSpec) (s : Server) (source : Text) (acc : List Node)
      (r : Result Error (List Node) × (Server × Strategy)) : Type 0 where
    pub nodes : List Node
    pub after : Server
    pub next : Strategy
    pub succeeded : r ≡ (ok (acc ++ nodes), (after, next))
    pub names : map (λ (n : Node). n.name) nodes ≡ map (λ (spec : NodeSpec). spec.name) specs
    pub vms : after.vms ≡ s.vms ++ entries P source s.next_vmid specs
    pub unset : NothingSet after
    pub nodes_kept : after.nodes ≡ s.nodes
    pub live : All (IsLive after) nodes

  pub create_all_lem :
      (specs : List NodeSpec) (source : Text) (acc : List Node) (s : Server) (strategy : Strategy)
      → CanCreate template source (length specs) s
      → All (λ (spec : NodeSpec). is_empty spec.host_node ≡ true) specs
      → Provisioned specs s source acc
          (create_all (stack floats c P left template storage rounds) specs acc (s, strategy))
  unfolding create_all entries
  create_all_lem [] source acc s strategy can anywhere = record {
    nodes = [];
    after = s;
    next = strategy;
    succeeded = rw append-nil refl;
    names = refl;
    vms = rw append-nil refl;
    unset = can.unset;
    nodes_kept = refl;
    live = tt;
  }
  create_all_lem (spec ∷ specs) source acc s strategy can (here, anywhere) =
      let one = creates_one spec source (length specs) s strategy can here in
      let more =
        create_all_lem specs source (acc ++ (one.made ∷ [])) one.after one.next one.can anywhere in
      let vms : more.after.vms ≡ s.vms ++ entries P source s.next_vmid (spec ∷ specs) =
        more.vms ∙ rw (one.vms, one.numbered, append_assoc) refl in
      record {
        nodes = one.made ∷ more.nodes;
        after = more.after;
        next = more.next;
        succeeded = rw one.succeeded (more.succeeded ∙ rw append_assoc refl);
        names = rw (one.same_name, more.names) refl;
        vms = vms;
        unset = more.unset;
        nodes_kept = more.nodes_kept ∙ one.nodes_kept;
        live = (
          record {
            vmid = s.next_vmid + 1;
            vm = built_vm P source (pos (s.next_vmid + 1)) spec;
            numbered = one.own_number;
            small = omega (arith, can.room);
            hosted = one.hosted;
            present =
                ap (vm_at (pos (s.next_vmid + 1))) vms
                ∙ vm_at-free (pos (s.next_vmid + 1)) _ s.vms _
                    (first-IsFree template source _ s can);
          },
          more.live,
        );
      }
