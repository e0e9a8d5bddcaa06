-- ===== src/Proxmox/Provider/Created.antt =====
-- What CreateNode returns when it succeeds.
use proxmox_k3s.Prelude.{ℕ, suc, false, List, ◌≡◌, refl, sym, ap, ◌∙◌, Bool-cases, inl, inr}
use proxmox_k3s.Prelude.Int.{ℤ}
use proxmox_k3s.Prelude.Text.{Text, is_empty}
use proxmox_k3s.Proxmox.Vm.{AgentNetworkInterface, find_guest_ip}
use proxmox_k3s.Prelude.Result.{Result, ok, err, continue_ok, continue-eq-ok, ok-injective}
use proxmox_k3s.Domain.Error.{Error, api}
use proxmox_k3s.Domain.Model.{Node, NodeSpec}
use proxmox_k3s.Proxmox.Placement.{Floats, Strategy}
use proxmox_k3s.Proxmox.Api.{Api}
use proxmox_k3s.Proxmox.Provider.{
  Provider, call, choose_host, look_up_template, build_vm, created_node, create_node, observe,
  wait_agent_ready, wait_ready,
}

module _ (floats : Floats) (A : Api) (template storage : Text) where
  -- If CreateNode succeeds, its node is that of the specification, with the host that was chosen and
  -- the number that was free.
  pub create_node-created_node :
      (spec : NodeSpec) (s t : Provider floats A template storage) (n : Node)
      → create_node floats A template storage spec s ≡ (ok n, t)
      → (chosen : Text) × (vmid : ℤ) × (n ≡ created_node chosen vmid spec)
  unfolding create_node
  create_node-created_node spec s t n h =
      let (nodes, s1, e1, h1) =
        continue-eq-ok (call floats A template storage A.list_pve_nodes api) _ s t h in
      let (chosen, s2, e2, h2) =
        continue-eq-ok (choose_host floats A template storage spec nodes) _ s1 t h1 in
      let (tmpl, s3, e3, h3) =
        continue-eq-ok (look_up_template floats A template storage template) _ s2 t h2 in
      let (vmid, s4, e4, h4) =
        continue-eq-ok (call floats A template storage A.next_id api) _ s3 t h3 in
      let (u, s5, e5, h5) =
        continue-eq-ok (build_vm floats A template storage tmpl chosen vmid spec) _ s4 t h4 in
      (chosen, vmid, sym (ok-injective (created_node chosen vmid spec) n s5 t h5))

  observe-name :
      (n : Node) (is : List AgentNetworkInterface)
      → (observe floats A template storage n is).name ≡ n.name
  unfolding observe
  observe-name n is = elim (Bool-cases (is_empty (find_guest_ip is))) [
    | inl e ↦ rw e refl
    | inr e ↦ rw e refl
  ]

  -- If WaitReady succeeds, its node has the name of the node that it was asked about.
  pub wait_ready-name :
      (rounds : ℕ) (n m : Node) (s t : Provider floats A template storage)
      → wait_ready floats A template storage rounds n s ≡ (ok m, t)
      → m.name ≡ n.name
  unfolding wait_ready
  wait_ready-name rounds n m s t h =
      let (is, s1, e1, h1) =
        continue-eq-ok (wait_agent_ready floats A template storage rounds n) _ s t h in
      ap (λ (x : Node). x.name)
        (sym (ok-injective (observe floats A template storage n is) m s1 t h1))
      ∙ observe-name n is

  -- WaitReady where the guest agent answers at once.
  pub wait_ready-answered :
      (rounds : ℕ) (n : Node) (w w' : A.State) (strategy : Strategy)
      (is : List AgentNetworkInterface)
      → A.agent n.host_node n.vmid w ≡ (ok is, w')
      → is_empty (find_guest_ip is) ≡ false
      → wait_ready floats A template storage (suc rounds) n (w, strategy)
        ≡ (ok (record n { observed_ip = find_guest_ip is }), (w', strategy))
  unfolding wait_ready wait_agent_ready observe
  wait_ready-answered rounds n w w' strategy is h e =
      let first : wait_agent_ready floats A template storage (suc rounds) n (w, strategy)
          ≡ (ok is, (w', strategy)) =
        ap
          (λ (p : Result Text (List AgentNetworkInterface) × A.State).
            let next : Result Error (List AgentNetworkInterface)
                × Provider floats A template storage =
              elim p.0 [
                | ok is ↦ (ok is, (p.1, strategy))
                | err x ↦ wait_agent_ready floats A template storage rounds n (p.1, strategy)
              ] in
            next)
          h in
      continue_ok (wait_agent_ready floats A template storage (suc rounds) n) _ (w, strategy)
        (w', strategy) is first
      ∙ rw e refl
