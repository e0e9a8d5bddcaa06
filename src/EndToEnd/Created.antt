-- ===== src/EndToEnd/Created.antt =====
-- Provider.CreateNode of internal/adapter/proxmox/provider.go, over the client, against the fake
-- server.
use proxmox_k3s.Prelude.{ℕ, ◌+◌, ◌^◌, ◌≤◌, ◌<◌, ◌≡◌, refl, ap, ◌∙◌, arith, [], ◌∷◌, ◌++◌, map, true}
use proxmox_k3s.Prelude.Int.{ℤ, pos}
use proxmox_k3s.Prelude.Text.{Text, codes, is_empty}
use proxmox_k3s.Prelude.Result.{ok}
use proxmox_k3s.Domain.Model.{NodeSpec}
use proxmox_k3s.Proxmox.Placement.{Floats, Strategy, pick}
use proxmox_k3s.Proxmox.Provider.{
  create_node, clone_request, config_request, resize_request, created_node,
}
use proxmox_k3s.Proxmox.Client.{Client}
use proxmox_k3s.Proxmox.Client.Calls.{client_api}
use proxmox_k3s.Proxmox.FakeServer.{Server, injected, record_op}
use proxmox_k3s.Proxmox.FakeServer.Answer.{Platform}
use proxmox_k3s.Proxmox.FakeServer.Handlers.{listed_node}
use proxmox_k3s.Proxmox.FakeServer.Route.{max_int}
use proxmox_k3s.Proxmox.FakeServer.Transport.{fake_http}
use proxmox_k3s.Proxmox.FakeServer.Segments.{IsSegment}
use proxmox_k3s.Proxmox.FakeServer.{FakeVm, put_vm, change_vm}
use proxmox_k3s.Proxmox.FakeServer.Answer.{config_body}
use proxmox_k3s.Proxmox.FakeServer.Handlers.{cloned_vm, configured, with_status}
use proxmox_k3s.Proxmox.Tags.{build_tags}
use proxmox_k3s.EndToEnd.Fresh.{IsFree, put_vm-free, change_vm-free}
use proxmox_k3s.EndToEnd.Calls.{
  Surroundings, NothingSet, counted, list_pve_nodes_lem, list_resources_lem, next_vmid_lem,
}
use proxmox_k3s.EndToEnd.Templates.{HasTemplate, HasTemplate-Found}
use proxmox_k3s.EndToEnd.VmCalls.{
  tasked, cloned, configured_at, status_set, configure_lem, clone-Ran, resize-Ran, start-Ran,
}

pub same_errors : (s t : Server) → t.errors ≡ s.errors → NothingSet s → NothingSet t
unfolding injected
same_errors s t e h op = rw e (h op)

tasked-errors :
    (P : Platform) (node op : Text) (s : Server) → (tasked P node op s).errors ≡ s.errors
unfolding tasked
tasked-errors P node op s = refl

module _ (P : Platform) (storage : Text) (source host : Text) (spec : NodeSpec) (vmid : ℤ) where
  -- The server behind each of the four steps of CreateNode.
  unfoldable pub after_clone : Server → Server
  after_clone s =
      tasked P source (codes "qmclone") (cloned P source (clone_request storage host vmid spec) s)

  unfoldable pub after_config : Server → Server
  unfolding after_clone
  after_config s = configured_at P vmid (config_request spec) (after_clone s)

  unfoldable pub after_resize : Server → Server
  unfolding after_config
  after_resize s = tasked P host (codes "qmresize") (record_op (codes "resize") (after_config s))

  unfoldable pub after_start : Server → Server
  unfolding after_resize
  after_start s =
      tasked P host (codes "qmstart")
        (status_set vmid (codes "running") (codes "start") (after_resize s))

  steps-errors :
      (s : Server)
      → ((after_clone s).errors ≡ s.errors)
        × ((after_config s).errors ≡ s.errors)
        × ((after_resize s).errors ≡ s.errors)
        × ((after_start s).errors ≡ s.errors)
  unfolding after_clone after_config after_resize after_start tasked
  steps-errors s = (refl, refl, refl, refl)

module _ (floats : Floats) (c : Client) (P : Platform) (around : Surroundings c P) (left : ℕ)
    (late : 500 < left) (template storage : Text) where
  -- What CreateNode needs: no error set, a template, a host, and a number.
  module _ (s : Server) (unset : NothingSet s) (source : Text) (has : HasTemplate template source s)
      (room : s.next_vmid + 1 < 2 ^ 31) (spec : NodeSpec)
      (anywhere : is_empty spec.host_node ≡ true) (strategy next : Strategy) (host : Text)
      (picked : pick floats strategy (map listed_node s.nodes) [] ≡ (ok host, next))
      (hosted : IsSegment host) where
    pub create_node_lem :
        create_node floats (client_api c (fake_http P) left) template storage spec (s, strategy) ≡ (
          ok (created_node host (pos (s.next_vmid + 1)) spec),
          (after_start P storage source host spec (pos (s.next_vmid + 1)) (counted s), next),
        )
    unfolding create_node after_start after_resize after_config after_clone
    create_node_lem =
        let found = HasTemplate-Found c P around template source s has in
        let n = pos (s.next_vmid + 1) in
        let s1 = counted s in
        let (e2, e3, e4, e5) = steps-errors P storage source host spec n s1 in
        let s2 = after_clone P storage source host spec n s1 in
        let s3 = after_config P storage source host spec n s1 in
        let s4 = after_resize P storage source host spec n s1 in
        let small : s.next_vmid + 1 ≤ max_int = omega arith in
        let u1 = same_errors s s1 refl unset in
        let u2 = same_errors s1 s2 e2 u1 in
        let u3 = same_errors s1 s3 e3 u1 in
        let u4 = same_errors s1 s4 e4 u1 in
        let cl =
          clone-Ran c P around source found.vmid found.placed found.small left late s1 u1
            (clone_request storage host n spec) in
        let rs =
          resize-Ran c P around host (s.next_vmid + 1) hosted small left late s3 u3
            (resize_request spec) in
        let st = start-Ran c P around host (s.next_vmid + 1) hosted small left late s4 u4 in
        rw
          (
            list_pve_nodes_lem c P around s,
            anywhere,
            picked,
            list_resources_lem c P around s,
            found.found,
            next_vmid_lem c P around s room,
            found.numbered,
            found.at,
            cl.answered,
            cl.waited,
            configure_lem c P around host (s.next_vmid + 1) hosted small (config_request spec) s2
                u2,
            rs.answered,
            rs.waited,
            st.answered,
            st.waited,
          )
          refl

-- The VM that CreateNode leaves on the fake server. It stands on the host of the template, since the
-- server does not read the target of a clone.
unfoldable pub built_vm : Platform → Text → ℤ → NodeSpec → FakeVm
unfolding with_status configured cloned_vm
built_vm P source vmid spec = with_status (codes "running") (
    configured P (config_body (config_request spec))
      (cloned_vm P source (clone_request [] [] vmid spec)))

module _ (c : Client) (P : Platform) (around : Surroundings c P) (storage source host : Text)
    (spec : NodeSpec) (s : Server) (room : s.next_vmid + 1 < 2 ^ 31) where
  -- Creating a node adds its VM under a number that was free, and changes no other.
  pub created_vms :
      IsFree (pos (s.next_vmid + 1)) s.vms
      → (after_start P storage source host spec (pos (s.next_vmid + 1)) (counted s)).vms
        ≡ s.vms ++ ((pos (s.next_vmid + 1), built_vm P source (pos (s.next_vmid + 1)) spec) ∷ [])
  unfolding after_start after_resize after_config after_clone tasked built_vm cloned_vm
      clone_request
  created_vms free =
      let n = pos (s.next_vmid + 1) in
      let exact : P.through_float n ≡ n = around.exact (s.next_vmid + 1) (omega arith) in
      let vm = cloned_vm P source (clone_request [] [] n spec) in
      let put : put_vm (P.through_float n) vm s.vms ≡ s.vms ++ ((n, vm) ∷ []) =
        ap (λ x. put_vm x vm s.vms) exact ∙ put_vm-free n vm s.vms free in
      let conf = configured P (config_body (config_request spec)) in
      ap (λ m. change_vm n (with_status (codes "running")) (change_vm n conf m)) put
      ∙ (ap (change_vm n (with_status (codes "running"))) (change_vm-free n conf vm s.vms [] free)
          ∙ change_vm-free n (with_status (codes "running")) (conf vm) s.vms [] free)

pub built_vm-vmid :
    (c : Client) (P : Platform) (around : Surroundings c P) (source : Text) (n : ℕ)
    (spec : NodeSpec)
    → n ≤ 2 ^ 53
    → (built_vm P source (pos n) spec).vmid ≡ pos n
unfolding built_vm clone_request
built_vm-vmid c P around source n spec small = around.exact n small

-- What a listing shows of such a VM.
pub built_vm-tagged :
    (P : Platform) (source : Text) (vmid : ℤ) (spec : NodeSpec)
    → ((built_vm P source vmid spec).name ≡ spec.name)
      × ((built_vm P source vmid spec).node ≡ source)
      × ((built_vm P source vmid spec).tags ≡ build_tags spec.cluster_name spec)
      × ((built_vm P source vmid spec).template ≡ pos 0)
unfolding built_vm clone_request config_request build_tags
built_vm-tagged P source vmid spec = (refl, refl, refl, refl)
