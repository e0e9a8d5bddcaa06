-- ===== src/Proxmox/FakeServer/Effect.antt =====
-- What a request does to the VMs of internal/adapter/proxmox/testserver/server.go, against a map
-- from numbers to VMs.
use proxmox_k3s.Prelude.{◌≡◌, refl, arith, ◌∙◌, [], ◌∷◌, Option, none, some}
use proxmox_k3s.Prelude.Int.{ℤ, eqb_ℤ_iff}
use proxmox_k3s.Prelude.Text.{Text, codes}
use proxmox_k3s.Proxmox.FakeServer.{
  FakeVm, VmMap, Server, vm_at, put_vm, change_vm, remove_vm, injected,
}
use proxmox_k3s.Proxmox.FakeServer.Upid.{new_upid, next_id}
use proxmox_k3s.Proxmox.FakeServer.Answer.{
  Handler, Payload, nothing, version, text, failure, page, number, nodes, resources, task,
  interfaces, clone_body, config_body, resize_body, snippet_body, Platform, unless_injected,
  respond, respond_error, not_found,
}
use proxmox_k3s.Proxmox.FakeServer.Handlers.{
  respond_task, handle_version, handle_nodes, handle_cluster_resources, handle_next_id,
  handle_task_status, handle_agent, agent_answer, handle_resize, clone_for, handle_clone,
  handle_config, handle_start, handle_stop, handle_delete, cloned_vm, configured, with_status,
}
use proxmox_k3s.Proxmox.FakeServer.Route.{
  Route, to_version, to_nodes, to_resources, to_next_id, nowhere, to_task, to_agent, to_clone,
  to_config, to_resize, to_start, to_stop, to_delete, handle,
}
use proxmox_k3s.Proxmox.FakeServer.Meaning.{
  View, view, put_at, change_at, remove_at, unless_set, cloned_at, config_of, in_status, meaning,
  configured-config_of, change_at_same,
}

vm_at-put_vm :
    (vmid asked : ℤ) (vm : FakeVm) (m : VmMap)
    → vm_at asked (put_vm vmid vm m) ≡ put_at vmid vm (λ v. vm_at v m) asked
unfolding vm_at put_vm
vm_at-put_vm vmid asked vm [] = refl
vm_at-put_vm vmid asked vm ((other, old) ∷ rest) = ground (
  arith,
  vm_at-put_vm vmid asked vm rest,
  eqb_ℤ_iff other asked,
  eqb_ℤ_iff other vmid,
  eqb_ℤ_iff vmid asked,
)

vm_at-change_vm :
    (vmid asked : ℤ) (g : FakeVm → FakeVm) (m : VmMap)
    → vm_at asked (change_vm vmid g m) ≡ change_at vmid g (λ v. vm_at v m) asked
unfolding vm_at change_vm
vm_at-change_vm vmid asked g [] = ground arith
vm_at-change_vm vmid asked g ((other, old) ∷ rest) = ground (
  arith,
  vm_at-change_vm vmid asked g rest,
  eqb_ℤ_iff other asked,
  eqb_ℤ_iff other vmid,
  eqb_ℤ_iff vmid asked,
)

vm_at-remove_vm :
    (vmid asked : ℤ) (m : VmMap)
    → vm_at asked (remove_vm vmid m) ≡ remove_at vmid (λ v. vm_at v m) asked
unfolding vm_at remove_vm
vm_at-remove_vm vmid asked [] = ground arith
vm_at-remove_vm vmid asked ((other, old) ∷ rest) = ground (
  arith,
  vm_at-remove_vm vmid asked rest,
  eqb_ℤ_iff other asked,
  eqb_ℤ_iff other vmid,
  eqb_ℤ_iff vmid asked,
)

module _ (P : Platform) (s : Server) (asked : ℤ) where
  -- An error that is set leaves the VMs as they are.
  view-unless_injected :
      (e : Option Text) (go : Handler) (g : View → View) (t : Server)
      → view t asked ≡ view s asked
      → view (go t).1 asked ≡ g (view s) asked
      → view (unless_injected e go t).1 asked ≡ unless_set e g (view s) asked
  unfolding unless_injected respond_error
  view-unless_injected none go g t kept h = h
  view-unless_injected (some why) go g t kept h = kept

  view-clone_for :
      (node : Text) (body : Payload) (t : Server)
      → t.vms ≡ s.vms
      → view (clone_for P node body t).1 asked ≡ cloned_at P node body (view s) asked
  unfolding clone_for respond_task respond new_upid cloned_vm
  view-clone_for node (clone_body r) t e =
      vm_at-put_vm (P.through_float r.new_id) asked _ t.vms ∙ rw e refl
  view-clone_for node nothing t e = rw e refl
  view-clone_for node version t e = rw e refl
  view-clone_for node (text x) t e = rw e refl
  view-clone_for node (failure x) t e = rw e refl
  view-clone_for node (page x) t e = rw e refl
  view-clone_for node (number x) t e = rw e refl
  view-clone_for node (nodes x) t e = rw e refl
  view-clone_for node (resources x) t e = rw e refl
  view-clone_for node (task x) t e = rw e refl
  view-clone_for node (interfaces x) t e = rw e refl
  view-clone_for node (config_body x) t e = rw e refl
  view-clone_for node (resize_body x) t e = rw e refl
  view-clone_for node (snippet_body x) t e = rw e refl

  view-agent :
      (e : Option Text) (vm : Option FakeVm)
      → view (unless_injected e (agent_answer vm) s).1 asked ≡ view s asked
  unfolding unless_injected agent_answer respond respond_error
  view-agent (some why) vm = refl
  view-agent none none = refl
  view-agent none (some vm) = refl

  view-task : (node upid : Text) → view (handle_task_status node upid s).1 asked ≡ view s asked
  unfolding handle_task_status respond respond_error
  view-task node upid = ground arith

  -- Handling a request changes the VMs in the way that it means, as maps from numbers to VMs, with
  -- every route, body and query, whatever the answer is: a clone puts a stopped VM of its name, on the
  -- host of the path, under its number; a configuration gives tags, cores and memory where it names
  -- them; start and stop set the status, and a deletion takes the VM away. Where its error is set, a
  -- clone, a configuration, a start or a deletion changes nothing, and every other request never does.
  pub view-handle :
      (r : Route) (kind : Text) (body : Payload)
      → view (handle P r kind body s).1 asked
        ≡ meaning P r body (λ op. injected op s) (view s) asked
  unfolding handle handle_version handle_nodes handle_cluster_resources handle_next_id handle_agent
      handle_clone handle_config handle_resize handle_start handle_stop handle_delete not_found
      respond respond_task new_upid next_id with_status
  view-handle to_version kind body = refl
  view-handle to_nodes kind body = refl
  view-handle to_resources kind body = refl
  view-handle to_next_id kind body = refl
  view-handle nowhere kind body = refl
  view-handle (to_task node upid) kind body = view-task node upid
  view-handle (to_agent node vmid) kind body =
      view-agent (injected (codes "agent") s) (vm_at vmid s.vms)
  view-handle (to_clone node template) kind body =
      view-unless_injected (injected (codes "clone") s) (clone_for P node body)
        (cloned_at P node body) _ refl (view-clone_for node body _ refl)
  view-handle (to_config node vmid) kind body =
      view-unless_injected (injected (codes "config") s) _ (change_at vmid (config_of P body)) _
        refl
        (vm_at-change_vm vmid asked (configured P body) s.vms
          ∙ change_at_same vmid asked (configured P body) (config_of P body) (view s)
              (configured-config_of P body))
  view-handle (to_resize node vmid) kind body = refl
  view-handle (to_start node vmid) kind body =
      view-unless_injected (injected (codes "start") s) _
        (change_at vmid (in_status (codes "running"))) _ refl
        (vm_at-change_vm vmid asked (with_status (codes "running")) s.vms)
  view-handle (to_stop node vmid) kind body =
      vm_at-change_vm vmid asked (with_status (codes "stopped")) s.vms
  view-handle (to_delete node vmid) kind body =
      view-unless_injected (injected (codes "delete") s) _ (remove_at vmid) _ refl
        (vm_at-remove_vm vmid asked s.vms)
