-- ===== src/Proxmox/FakeServer/Reached.antt =====
-- The states that internal/adapter/proxmox/testserver/server.go can be in: requests of any kind, and
-- the calls of a test between them.
use proxmox_k3s.Prelude.{◌≡◌, inl, inr, refl, Option, none, some, Bool-cases}
use proxmox_k3s.Prelude.Text.{Text, codes, member}
use proxmox_k3s.Proxmox.Http.{Request}
use proxmox_k3s.Proxmox.FakeServer.{
  FakeVm, FakeNode, VmMap, Server, vm_at, injected, new_server, set_error, clear_error, add_node,
}
use proxmox_k3s.Proxmox.FakeServer.Upid.{new_upid, next_id}
use proxmox_k3s.Proxmox.FakeServer.Answer.{
  Handler, Payload, nothing, version, text, failure, page, number, nodes, resources, task,
  interfaces, clone_body, config_body, resize_body, snippet_body, Platform, unless_injected,
  respond, respond_error, not_found,
}
use proxmox_k3s.Proxmox.FakeServer.Handlers.{
  respond_task, handle_version, handle_nodes, handle_cluster_resources, handle_next_id,
  handle_task_status, handle_agent, agent_answer, handle_resize, clone_for, handle_clone,
  handle_config, handle_start, handle_stop, handle_delete, cloned_vm, configured, with_status,
}
use proxmox_k3s.Proxmox.FakeServer.Route.{
  Route, to_version, to_nodes, to_resources, to_next_id, nowhere, to_task, to_agent, to_clone,
  to_config, to_resize, to_start, to_stop, to_delete, route, handle,
}
use proxmox_k3s.Proxmox.FakeServer.Transport.{serve, body_or_nothing}
use proxmox_k3s.Proxmox.FakeServer.Coherent.{
  IsCoherent, Changed, kept, put, changed, removed, Changed-IsCoherent,
}

module _ (P : Platform) where
  unless_injected-Changed :
      (e : Option Text) (go : Handler) (t : Server) (m : VmMap)
      → t.vms ≡ m
      → Changed m (go t).1.vms
      → Changed m (unless_injected e go t).1.vms
  unfolding unless_injected respond_error
  unless_injected-Changed none go t m same h = h
  unless_injected-Changed (some why) go t m same h = rw same kept

  configured-vmid : (body : Payload) (vm : FakeVm) → (configured P body vm).vmid ≡ vm.vmid
  unfolding configured
  configured-vmid nothing vm = refl
  configured-vmid version vm = refl
  configured-vmid (text x) vm = refl
  configured-vmid (failure x) vm = refl
  configured-vmid (page x) vm = refl
  configured-vmid (number x) vm = refl
  configured-vmid (nodes x) vm = refl
  configured-vmid (resources x) vm = refl
  configured-vmid (task x) vm = refl
  configured-vmid (interfaces x) vm = refl
  configured-vmid (clone_body x) vm = refl
  configured-vmid (config_body x) vm = refl
  configured-vmid (resize_body x) vm = refl
  configured-vmid (snippet_body x) vm = refl

  clone_for-Changed :
      (node : Text) (body : Payload) (t : Server) → Changed t.vms (clone_for P node body t).1.vms
  unfolding clone_for respond_task respond new_upid cloned_vm
  clone_for-Changed node (clone_body r) t = put (cloned_vm P node r)
  clone_for-Changed node nothing t = kept
  clone_for-Changed node version t = kept
  clone_for-Changed node (text x) t = kept
  clone_for-Changed node (failure x) t = kept
  clone_for-Changed node (page x) t = kept
  clone_for-Changed node (number x) t = kept
  clone_for-Changed node (nodes x) t = kept
  clone_for-Changed node (resources x) t = kept
  clone_for-Changed node (task x) t = kept
  clone_for-Changed node (interfaces x) t = kept
  clone_for-Changed node (config_body x) t = kept
  clone_for-Changed node (resize_body x) t = kept
  clone_for-Changed node (snippet_body x) t = kept

  agent_answer-Changed : (vm : Option FakeVm) (t : Server) → Changed t.vms (agent_answer vm t).1.vms
  unfolding agent_answer respond respond_error
  agent_answer-Changed none t = kept
  agent_answer-Changed (some vm) t = kept

  task-Changed :
      (node upid : Text) (s : Server) → Changed s.vms (handle_task_status node upid s).1.vms
  unfolding handle_task_status respond respond_error
  task-Changed node upid s = elim (Bool-cases (member upid s.tasks)) [
    | inl e ↦ rw e kept
    | inr e ↦ rw e kept
  ]

  handle-Changed :
      (r : Route) (kind : Text) (body : Payload) (s : Server)
      → Changed s.vms (handle P r kind body s).1.vms
  unfolding handle handle_version handle_nodes handle_cluster_resources handle_next_id handle_agent
      handle_clone handle_config handle_resize handle_start handle_stop handle_delete not_found
      respond respond_task new_upid next_id with_status
  handle-Changed to_version kind body s = kept
  handle-Changed to_nodes kind body s = kept
  handle-Changed to_resources kind body s = kept
  handle-Changed to_next_id kind body s = kept
  handle-Changed nowhere kind body s = kept
  handle-Changed (to_task node upid) kind body s = task-Changed node upid s
  handle-Changed (to_agent node vmid) kind body s =
      unless_injected-Changed (injected (codes "agent") s) (agent_answer (vm_at vmid s.vms)) s s.vms
        refl (agent_answer-Changed (vm_at vmid s.vms) s)
  handle-Changed (to_clone node template) kind body s =
      unless_injected-Changed (injected (codes "clone") s) (clone_for P node body) _ s.vms refl
        (clone_for-Changed node body _)
  handle-Changed (to_config node vmid) kind body s =
      unless_injected-Changed (injected (codes "config") s) _ _ s.vms refl
        (changed vmid (configured P body) (configured-vmid body))
  handle-Changed (to_resize node vmid) kind body s = kept
  handle-Changed (to_start node vmid) kind body s =
      unless_injected-Changed (injected (codes "start") s) _ _ s.vms refl
        (changed vmid (with_status (codes "running")) (λ vm. refl))
  handle-Changed (to_stop node vmid) kind body s =
      changed vmid (with_status (codes "stopped")) (λ vm. refl)
  handle-Changed (to_delete node vmid) kind body s =
      unless_injected-Changed (injected (codes "delete") s) _ _ s.vms refl (removed vmid)

  -- One thing that happens to the server.
  pub data Step (s : Server) : Server → Type 0 where
    request : (r : Request Payload) → Step s (serve P r s).1
    set : (op : Text) (e : Option Text) → Step s (set_error op e s)
    clear : (op : Text) → Step s (clear_error op s)
    host : (n : FakeNode) → Step s (add_node n s)

  pub data Reached : Server → Type 0 where
    fresh : Reached new_server
    then_step : {s t : Server} → Reached s → Step s t → Reached t

  Step-Changed : (s t : Server) → Step s t → Changed s.vms t.vms
  unfolding serve clear_error
  Step-Changed s _ (request r) =
      handle-Changed (route r.method (P.path_of r.url)) (P.type_of r.url) (body_or_nothing r.body) s
  Step-Changed s _ (set op e) = kept
  Step-Changed s _ (clear op) = kept
  Step-Changed s _ (host n) = kept

  -- After any requests, whatever their methods, URLs and bodies, and any errors that are set or
  -- cleared and hosts that are added, every VM of the server stands under its own number, and no
  -- number stands twice.
  pub Reached-IsCoherent : (s : Server) → Reached s → IsCoherent s.vms
  Reached-IsCoherent _ fresh = (refl, tt, tt)
  Reached-IsCoherent t (then_step {s} r h) =
      Changed-IsCoherent s.vms t.vms (Step-Changed s t h) (Reached-IsCoherent s r)
