-- ===== src/Proxmox/FakeServer/Handlers.antt =====
-- The handlers of internal/adapter/proxmox/testserver/server.go, and vmIP.
use proxmox_k3s.Prelude.{
  ℕ, ◌+◌, ◌%◌, List, [], ◌∷◌, ◌++◌, map, Option, none, some, ◌||◌, if◌then◌else◌,
}
use proxmox_k3s.Prelude.Int.{ℤ, pos, is_zero}
use proxmox_k3s.Prelude.Text.{Text, codes, ◌==◌, is_empty, member}
use proxmox_k3s.Prelude.Text.Split.{split}
use proxmox_k3s.Prelude.Decimal.{decimal}
use proxmox_k3s.Prelude.Result.{err}
use proxmox_k3s.Proxmox.Node.{PveNode, ClusterResource}
use proxmox_k3s.Proxmox.Vm.{CloneRequest, AgentNetworkInterface}
use proxmox_k3s.Proxmox.Http.{TaskStatus}
use proxmox_k3s.Proxmox.FakeServer.{
  FakeVm, FakeNode, Server, vm_at, put_vm, change_vm, remove_vm, injected, with_vms, record_op,
}
use proxmox_k3s.Proxmox.FakeServer.Upid.{new_upid, next_id}
use proxmox_k3s.Proxmox.FakeServer.Answer.{
  Payload, version, text, number, nodes, resources, task, interfaces, clone_body, config_body,
  Platform, Handler, respond, respond_error, unless_injected,
}

unfoldable pub handle_version : Handler
unfolding respond
handle_version = respond version

unfoldable pub listed_node : FakeNode → PveNode
listed_node n = record {
  name = n.name;
  status = n.status;
  max_cpu = n.max_cpu;
  mem = pos 1073741824;
  max_mem = n.max_mem;
  disk = pos 0;
  max_disk = pos 0;
}

unfoldable pub handle_nodes : Handler
unfolding respond listed_node
handle_nodes s = respond (nodes (map listed_node s.nodes)) s

node_resource : FakeNode → ClusterResource
node_resource n = record {
  vmid = pos 0;
  name = [];
  node = n.name;
  kind = codes "node";
  status = n.status;
  tags = [];
  template = pos 0;
}

unfoldable pub vm_resource : ℤ × FakeVm → ClusterResource
vm_resource (key, vm) = record {
  vmid = vm.vmid;
  name = vm.name;
  node = vm.node;
  kind = codes "qemu";
  status = vm.status;
  tags = vm.tags;
  template = vm.template;
}

unfoldable pub handle_next_id : Handler
unfolding respond next_id
handle_next_id s = let (id, s') = next_id s in respond (number id) s'

abbrev pub done_task : Text → TaskStatus
done_task upid = record {
  status = codes "stopped";
  exit_status = codes "OK";
  kind = codes "qmclone";
  id = upid;
}

unfoldable pub handle_task_status : Text → Text → Handler
unfolding respond respond_error
handle_task_status node upid s =
    if member upid s.tasks
    then respond (task (done_task upid)) s
    else respond_error 404 (codes "task not found") s

sum_of : Text → ℕ
sum_of [] = 0
sum_of (c ∷ s) = c + sum_of s

last_part : List Text → Text
last_part [] = []
last_part (p ∷ []) = p
last_part (p ∷ q ∷ ps) = last_part (q ∷ ps)

-- vmIP. The sum stays far below the range of an int.
unfoldable pub vm_ip : Text → Text
unfolding last_part sum_of
vm_ip name = codes "192.168.20." ++ decimal (50 + sum_of (last_part (split name b'-')) % 50)

abbrev pub eth0 : Text → AgentNetworkInterface
eth0 ip = record {
  name = codes "eth0";
  ip_addresses = record { ip_address = ip; ip_address_type = codes "ipv4"; prefix = pos 24 } ∷ [];
  hardware_address = codes "52:54:00:12:34:56";
}

unfoldable pub agent_answer : Option FakeVm → Handler
unfolding respond respond_error vm_ip
agent_answer none s = respond_error 404 (codes "vm not found") s
agent_answer (some vm) s = respond (interfaces (eth0 (vm_ip vm.name) ∷ [])) s

unfoldable pub handle_agent : Text → ℤ → Handler
unfolding unless_injected agent_answer
handle_agent node vmid s =
    unless_injected (injected (codes "agent") s) (agent_answer (vm_at vmid s.vms)) s

unfoldable pub with_status : Text → FakeVm → FakeVm
with_status status vm = record vm { status = status }

module _ (P : Platform) where
  unfoldable pub listed_resources : Text → Server → List ClusterResource
  unfolding node_resource vm_resource
  listed_resources kind s =
      (if kind == codes "node" || is_empty kind then map node_resource s.nodes else [])
      ++ (if kind == codes "vm" || is_empty kind then map vm_resource (P.range_of s) else [])

  unfoldable pub handle_cluster_resources : Text → Handler
  unfolding respond listed_resources
  handle_cluster_resources kind s = respond (resources (listed_resources kind s)) s

  -- `s.respond(w, s.newUPID(node, op))`
  unfoldable pub respond_task : Text → Text → Handler
  unfolding respond new_upid
  respond_task node op s = let (upid, s') = new_upid P.stamp node op s in respond (text upid) s'

  unfoldable pub cloned_vm : Text → CloneRequest → FakeVm
  cloned_vm node r = record {
    vmid = P.through_float r.new_id;
    name = r.name;
    node = node;
    tags = [];
    template = pos 0;
    status = codes "stopped";
    cpu = pos 0;
    memory = pos 0;
  }

  -- handleClone behind the injected error. A body without a number `newid` makes it panic.
  unfoldable pub clone_for : Text → Payload → Handler
  unfolding respond_task cloned_vm
  clone_for node (clone_body r) s =
      respond_task node (codes "qmclone")
        (with_vms (put_vm (P.through_float r.new_id) (cloned_vm node r) s.vms) s)
  clone_for node body s = (err P.hung_up, s)

  unfoldable pub handle_clone : Text → ℤ → Payload → Handler
  unfolding unless_injected clone_for
  handle_clone node template_vmid body s =
      unless_injected (injected (codes "clone") s) (clone_for node body)
        (record_op (codes "clone") s)

  -- A field that is empty or zero is left out of the message.
  sent_number : ℤ → ℤ → ℤ
  sent_number n old = if is_zero n then old else P.through_float n

  unfoldable pub configured : Payload → FakeVm → FakeVm
  unfolding sent_number
  configured (config_body r) vm = record vm {
    tags = if is_empty r.tags then vm.tags else r.tags;
    cpu = sent_number r.cores vm.cpu;
    memory = sent_number r.memory vm.memory;
  }
  configured body vm = vm

  unfoldable pub handle_config : Text → ℤ → Payload → Handler
  unfolding unless_injected respond configured
  handle_config node vmid body s =
      unless_injected (injected (codes "config") s)
        (λ t. respond (text []) (with_vms (change_vm vmid (configured body) t.vms) t))
        (record_op (codes "config") s)

  unfoldable pub handle_resize : Text → ℤ → Handler
  unfolding respond_task
  handle_resize node vmid s = respond_task node (codes "qmresize") (record_op (codes "resize") s)

  unfoldable pub handle_start : Text → ℤ → Handler
  unfolding unless_injected respond_task with_status
  handle_start node vmid s =
      unless_injected (injected (codes "start") s)
        (λ t.
          respond_task node (codes "qmstart")
            (with_vms (change_vm vmid (with_status (codes "running")) t.vms) t))
        (record_op (codes "start") s)

  unfoldable pub handle_stop : Text → ℤ → Handler
  unfolding respond_task with_status
  handle_stop node vmid s =
      let t = record_op (codes "stop") s in
      respond_task node (codes "qmstop")
        (with_vms (change_vm vmid (with_status (codes "stopped")) t.vms) t)

  unfoldable pub handle_delete : Text → ℤ → Handler
  unfolding unless_injected respond_task
  handle_delete node vmid s =
      unless_injected (injected (codes "delete") s)
        (λ t. respond_task node (codes "qmdestroy") (with_vms (remove_vm vmid t.vms) t))
        (record_op (codes "delete") s)
