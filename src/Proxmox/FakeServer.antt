-- ===== src/Proxmox/FakeServer.antt =====
-- internal/adapter/proxmox/testserver/server.go: the state of the fake Proxmox server and the
-- operations on it. A request is handled whole before the next one.
pub mod Upid
pub mod Answer
pub mod Handlers
pub mod Route
pub mod Transport
pub mod Meaning
pub mod Effect
pub mod Coherent
pub mod Reached
pub mod Segments
pub mod Routing
pub mod Exchange
pub mod Session
pub mod Tasks
use proxmox_k3s.Prelude.{ℕ, ◌+◌, List, [], ◌∷◌, ◌++◌, Option, none, some, if◌then◌else◌}
use proxmox_k3s.Prelude.Int.{ℤ, pos, is_zero, eqb_ℤ}
use proxmox_k3s.Prelude.Text.{Text, codes, ◌==◌}
use proxmox_k3s.Prelude.Dict.{Dict, lookup, insert}

-- FakeVM
pub record FakeVm : Type 0 where
  pub vmid : ℤ
  pub name : Text
  pub node : Text
  pub tags : Text
  pub template : ℤ
  pub status : Text
  pub cpu : ℤ
  pub memory : ℤ

pub record FakeNode : Type 0 where
  pub name : Text
  pub status : Text
  pub max_cpu : ℤ
  pub max_mem : ℤ

-- `map[int]*FakeVM`. No two entries share a VM: each pointer is to a value of its own.
abbrev pub VmMap : Type 0
VmMap = List (ℤ × FakeVm)

unfoldable pub vm_at : ℤ → VmMap → Option FakeVm
vm_at vmid [] = none
vm_at vmid ((other, vm) ∷ rest) = if eqb_ℤ other vmid then some vm else vm_at vmid rest

-- `s.vms[vmid] = vm`
unfoldable pub put_vm : ℤ → FakeVm → VmMap → VmMap
put_vm vmid vm [] = (vmid, vm) ∷ []
put_vm vmid vm ((other, old) ∷ rest) =
    if eqb_ℤ other vmid then (other, vm) ∷ rest else (other, old) ∷ put_vm vmid vm rest

-- `if vm, ok := s.vms[vmid]; ok`, with the change of `vm` as a function.
unfoldable pub change_vm : ℤ → (FakeVm → FakeVm) → VmMap → VmMap
change_vm vmid f [] = []
change_vm vmid f ((other, vm) ∷ rest) =
    if eqb_ℤ other vmid then (other, f vm) ∷ rest else (other, vm) ∷ change_vm vmid f rest

-- `delete(s.vms, vmid)`
unfoldable pub remove_vm : ℤ → VmMap → VmMap
remove_vm vmid [] = []
remove_vm vmid ((other, vm) ∷ rest) =
    let rest' = remove_vm vmid rest in if eqb_ℤ other vmid then rest' else (other, vm) ∷ rest'

-- Server, without its lock and its listener. The two counters are the bits of an int32. An error of
-- the injector is its text; `none` stands for a nil error.
pub record Server : Type 0 where
  pub vms : VmMap
  pub nodes : List FakeNode
  pub next_vmid : ℕ
  pub upid_seq : ℕ
  pub tasks : List Text
  pub errors : Dict (Option Text)
  pub ops : List Text

abbrev pub template_vm : FakeVm
template_vm = record {
  vmid = pos 9000;
  name = codes "ubuntu-2404-cloudinit";
  node = codes "pve1";
  tags = [];
  template = pos 1;
  status = codes "stopped";
  cpu = pos 0;
  memory = pos 0;
}

-- New
abbrev pub new_server : Server
new_server = record {
  vms = (pos 9000, template_vm) ∷ [];
  nodes =
      record {
        name = codes "pve1";
        status = codes "online";
        max_cpu = pos 32;
        max_mem = pos 68719476736;
      }
      ∷ [];
  next_vmid = 100;
  upid_seq = 0;
  tasks = [];
  errors = [];
  ops = [];
}

abbrev found_error : Option (Option Text) → Option Text
found_error none = none
found_error (some e) = e

-- ErrorInjector.get
unfoldable pub injected : Text → Server → Option Text
injected op s = found_error (lookup op s.errors)

delete_key : {A : Type 0} → Text → Dict A → Dict A
delete_key name [] = []
delete_key name ((other, value) ∷ rest) =
    let rest' = delete_key name rest in if other == name then rest' else (other, value) ∷ rest'

-- ErrorInjector.Clear
unfoldable pub clear_error : Text → Server → Server
unfolding delete_key
clear_error op s = record s { errors = delete_key op s.errors }

-- ErrorInjector.Set
abbrev pub set_error : Text → Option Text → Server → Server
set_error op e s = record s { errors = insert op e s.errors }

unfoldable pub vms_of : VmMap → List FakeVm
vms_of [] = []
vms_of ((vmid, vm) ∷ rest) =
    let rest' = vms_of rest in if is_zero vm.template then vm ∷ rest' else rest'

-- VMs, given the order in which the range over the map comes to them.
unfoldable pub server_vms : (Server → VmMap) → Server → List FakeVm
unfolding vms_of
server_vms range_of s = vms_of (range_of s)

count_vms : VmMap → ℕ
count_vms [] = 0
count_vms ((vmid, vm) ∷ rest) = let n = count_vms rest in if is_zero vm.template then n + 1 else n

-- VMCount
unfoldable pub vm_count : Server → ℕ
unfolding count_vms
vm_count s = count_vms s.vms

-- AddNode
abbrev pub add_node : FakeNode → Server → Server
add_node n s = record s { nodes = s.nodes ++ (n ∷ []) }

-- The server with another map of VMs.
abbrev pub with_vms : VmMap → Server → Server
with_vms vms s = record s { vms = vms }

-- recordOp
abbrev pub record_op : Text → Server → Server
record_op op s = record s { ops = s.ops ++ (op ∷ []) }
