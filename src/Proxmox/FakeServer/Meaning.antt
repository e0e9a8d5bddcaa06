-- ===== src/Proxmox/FakeServer/Meaning.antt =====
-- What the requests to internal/adapter/proxmox/testserver/server.go mean for its VMs, as a map from
-- numbers to VMs.
use proxmox_k3s.Prelude.{
  zero, suc, ap, ◌≡◌, refl, arith, [], ◌∷◌, Option, none, some, if◌then◌else◌,
}
use proxmox_k3s.Prelude.Int.{ℤ, pos, negsuc, is_zero, eqb_ℤ}
use proxmox_k3s.Prelude.Text.{Text, codes, is_empty}
use proxmox_k3s.Proxmox.FakeServer.{FakeVm, Server, vm_at}
use proxmox_k3s.Proxmox.FakeServer.Answer.{
  Payload, nothing, version, text, failure, page, number, nodes, resources, task, interfaces,
  clone_body, config_body, resize_body, snippet_body, Platform,
}
use proxmox_k3s.Proxmox.FakeServer.Handlers.{configured}
use proxmox_k3s.Proxmox.FakeServer.Route.{Route, to_clone, to_config, to_start, to_stop, to_delete}

-- The VMs by their numbers.
abbrev pub View : Type 0
View = ℤ → Option FakeVm

abbrev pub view : Server → View
view s vmid = vm_at vmid s.vms

abbrev pub changed_if : {A : Type 0} → (A → A) → Option A → Option A
changed_if f none = none
changed_if f (some a) = some (f a)

abbrev pub put_at : ℤ → FakeVm → View → View
put_at vmid vm f asked = if eqb_ℤ vmid asked then some vm else f asked

abbrev pub change_at : ℤ → (FakeVm → FakeVm) → View → View
change_at vmid g f asked = if eqb_ℤ vmid asked then changed_if g (f asked) else f asked

abbrev pub remove_at : ℤ → View → View
remove_at vmid f asked = if eqb_ℤ vmid asked then none else f asked

abbrev pub unless_set : Option Text → (View → View) → View → View
unless_set none g f = g f
unless_set (some e) g f = f

-- A text that is given, and else the old one; the same for a number, which comes as a float64.
abbrev given_text : Text → Text → Text
given_text [] old = old
given_text (c ∷ t) old = c ∷ t

abbrev given_number : Platform → ℤ → ℤ → ℤ
given_number P (pos zero) old = old
given_number P (pos (suc n)) old = P.through_float (pos (suc n))
given_number P (negsuc n) old = P.through_float (negsuc n)

abbrev pub in_status : Text → FakeVm → FakeVm
in_status status vm = record {
  vmid = vm.vmid;
  name = vm.name;
  node = vm.node;
  tags = vm.tags;
  template = vm.template;
  status = status;
  cpu = vm.cpu;
  memory = vm.memory;
}

-- A clone has its number and its name, stands on the host of the template, is stopped, and has nothing
-- else of it.
abbrev pub cloned_at : Platform → Text → Payload → View → View
cloned_at P node (clone_body r) f =
    put_at (P.through_float r.new_id)
      (record {
        vmid = P.through_float r.new_id;
        name = r.name;
        node = node;
        tags = [];
        template = pos 0;
        status = codes "stopped";
        cpu = pos 0;
        memory = pos 0;
      })
      f
cloned_at P node body f = f

-- A configuration gives the tags, the cores and the memory, where it says something of them.
abbrev pub config_of : Platform → Payload → FakeVm → FakeVm
config_of P (config_body r) vm = record {
  vmid = vm.vmid;
  name = vm.name;
  node = vm.node;
  tags = given_text r.tags vm.tags;
  template = vm.template;
  status = vm.status;
  cpu = given_number P r.cores vm.cpu;
  memory = given_number P r.memory vm.memory;
}
config_of P body vm = vm

-- What a request means for the VMs, given the errors that are set.
abbrev pub meaning : Platform → Route → Payload → (Text → Option Text) → View → View
meaning P (to_clone node template) body errors f =
    unless_set (errors (codes "clone")) (cloned_at P node body) f
meaning P (to_config node vmid) body errors f =
    unless_set (errors (codes "config")) (change_at vmid (config_of P body)) f
meaning P (to_start node vmid) body errors f =
    unless_set (errors (codes "start")) (change_at vmid (in_status (codes "running"))) f
meaning P (to_stop node vmid) body errors f = change_at vmid (in_status (codes "stopped")) f
meaning P (to_delete node vmid) body errors f =
    unless_set (errors (codes "delete")) (remove_at vmid) f
meaning P r body errors f = f

given_text_lem : (t old : Text) → (if is_empty t then old else t) ≡ given_text t old
given_text_lem [] old = refl
given_text_lem (c ∷ t) old = refl

given_number_lem :
    (P : Platform) (n old : ℤ)
    → (if is_zero n then old else P.through_float n) ≡ given_number P n old
given_number_lem P (pos zero) old = refl
given_number_lem P (pos (suc n)) old = ground arith
given_number_lem P (negsuc n) old = refl

pub configured-config_of :
    (P : Platform) (body : Payload) (vm : FakeVm) → configured P body vm ≡ config_of P body vm
unfolding configured
configured-config_of P (config_body r) vm =
    rw
      (
        given_text_lem r.tags vm.tags,
        given_number_lem P r.cores vm.cpu,
        given_number_lem P r.memory vm.memory,
      )
      refl
configured-config_of P nothing vm = refl
configured-config_of P version vm = refl
configured-config_of P (text x) vm = refl
configured-config_of P (failure x) vm = refl
configured-config_of P (page x) vm = refl
configured-config_of P (number x) vm = refl
configured-config_of P (nodes x) vm = refl
configured-config_of P (resources x) vm = refl
configured-config_of P (task x) vm = refl
configured-config_of P (interfaces x) vm = refl
configured-config_of P (clone_body x) vm = refl
configured-config_of P (resize_body x) vm = refl
configured-config_of P (snippet_body x) vm = refl

changed_if_same :
    (f g : FakeVm → FakeVm) (o : Option FakeVm)
    → ((vm : FakeVm) → f vm ≡ g vm)
    → changed_if f o ≡ changed_if g o
changed_if_same f g none h = refl
changed_if_same f g (some vm) h = ap some (h vm)

pub change_at_same :
    (vmid asked : ℤ) (f g : FakeVm → FakeVm) (v : View)
    → ((vm : FakeVm) → f vm ≡ g vm)
    → change_at vmid f v asked ≡ change_at vmid g v asked
change_at_same vmid asked f g v h = rw (changed_if_same f g (v asked) h) refl
