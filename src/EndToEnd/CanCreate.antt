-- ===== src/EndToEnd/CanCreate.antt =====
-- The states of the fake server in which CreateNode succeeds so many times.
use proxmox_k3s.Prelude.{
  ℕ, suc, ◌+◌, ◌^◌, ◌<◌, ◌≡◌, ◌≢◌, ap, subst, arith, [], ◌∷◌, ◌++◌, All-append, map,
}
use proxmox_k3s.Prelude.Int.{pos, pos_part}
use proxmox_k3s.Prelude.Text.{Text}
use proxmox_k3s.Proxmox.Placement.{filter_online}
use proxmox_k3s.Proxmox.Placement.Fair.{Offers}
use proxmox_k3s.Proxmox.FakeServer.{Server, FakeVm}
use proxmox_k3s.Proxmox.FakeServer.Handlers.{listed_node}
use proxmox_k3s.Proxmox.FakeServer.Segments.{IsSegment}
use proxmox_k3s.EndToEnd.Fresh.{IsFree}
use proxmox_k3s.EndToEnd.Calls.{NothingSet}
use proxmox_k3s.EndToEnd.Templates.{HasTemplate, HasTemplate-more}

-- A server that can give so many more VMs: no error is set, it has the template and a host that is
-- online, hosts have plain names, and the next numbers are free and within an int32.
pub record CanCreate (template source : Text) (k : ℕ) (s : Server) : Type 0 where
  pub unset : NothingSet s
  pub has : HasTemplate template source s
  pub online : filter_online (map listed_node s.nodes) [] ≢ []
  pub named : (name : Text) → Offers (map listed_node s.nodes) [] name → IsSegment name
  pub room : s.next_vmid + k < 2 ^ 31
  pub free : (i : ℕ) → i < k → IsFree (pos (s.next_vmid + 1 + i)) s.vms

number_apart : (n i : ℕ) → pos (n + 1) ≢ pos (n + 1 + 1 + i)
number_apart n i e = omega (arith, ap pos_part e)

-- After one VM there is room for one less.
pub CanCreate-next :
    (template source : Text) (k : ℕ) (s t : Server) (vm : FakeVm)
    → t.vms ≡ s.vms ++ ((pos (s.next_vmid + 1), vm) ∷ [])
    → vm.template ≡ pos 0
    → t.nodes ≡ s.nodes
    → t.next_vmid ≡ s.next_vmid + 1
    → NothingSet t
    → CanCreate template source (suc k) s
    → CanCreate template source k t
CanCreate-next template source k s t vm vms plain nodes next unset can = record {
  unset = unset;
  has = HasTemplate-more template source s t _ vm vms plain can.has;
  online = rw nodes can.online;
  named = rw nodes can.named;
  room = omega (arith, can.room);
  free = λ i h.
      let moved : IsFree (pos (s.next_vmid + 1 + 1 + i)) s.vms =
        subst (λ m. IsFree (pos m) s.vms) (omega arith) (can.free (suc i) (omega arith)) in
      rw (vms, next)
        (All-append _ s.vms ((pos (s.next_vmid + 1), vm) ∷ []) moved
          (number_apart s.next_vmid i, tt));
}

pub first-IsFree :
    (template source : Text) (k : ℕ) (s : Server)
    → CanCreate template source (suc k) s
    → IsFree (pos (s.next_vmid + 1)) s.vms
first-IsFree template source k s can =
    subst (λ m. IsFree (pos m) s.vms) (omega arith) (can.free 0 (omega arith))
