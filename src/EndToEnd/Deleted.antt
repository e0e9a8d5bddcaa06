-- ===== src/EndToEnd/Deleted.antt =====
-- Deleting nodes on the fake server: DeleteNode of internal/adapter/proxmox/provider.go, and the loop of
-- internal/usecase/delete/delete.go.
use proxmox_k3s.Prelude.{
  ℕ, suc, ◌+◌, ◌^◌, ◌≤◌, ◌<◌, ◌≡◌, refl, sym, ap, subst, ◌∙◌, arith, List, [], ◌∷◌, ◌++◌, All,
  append-nil, length,
}
use proxmox_k3s.Prelude.Int.{ℤ, pos}
use proxmox_k3s.Prelude.Text.{Text, codes}
use proxmox_k3s.Prelude.Result.{ok}
use proxmox_k3s.Domain.Model.{Node, NodeSpec}
use proxmox_k3s.Proxmox.Placement.{Floats, Strategy}
use proxmox_k3s.Proxmox.Provider.{delete_node}
use proxmox_k3s.Proxmox.Provider.Listing.{listed_node}
use proxmox_k3s.Proxmox.Client.{Client}
use proxmox_k3s.Proxmox.Client.Calls.{client_api}
use proxmox_k3s.Proxmox.FakeServer.{Server, FakeVm, VmMap, change_vm, remove_vm}
use proxmox_k3s.Proxmox.FakeServer.Answer.{Platform}
use proxmox_k3s.Proxmox.FakeServer.Handlers.{vm_resource, with_status}
use proxmox_k3s.Proxmox.FakeServer.Route.{max_int}
use proxmox_k3s.Proxmox.FakeServer.Transport.{fake_http}
use proxmox_k3s.Proxmox.FakeServer.Segments.{IsSegment}
use proxmox_k3s.Delete.Failures.{Deletes, all_done, gone, kept}
use proxmox_k3s.EndToEnd.Fresh.{IsFree, remove_vm-free}
use proxmox_k3s.EndToEnd.Calls.{Surroundings, NothingSet}
use proxmox_k3s.EndToEnd.VmCalls.{tasked, status_set, removed, stop-Ran, delete-Ran}
use proxmox_k3s.EndToEnd.Created.{same_errors, built_vm, built_vm-tagged, built_vm-vmid}
use proxmox_k3s.EndToEnd.Provisioned.{entries, stack}
use proxmox_k3s.Prelude.Perm.{Permᴰ, All-Permᴰ, Permᴰ-sym}
use proxmox_k3s.EndToEnd.Removed.{listed, entries-IsFree}

remove_vm-change_vm :
    (vmid : ℤ) (f : FakeVm → FakeVm) (m : VmMap)
    → remove_vm vmid (change_vm vmid f m) ≡ remove_vm vmid m
unfolding remove_vm change_vm
remove_vm-change_vm vmid f [] = refl
remove_vm-change_vm vmid f ((other, vm) ∷ m) = ground (arith, remove_vm-change_vm vmid f m)

remove_vm_comm : (a b : ℤ) (m : VmMap) → remove_vm a (remove_vm b m) ≡ remove_vm b (remove_vm a m)
unfolding remove_vm
remove_vm_comm a b [] = refl
remove_vm_comm a b ((other, vm) ∷ m) = ground (arith, remove_vm_comm a b m)

-- The VMs without those of some nodes.
remove_each : List Node → VmMap → VmMap
remove_each [] m = m
remove_each (x ∷ xs) m = remove_each xs (remove_vm x.vmid m)

remove_each-Permᴰ :
    {xs ys : List Node} → Permᴰ xs ys → (m : VmMap) → remove_each xs m ≡ remove_each ys m
unfolding remove_each
remove_each-Permᴰ Permᴰ.nil m = refl
remove_each-Permᴰ (Permᴰ.cons {a = a} {l₂ = ys} e p) m =
    remove_each-Permᴰ p (remove_vm a.vmid m)
    ∙ ap (λ (x : Node). remove_each ys (remove_vm x.vmid m)) e
remove_each-Permᴰ (Permᴰ.swap {a = a} {b = b} {b' = b'} {l = l} e f) m =
    ap (remove_each l) (remove_vm_comm b.vmid a.vmid m)
    ∙ (ap (λ (x : Node). remove_each l (remove_vm x.vmid (remove_vm b.vmid m))) e
        ∙ ap (λ (x : Node). remove_each l (remove_vm b'.vmid (remove_vm x.vmid m))) f)
remove_each-Permᴰ (Permᴰ.trans p q) m = remove_each-Permᴰ p m ∙ remove_each-Permᴰ q m

-- A node that can be deleted: its number is an int, and its host can stand in a path.
record CanDelete (m : Node) : Type 0 where
  vmid : ℕ
  numbered : m.vmid ≡ pos vmid
  small : vmid ≤ max_int
  hosted : IsSegment m.host_node

module _ (c : Client) (P : Platform) (around : Surroundings c P) (source : Text)
    (hosted : IsSegment source) where
  built-vmid :
      (n : ℕ) (spec : NodeSpec)
      → n + 1 < 2 ^ 31
      → (listed_node spec (vm_resource (pos (n + 1), built_vm P source (pos (n + 1)) spec))).vmid
        ≡ pos (n + 1)
  unfolding vm_resource
  built-vmid n spec room = built_vm-vmid c P around source (n + 1) spec (omega arith)

  built-CanDelete :
      (n : ℕ) (spec : NodeSpec)
      → n + 1 < 2 ^ 31
      → CanDelete
          (listed_node spec (vm_resource (pos (n + 1), built_vm P source (pos (n + 1)) spec)))
  unfolding vm_resource
  built-CanDelete n spec room = record {
    vmid = n + 1;
    numbered = built_vm-vmid c P around source (n + 1) spec (omega arith);
    small = omega arith;
    hosted = subst IsSegment (sym (built_vm-tagged P source (pos (n + 1)) spec).1) hosted;
  }

  listed-CanDelete :
      (specs : List NodeSpec) (n : ℕ)
      → n + length specs < 2 ^ 31
      → All CanDelete (listed P source n specs)
  unfolding listed
  listed-CanDelete [] n room = tt
  listed-CanDelete (spec ∷ specs) n room =
      (built-CanDelete n spec (omega arith), listed-CanDelete specs (n + 1) (omega arith))

  -- Without the VMs of specifications, those that were there before are left.
  remove_each-listed :
      (specs : List NodeSpec) (n : ℕ) (base : VmMap)
      → n + length specs < 2 ^ 31
      → ((i : ℕ) → i < length specs → IsFree (pos (n + 1 + i)) base)
      → remove_each (listed P source n specs) (base ++ entries P source n specs) ≡ base
  unfolding remove_each listed entries
  remove_each-listed [] n base room free = append-nil base
  remove_each-listed (spec ∷ specs) n base room free =
      let here : IsFree (pos (n + 1)) base =
        subst (λ k. IsFree (pos k) base) (omega arith) (free 0 (omega arith)) in
      ap
        (λ k.
          remove_each (listed P source (n + 1) specs)
            (remove_vm k (base ++ entries P source n (spec ∷ specs))))
        (built-vmid n spec (omega arith))
      ∙ (ap (remove_each (listed P source (n + 1) specs)) (
            remove_vm-free (pos (n + 1)) (built_vm P source (pos (n + 1)) spec) base
              (entries P source (n + 1) specs) here
              (entries-IsFree P source (n + 1) (n + 1) specs (omega arith)))
          ∙ remove_each-listed specs (n + 1) base (omega arith)
              (λ i hi. subst (λ k. IsFree (pos k) base) (omega arith) (free (suc i) (omega arith))))

module _ (floats : Floats) (c : Client) (P : Platform) (around : Surroundings c P) (left : ℕ)
    (late : 500 < left) (template storage : Text) (rounds : ℕ) where
  -- The server behind a deletion.
  after_delete : Text → ℤ → Server → Server
  after_delete host vmid s = tasked P host (codes "qmdestroy") (
      removed vmid
        (tasked P host (codes "qmstop") (status_set vmid (codes "stopped") (codes "stop") s)))

  delete_node_lem :
      (m : Node) (host : Text) (n : ℕ) (s : Server) (strategy : Strategy)
      → m.host_node ≡ host
      → m.vmid ≡ pos n
      → IsSegment host
      → n ≤ max_int
      → NothingSet s
      → delete_node floats (client_api c (fake_http P) left) template storage m (s, strategy)
        ≡ (ok tt, (after_delete host (pos n) s, strategy))
  unfolding delete_node after_delete
  delete_node_lem m host n s strategy at numbered hosted small unset =
      let st = stop-Ran c P around host n hosted small left late s unset in
      let t =
        tasked P host (codes "qmstop") (status_set (pos n) (codes "stopped") (codes "stop") s) in
      let unset' = same_errors s t (unfold tasked in refl) unset in
      let dl = delete-Ran c P around host n hosted small left late t unset' in
      rw (at, numbered, st.answered, st.waited, dl.answered, dl.waited) refl

  after_delete-vms :
      (host : Text) (vmid : ℤ) (s : Server) → (after_delete host vmid s).vms ≡ remove_vm vmid s.vms
  unfolding after_delete tasked
  after_delete-vms host vmid s = remove_vm-change_vm vmid (with_status (codes "stopped")) s.vms

  after_delete-NothingSet :
      (host : Text) (vmid : ℤ) (s : Server) → NothingSet s → NothingSet (after_delete host vmid s)
  unfolding after_delete tasked
  after_delete-NothingSet host vmid s h = same_errors s (after_delete host vmid s) refl h

  abbrev Deletions : Server × Strategy → List Node → List Text → Server × Strategy → Type 0
  Deletions = Deletes (stack floats c P left template storage rounds)

  -- Deleting such nodes, one after the other, has no failure and leaves the other VMs.
  deletions :
      (ns : List Node) (failed : List Text) (s t : Server × Strategy)
      → All CanDelete ns
      → NothingSet s.0
      → Deletions s ns failed t
      → (failed ≡ []) × (t.0.vms ≡ remove_each ns s.0.vms)
  unfolding remove_each
  deletions [] failed s t can unset all_done = (refl, refl)
  deletions (m ∷ ns) failed s t (here, can) unset (gone {t = mid} went d) =
      let after = after_delete m.host_node (pos here.vmid) s.0 in
      let q : mid ≡ (after, s.1) =
        ap (λ x. x.1)
          (sym went
            ∙ delete_node_lem m m.host_node here.vmid s.0 s.1 refl here.numbered here.hosted
                here.small unset) in
      let (no_failure, e) =
        deletions ns failed mid t can
          (rw q (after_delete-NothingSet m.host_node (pos here.vmid) s.0 unset)) d in
      (
        no_failure,
        e
            ∙ ap (remove_each ns) (
                ap (λ x. x.0.vms) q
                ∙ (after_delete-vms m.host_node (pos here.vmid) s.0
                    ∙ ap (λ k. remove_vm k s.0.vms) (sym here.numbered))),
      )
  deletions (m ∷ ns) _ s t (here, can) unset (kept failing d) = cc (
    failing,
    delete_node_lem m m.host_node here.vmid s.0 s.1 refl here.numbered here.hosted here.small unset,
  )

  -- Deleting the nodes of specifications, in whatever order, leaves the VMs that were there before.
  pub listed-removed :
      (specs : List NodeSpec) (source : Text) (n : ℕ) (base : VmMap) (ns : List Node)
      (failed : List Text) (s t : Server × Strategy)
      → IsSegment source
      → n + length specs < 2 ^ 31
      → ((i : ℕ) → i < length specs → IsFree (pos (n + 1 + i)) base)
      → NothingSet s.0
      → s.0.vms ≡ base ++ entries P source n specs
      → Permᴰ ns (listed P source n specs)
      → Deletions s ns failed t
      → (failed ≡ []) × (t.0.vms ≡ base)
  listed-removed specs source n base ns failed s t hosted room free unset e p d =
      let can =
        All-Permᴰ CanDelete (Permᴰ-sym p)
          (listed-CanDelete c P around source hosted specs n room) in
      let (no_failure, left_over) = deletions ns failed s t can unset d in
      (
        no_failure,
        left_over
            ∙ (remove_each-Permᴰ p s.0.vms
                ∙ (ap (remove_each (listed P source n specs)) e
                    ∙ remove_each-listed c P around source hosted specs n base room free)),
      )
