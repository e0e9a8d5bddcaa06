-- ===== src/EndToEnd/Orphan.antt =====
-- What rollback and `delete` make of the VM that a CreateNode has cloned and could not configure, on the
-- fake server.
use proxmox_k3s.Prelude.{
  ℕ, ◌+◌, ◌^◌, ◌<◌, ◌≡◌, refl, subst, ap, ◌∙◌, arith, List, [], ◌∷◌, ◌++◌, All, true, inl, inr,
  Bool, false, not, ◌&&◌, keep, map, map-append,
}
use proxmox_k3s.Prelude.Int.{pos}
use proxmox_k3s.Prelude.Text.{Text, codes, ◌==◌, is_empty, trim_space}
use proxmox_k3s.Prelude.Text.Split.{split}
use proxmox_k3s.Proxmox.Tags.{tag, has_tag}
use proxmox_k3s.Prelude.Result.{ok, err}
use proxmox_k3s.Domain.Error.{Error, wrap}
use proxmox_k3s.Domain.Model.{Cluster, NodeSpec}
use proxmox_k3s.Proxmox.Node.{ClusterResource, is_one}
use proxmox_k3s.Proxmox.Placement.{Floats, Strategy, pick}
use proxmox_k3s.Proxmox.Placement.Fair.{pick_cases}
use proxmox_k3s.Proxmox.Provider.{node_of, clone_request, list_nodes, nodes_of, is_listed}
use proxmox_k3s.Proxmox.Client.{Client}
use proxmox_k3s.Proxmox.Client.Calls.{client_api}
use proxmox_k3s.Proxmox.FakeServer.{Server, FakeVm, record_op, put_vm}
use proxmox_k3s.Proxmox.FakeServer.Answer.{Platform}
use proxmox_k3s.Proxmox.FakeServer.Handlers.{listed_node, vm_resource, cloned_vm}
use proxmox_k3s.Proxmox.FakeServer.Transport.{fake_http}
use proxmox_k3s.Infra.{InfraProvider}
use proxmox_k3s.Create.Plan.{IpPlan}
use proxmox_k3s.Create.Provision.{missing, provision_nodes, create_all, rollback}
use proxmox_k3s.Delete.{run}
use proxmox_k3s.EndToEnd.Fresh.{IsFree, put_vm-free}
use proxmox_k3s.EndToEnd.Calls.{Surroundings, counted}
use proxmox_k3s.EndToEnd.VmCalls.{tasked}
use proxmox_k3s.EndToEnd.Created.{after_clone}
use proxmox_k3s.EndToEnd.Provisioned.{stack}
use proxmox_k3s.EndToEnd.Removed.{nodes_of-append, list_nodes_lem, nothing_shown}
use proxmox_k3s.EndToEnd.RoundTrip.{missing-anywhere}
use proxmox_k3s.EndToEnd.Refused.{CannotConfigure, create_node_refused}

-- The VM that a failed CreateNode leaves behind, next to those of a server.
record Stranded (spec : NodeSpec) (s t : Server) : Type 0 where
  orphan : FakeVm
  named : orphan.name ≡ spec.name
  untagged : orphan.tags ≡ []
  vms : t.vms ≡ s.vms ++ ((pos (s.next_vmid + 1), orphan) ∷ [])

cloned-Stranded :
    (c : Client) (P : Platform) (around : Surroundings c P) (storage source host : Text)
    (spec : NodeSpec) (s : Server)
    → s.next_vmid + 1 < 2 ^ 31
    → IsFree (pos (s.next_vmid + 1)) s.vms
    → Stranded spec s (
        record_op
          (codes "config")
          (after_clone P storage source host spec (pos (s.next_vmid + 1)) (counted s)))
unfolding after_clone tasked clone_request cloned_vm
cloned-Stranded c P around storage source host spec s room free =
    let n = s.next_vmid + 1 in
    let vm = cloned_vm P source (clone_request storage host (pos n) spec) in
    record {
      orphan = vm;
      named = refl;
      untagged = refl;
      vms =
          ap (λ x. put_vm x vm s.vms) (around.exact n (omega arith))
          ∙ put_vm-free (pos n) vm s.vms free;
    }

and_false : (b : Bool) → not b && false ≡ false
and_false true = refl
and_false false = refl

hidden : (cluster : Text) (r : ClusterResource) → r.tags ≡ [] → is_listed cluster r ≡ false
unfolding is_listed has_tag split trim_space tag ◌==◌
hidden cluster r e = rw (e, and_false (is_one r.template)) refl

keep_none : {A : Type 0} (p : A → Bool) (x : A) → p x ≡ false → keep p (x ∷ []) ≡ []
unfolding keep
keep_none p x e = rw (keep, e) refl

no_node : (cluster : Text) (r : ClusterResource) → r.tags ≡ [] → nodes_of cluster (r ∷ []) ≡ []
unfolding nodes_of
no_node cluster r e = ap (map node_of) (keep_none (is_listed cluster) r (hidden cluster r e))

module _ (I : InfraProvider) (cl : Cluster) where
  -- If the first node cannot be created, there is nothing to roll back.
  first_fails :
      (plan : IpPlan) (spec : NodeSpec) (specs : List NodeSpec) (e : Error) (s t : I.State)
      → missing cl plan [] ≡ spec ∷ specs
      → I.create_node spec s ≡ (err e, t)
      → provision_nodes I cl plan [] s ≡ (err (wrap (codes "creating " ++ spec.name) e), t)
  unfolding provision_nodes create_all rollback
  first_fails plan spec specs e s t wanted failed = rw (wanted, failed) refl

  nothing_to_delete : (s : I.State) → I.list_nodes cl.name s ≡ (ok [], s) → run I cl s ≡ (ok tt, s)
  unfolding run
  nothing_to_delete s e = rw e refl

module _ (floats : Floats) (c : Client) (P : Platform) (around : Surroundings c P) (left : ℕ)
    (late : 500 < left) (template storage : Text) (rounds : ℕ) where
  -- The first node fails, and ListNodes does not show what it leaves.
  orphan-unlisted :
      (cluster : Text) (spec : NodeSpec) (s t : Server) (strategy : Strategy)
      → Stranded spec s t
      → nodes_of cluster (map vm_resource s.vms) ≡ []
      → list_nodes floats (client_api c (fake_http P) left) template storage cluster (t, strategy)
        ≡ (ok [], (t, strategy))
  orphan-unlisted cluster spec s t strategy stays no_nodes =
      list_nodes_lem c P around cluster floats left template storage t strategy
      ∙ ap (λ ns. (ok ns, (t, strategy))) (nothing_shown c P around cluster t hidden_there)
    where
      hidden_there : nodes_of cluster (map vm_resource t.vms) ≡ []
      hidden_there =
          rw
            (
              stays.vms,
              map-append,
              nodes_of-append,
              no_nodes,
              no_node cluster (vm_resource (pos (s.next_vmid + 1), stays.orphan))
                  (unfold vm_resource in stays.untagged),
            )
            refl

  -- Where the fake server refuses to configure VMs and refuses no clone, has templates of the name, all on
  -- one host, a host online, all hosts with plain names, a free number, and no VMs of the cluster:
  -- provisionNodes, for a cluster of at least one node and any plan of its addresses, fails and leaves
  -- one VM more on the server, with the name of the first node and without tags. A listing shows no node
  -- of the cluster, and the pipeline `delete` succeeds without touching the server. (A wait may take
  -- more than half a second.)
  pub refused_node_stays :
      (cl : Cluster) (plan : IpPlan) (source : Text) (s : Server) (strategy : Strategy)
      (spec : NodeSpec) (specs : List NodeSpec)
      → CannotConfigure template source s
      → missing cl plan [] ≡ spec ∷ specs
      → nodes_of cl.name (map vm_resource s.vms) ≡ []
      → (error : Error) × (orphan : FakeVm) × (t : Server × Strategy) × (provision_nodes
            (stack floats c P left template storage rounds)
            cl
            plan
            []
            (s, strategy)
          ≡ (err error, t))
        × (t.0.vms ≡ s.vms ++ ((pos (s.next_vmid + 1), orphan) ∷ []))
        × (orphan.name ≡ spec.name)
        × (orphan.tags ≡ [])
        × ((stack floats c P left template storage rounds).list_nodes cl.name t ≡ (ok [], t))
        × (run (stack floats c P left template storage rounds) cl t ≡ (ok tt, t))
  refused_node_stays cl plan source s strategy spec specs can wanted no_nodes =
      let I = stack floats c P left template storage rounds in
      let here : is_empty spec.host_node ≡ true =
        (subst (All (λ (x : NodeSpec). is_empty x.host_node ≡ true)) wanted
          (missing-anywhere cl plan [])).0 in
      elim (pick_cases floats strategy (map listed_node s.nodes) []) [
        | inl (nowhere, e) ↦ absurd (can.online nowhere)
        | inr (host, e, offered) ↦
            let next = (pick floats strategy (map listed_node s.nodes) []).1 in
            let failed =
              create_node_refused floats c P around left late template storage spec source host s
                strategy next can here (ap (λ r. (r, next)) e) (can.named host offered) in
            let stays = cloned-Stranded c P around storage source host spec s can.room can.free in
            let unlisted = orphan-unlisted cl.name spec s _ next stays no_nodes in
            (
              _,
              stays.orphan,
              _,
              first_fails I cl plan spec specs _ (s, strategy) _ wanted failed,
              stays.vms,
              stays.named,
              stays.untagged,
              unlisted,
              nothing_to_delete I cl _ unlisted,
            )
      ]
