-- ===== src/Create/Phases/Whole.antt =====
-- The names of the cluster and those of the nodes that are ready after phase 5.
use proxmox_k3s.Prelude.{
  ℕ, List, [], ◌∷◌, ◌++◌, map, map-append, Bool, true, not, ◌≡◌, sym, ap, ◌∙◌, arith, keep, ◌||◌,
}
use proxmox_k3s.Prelude.Text.{Text, codes, member}
use proxmox_k3s.Prelude.Result.{ok, map_err, lift, continue-eq-ok, wrapping-eq-ok, ok-injective}
use proxmox_k3s.Domain.Error.{wrap}
use proxmox_k3s.Domain.Model.{Cluster, Node}
use proxmox_k3s.Net.{Ipv6}
use proxmox_k3s.Proxmox.Placement.{Floats}
use proxmox_k3s.Proxmox.Api.{Api}
use proxmox_k3s.Proxmox.Provider.Created.{wait_ready-name}
use proxmox_k3s.Infra.{InfraProvider, proxmox_provider}
use proxmox_k3s.Create.Names.{cluster_names, member-append}
use proxmox_k3s.Create.Plan.{plan_ips}
use proxmox_k3s.Create.Provision.{provision_nodes}
use proxmox_k3s.Create.Provision.Converged.{
  KeepsNames, proxmox_provider-KeepsNames, provision_nodes_converges,
}
use proxmox_k3s.Create.Ready.{is_master, split_by_role, split_by_role-keep, wait_all_ready}
use proxmox_k3s.Create.Ready.Waits.{names, WaitsByName, wait_all_ready-names}
use proxmox_k3s.Create.Phases.{all_ready, ready_nodes}

-- Every node is a master or not.
member-split :
    (p : Node → Bool) (n : Text) (ns : List Node)
    → member n (names ns) ≡ true
    → (member n (names (keep p ns)) || member n (names (keep (λ m. not (p m)) ns))) ≡ true
unfolding member keep
member-split p n [] h = h
member-split p n (m ∷ ns) h = ground (arith, member-split p n ns)

-- The Proxmox provider gives a node the name of its specification, and keeps it while the node
-- becomes ready, over any API and however often the guest agent may be asked.
pub proxmox_provider-laws :
    (floats : Floats) (A : Api) (template storage : Text) (rounds : ℕ)
    → KeepsNames (proxmox_provider floats A template storage rounds)
      × WaitsByName (proxmox_provider floats A template storage rounds)
proxmox_provider-laws floats A template storage rounds = (
  proxmox_provider-KeepsNames floats A template storage rounds,
  record { waits = wait_ready-name floats A template storage rounds },
)

module _ (v6 : Ipv6) (I : InfraProvider) (named : KeepsNames I) (waits : WaitsByName I) where
  open I use {State, preflight, list_nodes}

  both_ready-names :
      (masters workers ms ws : List Node) (s t : State)
      → all_ready v6 I (masters, workers) s ≡ (ok (ms, ws), t)
      → (names ms ≡ names masters) × (names ws ≡ names workers)
  unfolding all_ready
  both_ready-names masters workers ms ws s t h =
      let (xs, s1, e1, h1) =
        wrapping-eq-ok (wrap (codes "waiting for masters")) (wait_all_ready I masters) _ s t h in
      let (ys, s2, e2, h2) =
        wrapping-eq-ok (wrap (codes "waiting for workers")) (wait_all_ready I workers) _ s1 t h1 in
      let same : ◌≡◌ {A = List Node × List Node} (xs, ys) (ms, ws) =
        ok-injective (xs, ys) (ms, ws) s2 t h2 in
      (
        ap (λ (p : List Node × List Node). names p.0) (sym same)
            ∙ wait_all_ready-names I waits masters xs s s1 e1,
        ap (λ (p : List Node × List Node). names p.1) (sym same)
            ∙ wait_all_ready-names I waits workers ys s1 s2 e2,
      )

  pub ready_nodes-whole :
      (c : Cluster) (ms ws : List Node) (s t : State) (n : Text)
      → ready_nodes v6 I c s ≡ (ok (ms, ws), t)
      → member n (cluster_names c) ≡ true
      → member n (map (λ (m : Node). m.name) (ms ++ ws)) ≡ true
  unfolding ready_nodes
  ready_nodes-whole c ms ws s t n h hn =
      let (u, s1, e1, h1) = wrapping-eq-ok (wrap (codes "preflight")) (preflight c) _ s t h in
      let (existing, s2, e2, h2) =
        wrapping-eq-ok (wrap (codes "listing existing nodes")) (list_nodes c.name) _ s1 t h1 in
      let (plan, s3, e3, h3) =
        continue-eq-ok (lift (map_err (wrap (codes "IP allocation")) (plan_ips v6 c))) _ s2 t h2 in
      let (created, s4, e4, h4) =
        wrapping-eq-ok (wrap (codes "provisioning")) (provision_nodes I c plan existing) _ s3 t
          h3 in
      let covered = (provision_nodes_converges I named c plan existing created s3 s4 e4).1 n hn in
      let (em, ew) =
        both_ready-names (split_by_role (existing ++ created)).0
          (split_by_role (existing ++ created)).1 ms ws s4 t h4 in
      rw (map-append, member-append, em, ew, split_by_role-keep (existing ++ created))
        (member-split (λ m. is_master m.role) n (existing ++ created) covered)
