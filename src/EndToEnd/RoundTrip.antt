-- ===== src/EndToEnd/RoundTrip.antt =====
-- `create` and `delete` on the fake server: provisionNodes of internal/usecase/create/create.go and
-- Run of internal/usecase/delete/delete.go, through the provider and the client.
use proxmox_k3s.Prelude.{
  subst, ℕ, zero, suc, ◌+◌, ◌<◌, ◌≡◌, refl, sym, ap, ◌∙◌, arith, List, [], ◌∷◌, All, All-append,
  All-imp, map, true, inl, inr, length, keep, not, Bool-cases,
}
use proxmox_k3s.Prelude.Text.{Text, is_empty, member, eq_refl}
use proxmox_k3s.Prelude.Result.{ok}
use proxmox_k3s.Domain.Size.{NodeRole, master, worker}
use proxmox_k3s.Domain.Model.{Cluster, NodePool, Node, NodeSpec}
use proxmox_k3s.Proxmox.Tags.RoundTrip.{IsPlain}
use proxmox_k3s.Proxmox.Placement.{Floats, Strategy}
use proxmox_k3s.Proxmox.Provider.{nodes_of}
use proxmox_k3s.Proxmox.Client.{Client}
use proxmox_k3s.Proxmox.FakeServer.{Server}
use proxmox_k3s.Proxmox.FakeServer.Answer.{Platform}
use proxmox_k3s.Proxmox.FakeServer.Handlers.{vm_resource}
use proxmox_k3s.Create.Names.{node_name, rounds, cluster_names}
use proxmox_k3s.Create.Plan.{IpPlan}
use proxmox_k3s.Create.Provision.{
  spec_of, missing_in_pool, missing_workers, missing, provision_nodes,
}
use proxmox_k3s.Create.Provision.Missing.{missing-names, provision_nodes_again}
use proxmox_k3s.Infra.{InfraProvider}
use proxmox_k3s.Delete.{run}
use proxmox_k3s.Delete.Failures.{run_outcome}
use proxmox_k3s.EndToEnd.Calls.{Surroundings}
use proxmox_k3s.EndToEnd.CanCreate.{CanCreate}
use proxmox_k3s.EndToEnd.Provisioned.{entries, stack, create_all_lem}
use proxmox_k3s.Prelude.Perm.{Permᴰ, Permᴰ-map, Permᴰ-sym}
use proxmox_k3s.EndToEnd.Removed.{
  IsOf, listed, listed-names, list_nodes_lem, shown, shown-listed, nothing_shown,
}
use proxmox_k3s.EndToEnd.Deleted.{listed-removed}

-- A property of the specifications that a cluster's nodes get.
module _ (c : Cluster) (plan : IpPlan) (existing : List Text) (P : NodeSpec → Type 0) where
  missing_in_pool-All :
      (role : NodeRole) (p : NodePool) (n i : ℕ)
      → ((k : ℕ) → P (spec_of c role p plan k))
      → All P (missing_in_pool c role p plan existing n i)
  unfolding missing_in_pool
  missing_in_pool-All role p zero i h = tt
  missing_in_pool-All role p (suc n) i h =
      elim (Bool-cases (member (node_name c.name p.name i) existing)) [
        | inl e ↦ rw e (missing_in_pool-All role p n (i + 1) h)
        | inr e ↦ rw e (h i, missing_in_pool-All role p n (i + 1) h)
      ]

  missing_workers-All :
      (ps : List NodePool)
      → All (λ p. (k : ℕ) → P (spec_of c worker p plan k)) ps
      → All P (missing_workers c ps plan existing)
  unfolding missing_workers
  missing_workers-All [] h = tt
  missing_workers-All (p ∷ ps) (hp, h) =
      All-append P _ _ (missing_in_pool-All worker p (rounds p.count) 0 hp)
        (missing_workers-All ps h)

-- The names of the pools do not disturb the tags.
abbrev pub HasPlainNames : Cluster → Type 0
HasPlainNames c =
    IsPlain c.name × IsPlain c.masters.name × All (λ (p : NodePool). IsPlain p.name) c.workers

missing-All :
    (c : Cluster) (plan : IpPlan) (existing : List Node) (P : NodeSpec → Type 0)
    → ((k : ℕ) → P (spec_of c master c.masters plan k))
    → All (λ p. (k : ℕ) → P (spec_of c worker p plan k)) c.workers
    → All P (missing c plan existing)
unfolding missing
missing-All c plan existing P hm hw =
    let names = map (λ (n : Node). n.name) existing in
    All-append P _ _
      (missing_in_pool-All c plan names P master c.masters (rounds c.masters.count) 0 hm)
      (missing_workers-All c plan names P c.workers hw)

missing-IsOf :
    (c : Cluster) (plan : IpPlan) (existing : List Node)
    → HasPlainNames c
    → All (IsOf c.name) (missing c plan existing)
unfolding spec_of
missing-IsOf c plan existing (plain, masters, workers) =
    missing-All c plan existing (IsOf c.name) (λ k. (refl, masters))
      (All-imp _ _ c.workers (λ p h. λ k. (refl, h)) workers)

pub missing-anywhere :
    (c : Cluster) (plan : IpPlan) (existing : List Node)
    → All (λ (spec : NodeSpec). is_empty spec.host_node ≡ true) (missing c plan existing)
unfolding spec_of
missing-anywhere c plan existing =
    missing-All c plan existing _ (λ k. refl) (everywhere c.workers (λ p k. refl))
  where
    everywhere : {A : Type 0} {P : A → Type 0} (xs : List A) → ((x : A) → P x) → All P xs
    everywhere [] f = tt
    everywhere (x ∷ xs) f = (f x, everywhere xs f)

all_kept : (xs : List Text) → keep (λ n. not (member n [])) xs ≡ xs
unfolding keep member
all_kept [] = refl
all_kept (x ∷ xs) = ap (λ r. x ∷ r) (all_kept xs)

members : (names : List Text) → All (λ n. member n names ≡ true) names
unfolding member
members names = of_part names names (λ n h. h)
  where
    of_part :
        (part names : List Text)
        → ((n : Text) → member n part ≡ true → member n names ≡ true)
        → All (λ n. member n names ≡ true) part
    of_part [] names f = tt
    of_part (x ∷ part) names f = (
      f x (ground (arith, eq_refl x)),
      of_part part names (λ n h. f n (ground (arith, h, member n part))),
    )

member-Permᴰ :
    {xs ys : List Text} → Permᴰ xs ys → (n : Text) → member n xs ≡ true → member n ys ≡ true
unfolding member
member-Permᴰ Permᴰ.nil n h = h
member-Permᴰ (Permᴰ.cons e p) n h = rw (sym e) (ground (arith, h, member-Permᴰ p n))
member-Permᴰ (Permᴰ.swap e f) n h = rw (sym e, sym f) (ground (arith, h))
member-Permᴰ (Permᴰ.trans p q) n h = member-Permᴰ q n (member-Permᴰ p n h)

module _ (I : InfraProvider) (c : Cluster) (plan : IpPlan) (s : I.State) where
  -- In a state without nodes of the cluster: provisionNodes makes them all; a listing then shows them,
  -- under the cluster's names in some order; provisionNodes on that listing makes none and changes
  -- nothing; and `delete` succeeds.
  pub record LivesAndDies : Type 0 where
    pub created_nodes : List Node
    pub listed_nodes : List Node
    pub populated : I.State
    pub emptied : I.State
    pub no_nodes : I.list_nodes c.name s ≡ (ok [], s)
    pub created : provision_nodes I c plan [] s ≡ (ok created_nodes, populated)
    pub created_names : map (λ (n : Node). n.name) created_nodes ≡ cluster_names c
    pub listed : I.list_nodes c.name populated ≡ (ok listed_nodes, populated)
    pub listed_names : Permᴰ (map (λ (n : Node). n.name) listed_nodes) (cluster_names c)
    pub again : provision_nodes I c plan listed_nodes populated ≡ (ok [], populated)
    pub deleted : run I c populated ≡ (ok tt, emptied)

module _ (floats : Floats) (c : Client) (P : Platform) (around : Surroundings c P) (left : ℕ)
    (late : 500 < left) (template storage : Text) (rounds : ℕ) where
  -- On a fake server that has no VMs of the cluster, sets no error, has templates of the name, all on
  -- one host, has a host online, all hosts with plain names, and can give the numbers that are needed:
  -- provisionNodes makes all nodes of the cluster, in the order of their names, whatever addresses are
  -- planned; a listing then shows nodes of exactly these names, in an order that is not known;
  -- provisionNodes on that listing makes none and changes nothing; and the pipeline `delete` succeeds
  -- and leaves exactly the VMs that were there before, whatever the order in which it finds the nodes.
  -- (The names of the cluster and its pools have no space and no semicolon, a wait may take more than
  -- half a second.)
  pub create_then_delete :
      (cl : Cluster) (plan : IpPlan) (source : Text) (s : Server) (strategy : Strategy)
      → HasPlainNames cl
      → CanCreate template source (length (missing cl plan [])) s
      → nodes_of cl.name (map vm_resource s.vms) ≡ []
      → (life : LivesAndDies (stack floats c P left template storage rounds) cl plan (s, strategy))
        × (life.emptied.0.vms ≡ s.vms)
  unfolding provision_nodes listed entries
  create_then_delete cl plan source s strategy plain can none =
      let I = stack floats c P left template storage rounds in
      let specs = missing cl plan [] in
      let ours = missing-IsOf cl plan [] plain in
      let made =
        create_all_lem floats c P around left late template storage rounds specs source [] s
          strategy can (missing-anywhere cl plan []) in
      let found = shown P cl.name made.after in
      let lists = list_nodes_lem c P around cl.name floats left template storage in
      let same =
        shown-listed c P around cl.name source specs s.vms s.next_vmid made.after plain.0 ours none
          made.vms in
      let wanted : map (λ (spec : NodeSpec). spec.name) specs ≡ cluster_names cl =
        missing-names cl plan [] ∙ all_kept (cluster_names cl) in
      let names : Permᴰ (map (λ (n : Node). n.name) found) (cluster_names cl) =
        subst (Permᴰ (map (λ (n : Node). n.name) found))
          (listed-names P source s.next_vmid specs ∙ wanted)
          (Permᴰ-map (λ (n : Node). n.name) same) in
      let (failed, (t, strategy'), deletes, outcome) =
        run_outcome I cl found (made.after, made.next) (made.after, made.next)
          (lists made.after made.next) in
      let (no_failure, left_over) =
        listed-removed floats c P around left late template storage rounds specs source s.next_vmid
          s.vms found failed (made.after, made.next) (t, strategy') can.has.placed can.room can.free
          made.unset made.vms same deletes in
      (
        record {
          created_nodes = made.nodes;
          listed_nodes = found;
          populated = (made.after, made.next);
          emptied = (t, strategy');
          no_nodes =
              lists s strategy
              ∙ ap (λ ns. (ok ns, (s, strategy))) (nothing_shown c P around cl.name s none);
          created = made.succeeded;
          created_names = made.names ∙ wanted;
          listed = lists made.after made.next;
          listed_names = names;
          again =
              provision_nodes_again I cl plan found (made.after, made.next)
                (All-imp _ _ (cluster_names cl) (member-Permᴰ (Permᴰ-sym names))
                  (members (cluster_names cl)));
          deleted = elim outcome [ inl (e, done) ↦ done | inr (e, fails) ↦ absurd (e no_failure) ];
        },
        left_over,
      )
