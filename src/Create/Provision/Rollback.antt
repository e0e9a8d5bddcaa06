-- ===== src/Create/Provision/Rollback.antt =====
-- The two outcomes of creating a list of nodes.
use proxmox_k3s.Prelude.{
  List, [], ◌∷◌, ◌++◌, append_assoc, append-nil, ◌≡◌, ◌⊎◌, inl, inr, refl, ap, ◌∙◌,
}
use proxmox_k3s.Prelude.Text.{codes}
use proxmox_k3s.Prelude.Result.{Result, ok, err}
use proxmox_k3s.Domain.Error.{Error, wrap}
use proxmox_k3s.Domain.Model.{Cluster, Node, NodeSpec}
use proxmox_k3s.Infra.{InfraProvider}
use proxmox_k3s.Create.Plan.{IpPlan}
use proxmox_k3s.Create.Provision.{missing, rollback, after_create, create_all, provision_nodes}

module _ (I : InfraProvider) where
  open I use {State, create_node, delete_node}

  -- From the first state, creating the specifications in turn succeeds with these nodes, and ends in
  -- the last state.
  pub data Creates : State → List NodeSpec → List Node → State → Type 0 where
    none_left : {s : State} → Creates s [] [] s
    one_more :
        {s t u : State} {spec : NodeSpec} {specs : List NodeSpec} {n : Node} {ns : List Node}
        → create_node spec s ≡ (ok n, t)
        → Creates t specs ns u
        → Creates s (spec ∷ specs) (n ∷ ns) u

  -- A run over the specifications that fails at one of them: those before it are created, it fails.
  pub record FailsAt (s : State) (specs : List NodeSpec) : Type 0 where
    pub before : List NodeSpec
    pub failing : NodeSpec
    pub after : List NodeSpec
    pub in_order : specs ≡ before ++ failing ∷ after
    pub created : List Node
    pub reached : State
    pub creates : Creates s before created reached
    pub reason : Error
    pub left : State
    pub fails : create_node failing reached ≡ (err reason, left)

  Outcome : State → List NodeSpec → List Node → Result Error (List Node) × State → Type 0
  Outcome s specs acc r =
      ((ns : List Node) × (u : State) × Creates s specs ns u × (r ≡ (ok (acc ++ ns), u)))
      ⊎ ((f : FailsAt s specs) × (r ≡ (
        err (wrap (codes "creating " ++ f.failing.name) f.reason),
        rollback I (acc ++ f.created) f.left,
      )))

  later :
      (s t : State) (spec : NodeSpec) (specs : List NodeSpec) (acc : List Node) (n : Node)
      (r : Result Error (List Node) × State)
      → create_node spec s ≡ (ok n, t)
      → Outcome t specs (acc ++ n ∷ []) r
      → Outcome s (spec ∷ specs) acc r
  unfolding Outcome
  later s t spec specs acc n r h (inl (ns, u, made, e)) =
      inl (n ∷ ns, u, one_more h made, e ∙ rw append_assoc refl)
  later s t spec specs acc n r h (inr (f, e)) = inr (
    record {
      before = spec ∷ f.before;
      failing = f.failing;
      after = f.after;
      in_order = ap (λ (l : List NodeSpec). spec ∷ l) f.in_order;
      created = n ∷ f.created;
      reached = f.reached;
      creates = one_more h f.creates;
      reason = f.reason;
      left = f.left;
      fails = f.fails;
    },
    e ∙ rw append_assoc refl,
  )

  create_all_outcome :
      (specs : List NodeSpec) (acc : List Node) (s : State)
      → Outcome s specs acc (create_all I specs acc s)
  unfolding create_all after_create Outcome
  create_all_outcome [] acc s = inl ([], s, none_left, rw append-nil refl)
  create_all_outcome (spec ∷ specs) acc s =
      step (create_node spec s).0 (create_node spec s).1 refl
        (λ n. create_all_outcome specs (acc ++ n ∷ []))
    where
      step :
          (r : Result Error Node) (t : State)
          → create_node spec s ≡ (r, t)
          → ((n : Node) (u : State)
              → Outcome u specs (acc ++ n ∷ []) (create_all I specs (acc ++ n ∷ []) u))
          → Outcome s (spec ∷ specs) acc (after_create I spec acc (create_all I specs) r t)
      step (ok n) t h ih = later s t spec specs acc n _ h (ih n t)
      step (err e) t h ih = inr (
        record {
          before = [];
          failing = spec;
          after = specs;
          in_order = refl;
          created = [];
          reached = s;
          creates = none_left;
          reason = e;
          left = t;
          fails = h;
        },
        rw append-nil refl,
      )

  -- From the first state, DeleteNode is called on these nodes in turn, once for each and whatever it
  -- returns, and that ends in the last state.
  pub data Removes : State → List Node → State → Type 0 where
    none_there : {s : State} → Removes s [] s
    one_deleted :
        {s t u : State} {n : Node} {ns : List Node} {r : Result Error Unit}
        → delete_node n s ≡ (r, t)
        → Removes t ns u
        → Removes s (n ∷ ns) u

  rollback-Removes : (ns : List Node) (s : State) → Removes s ns (rollback I ns s)
  unfolding rollback
  rollback-Removes [] s = none_there
  rollback-Removes (n ∷ ns) s =
      one_deleted {r = (delete_node n s).0} refl (rollback-Removes ns (delete_node n s).1)

  -- Provisioning either creates all missing nodes, in order, and returns them; or it fails at the
  -- first that cannot be created, and then the provider is asked to delete the nodes created before
  -- it in this run, those and no others, each once and in the order of their creation, whatever the
  -- deletions return, and no node is returned.
  pub provision_nodes_outcome :
      (c : Cluster) (plan : IpPlan) (existing : List Node) (s : State)
      → ((ns : List Node) × (u : State) × Creates s (missing c plan existing) ns u
          × (provision_nodes I c plan existing s ≡ (ok ns, u)))
        ⊎ ((f : FailsAt s (missing c plan existing)) × (u : State) × Removes f.left f.created u
            × (provision_nodes I c plan existing s
                ≡ (err (wrap (codes "creating " ++ f.failing.name) f.reason), u)))
  unfolding provision_nodes Outcome
  provision_nodes_outcome c plan existing s =
      elim (create_all_outcome (missing c plan existing) [] s) [
        | inl made ↦ inl made
        | inr (f, e) ↦ inr (f, rollback I f.created f.left, rollback-Removes f.created f.left, e)
      ]
