-- ===== src/Create/Plan/Lookup.antt =====
-- Which address a plan holds for which name.
use proxmox_k3s.Prelude.{
  ℕ, zero, suc, ◌+◌, ◌≤◌, List, [], ◌∷◌, ◌++◌, some, false, ◌≡◌, refl, ap, ◌∙◌, arith, length,
  get_elem?, inl, inr, subst,
}
use native.Mathlib.Nat.{add-zero}
use mathlib.Core.Path.{fun_ext}
use mathlib.Core.Option.{some-injective}
use proxmox_k3s.Prelude.Int.{pos}
use proxmox_k3s.Prelude.Text.{Text, eq_iff, eq_refl, member}
use proxmox_k3s.Prelude.Dict.{lookup, insert, lookup-insert}
use proxmox_k3s.Prelude.Result.{Result, ok, err, bind, bind-eq-ok}
use proxmox_k3s.Domain.Error.{Error}
use proxmox_k3s.Domain.Model.{NodePool}
use proxmox_k3s.Net.{Ipv6}
use proxmox_k3s.Ipam.Pool.{StaticAllocator, ip_config_for_index, total_ips}
use proxmox_k3s.Ipam.Pool.Access.{ip_config_outcome}
use proxmox_k3s.Create.Names.{
  node_name, rounds, pool_names, all_pool_names, Distinct, not_member, length-pool_names,
}
use proxmox_k3s.Create.Plan.{IpPlan, plan_pool, plan_pools}

module _ (v6 : Ipv6) (alloc : StaticAllocator) where
  -- Giving the names of a list the addresses from an index on, in order.
  pub assign : List Text → ℕ → IpPlan → Result Error IpPlan
  assign [] idx plan = ok plan
  assign (n ∷ ns) idx plan =
      bind (ip_config_for_index v6 alloc (pos idx)) (λ cfg. assign ns (idx + 1) (insert n cfg plan))

  plan_pool-assign :
      (cluster pool : Text) (n i idx : ℕ) (plan : IpPlan)
      → plan_pool v6 alloc cluster pool n i idx plan ≡ assign (pool_names cluster pool n i) idx plan
  unfolding plan_pool assign pool_names
  plan_pool-assign cluster pool zero i idx plan = refl
  plan_pool-assign cluster pool (suc n) i idx plan =
      ap (bind (ip_config_for_index v6 alloc (pos idx))) (
        fun_ext λ cfg.
          plan_pool-assign cluster pool n (i + 1) (idx + 1)
            (insert (node_name cluster pool i) cfg plan))

  assign-append :
      (xs ys : List Text) (idx : ℕ) (plan : IpPlan)
      → assign (xs ++ ys) idx plan ≡ bind (assign xs idx plan) (assign ys (idx + length xs))
  unfolding assign
  assign-append [] ys idx plan = rw add-zero refl
  assign-append (x ∷ xs) ys idx plan =
      by_answer (ip_config_for_index v6 alloc (pos idx))
        (λ cfg. assign-append xs ys (idx + 1) (insert x cfg plan))
    where
      shift : idx + 1 + length xs ≡ idx + suc (length xs)
      shift = omega arith

      by_answer :
          (r : Result Error Text)
          → ((cfg : Text)
              → assign (xs ++ ys) (idx + 1) (insert x cfg plan)
                ≡ bind (assign xs (idx + 1) (insert x cfg plan)) (assign ys (idx + 1 + length xs)))
          → bind r (λ cfg. assign (xs ++ ys) (idx + 1) (insert x cfg plan))
            ≡ bind
                (bind r (λ cfg. assign xs (idx + 1) (insert x cfg plan)))
                (assign ys (idx + suc (length xs)))
      by_answer (err e) ih = refl
      by_answer (ok cfg) ih = rw (← shift) (ih cfg)

  pub plan_pools-assign :
      (cluster : Text) (pools : List NodePool) (idx : ℕ) (plan : IpPlan)
      → plan_pools v6 alloc cluster pools idx plan ≡ assign (all_pool_names cluster pools) idx plan
  unfolding plan_pools all_pool_names
  plan_pools-assign cluster [] idx plan = unfold assign in refl
  plan_pools-assign cluster (p ∷ ps) idx plan =
      rw
        (
          plan_pool-assign cluster p.name (rounds p.count) 0 idx plan,
          assign-append,
          length-pool_names,
        )
        (ap (bind (assign (pool_names cluster p.name (rounds p.count) 0) idx plan))
          (fun_ext λ plan'. plan_pools-assign cluster ps (idx + rounds p.count) plan'))

  -- What an assignment of different names leaves in the plan.
  pub record IsAssigned (ns : List Text) (idx : ℕ) (plan plan' : IpPlan) : Type 0 where
    pub named :
        (k : ℕ) (n : Text)
        → get_elem? ns k ≡ some n
        → (cfg : Text) × (ip_config_for_index v6 alloc (pos (idx + k)) ≡ ok cfg)
          × (lookup n plan' ≡ some cfg)
    pub others : (m : Text) → member m ns ≡ false → lookup m plan' ≡ lookup m plan

  named_step :
      (x : Text) (xs : List Text) (idx : ℕ) (cfg : Text) (plan plan' : IpPlan)
      → member x xs ≡ false
      → ip_config_for_index v6 alloc (pos idx) ≡ ok cfg
      → IsAssigned xs (idx + 1) (insert x cfg plan) plan'
      → (k : ℕ) (n : Text) → get_elem? (x ∷ xs) k ≡ some n
      → (c : Text) × (ip_config_for_index v6 alloc (pos (idx + k)) ≡ ok c)
        × (lookup n plan' ≡ some c)
  named_step x xs idx cfg plan plan' fresh found a zero n e = (
    cfg,
    rw add-zero found,
    subst (λ m. lookup m plan' ≡ some cfg) (some-injective x n e)
        (a.others x fresh ∙ (lookup-insert x x cfg plan ∙ rw (eq_refl x) refl)),
  )
  named_step x xs idx cfg plan plan' fresh found a (suc k) n e =
      let shift : idx + 1 + k ≡ idx + suc k = omega arith in rw (← shift) (a.named k n e)

  others_step :
      (x : Text) (xs : List Text) (idx : ℕ) (cfg : Text) (plan plan' : IpPlan)
      → IsAssigned xs (idx + 1) (insert x cfg plan) plan'
      → (m : Text) → member m (x ∷ xs) ≡ false
      → lookup m plan' ≡ lookup m plan
  others_step x xs idx cfg plan plan' a m e =
      let (ne, rest) = not_member m x xs e in
      a.others m rest ∙ (lookup-insert x m cfg plan ∙ ground (arith, eq_iff x m))

  pub assign-IsAssigned :
      (ns : List Text) (idx : ℕ) (plan plan' : IpPlan)
      → Distinct ns
      → assign ns idx plan ≡ ok plan'
      → IsAssigned ns idx plan plan'
  unfolding assign
  assign-IsAssigned [] idx plan plan' d h = record { named = λ k n e. cc; others = λ m e. cc }
  assign-IsAssigned (x ∷ xs) idx plan plan' (fresh, d) h =
      let (cfg, found, later) = bind-eq-ok (ip_config_for_index v6 alloc (pos idx)) _ h in
      let a = assign-IsAssigned xs (idx + 1) (insert x cfg plan) plan' d later in
      record {
        named = named_step x xs idx cfg plan plan' fresh found a;
        others = others_step x xs idx cfg plan plan' a;
      }

  pub assign_total :
      (ns : List Text) (idx : ℕ) (plan : IpPlan)
      → idx + length ns ≤ total_ips alloc
      → (plan' : IpPlan) × (assign ns idx plan ≡ ok plan')
  unfolding assign
  assign_total [] idx plan h = (plan, refl)
  assign_total (x ∷ xs) idx plan h = elim (ip_config_outcome v6 alloc idx) [
    | inl (lt, (ip, e, found)) ↦ rw found (assign_total xs (idx + 1) _ (omega arith))
    | inr (le, e) ↦ absurd (omega arith)
  ]
