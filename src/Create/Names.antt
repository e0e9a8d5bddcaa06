-- ===== src/Create/Names.antt =====
-- The names `cluster-pool-number` of a cluster's nodes.
use mathlib.Core.List.{append_cancel_left, map}
use proxmox_k3s.Prelude.{
  ℕ, zero, suc, ◌+◌, ◌<◌, List, [], ◌∷◌, ◌++◌, false, ◌≡◌, ◌≢◌, subst, refl, ap, arith, length,
  length-append, ◌||◌,
}
use proxmox_k3s.Prelude.Int.{ℤ, pos_part}
use proxmox_k3s.Prelude.Text.{Text, eq_iff, member}
use proxmox_k3s.Prelude.Text.Split.{Lacks}
use proxmox_k3s.Prelude.Decimal.{decimal, decimal-injective, decimal-Lacks}
use proxmox_k3s.Domain.Model.{Cluster, NodePool}

-- `fmt.Sprintf("%s-%s-%d", cluster, pool, i+1)`
unfoldable pub node_name : Text → Text → ℕ → Text
node_name cluster pool i = cluster ++ (b'-' ∷ (pool ++ (b'-' ∷ decimal (i + 1))))

-- The names of so many nodes of a pool, from number `i` on.
unfoldable pub pool_names : Text → Text → ℕ → ℕ → List Text
pool_names cluster pool zero i = []
pool_names cluster pool (suc n) i = node_name cluster pool i ∷ pool_names cluster pool n (i + 1)

-- How often a loop `for i := 0; i < count; i++` runs.
abbrev pub rounds : ℤ → ℕ
rounds = pos_part

unfoldable pub all_pool_names : Text → List NodePool → List Text
unfolding pool_names
all_pool_names cluster [] = []
all_pool_names cluster (p ∷ ps) =
    pool_names cluster p.name (rounds p.count) 0 ++ all_pool_names cluster ps

-- Masters first, then the worker pools in order.
unfoldable pub cluster_names : Cluster → List Text
unfolding all_pool_names
cluster_names c = all_pool_names c.name (c.masters ∷ c.workers)

no_sep : (sep : ℕ) (ys es : Text) → ¬ (Lacks sep (ys ++ sep ∷ es))
no_sep sep [] es h = h.0 refl
no_sep sep (y ∷ ys) es h = no_sep sep ys es h.1

-- The part behind the last separator is found, whatever stands before it.
last_part :
    (sep : ℕ) (xs ys ds es : Text)
    → Lacks sep ds
    → Lacks sep es
    → xs ++ sep ∷ ds ≡ ys ++ sep ∷ es
    → (xs ≡ ys) × (ds ≡ es)
last_part sep [] [] ds es hd he e = (refl, cc)
last_part sep [] (y ∷ ys) ds es hd he e = absurd (no_sep sep ys es (subst (Lacks sep) (cc) hd))
last_part sep (x ∷ xs) [] ds es hd he e = absurd (no_sep sep xs ds (subst (Lacks sep) (cc) he))
last_part sep (x ∷ xs) (y ∷ ys) ds es hd he e =
    let (p, q) = last_part sep xs ys ds es hd he (cc) in (cc, q)

-- The pool and the number can be read off a node's name: two nodes of a cluster with one name are of
-- one pool and have one number, also where pool names hold dashes and digits.
pub node_name-injective :
    (cluster p q : Text) (i j : ℕ)
    → node_name cluster p i ≡ node_name cluster q j
    → (p ≡ q) × (i ≡ j)
unfolding node_name
node_name-injective cluster p q i j h =
    let rest : p ++ (b'-' ∷ decimal (i + 1)) ≡ q ++ (b'-' ∷ decimal (j + 1)) = cc (
      append_cancel_left cluster (b'-' ∷ (p ++ (b'-' ∷ decimal (i + 1))))
        (b'-' ∷ (q ++ (b'-' ∷ decimal (j + 1)))) h) in
    let (same, digits) =
      last_part b'-' p q (decimal (i + 1)) (decimal (j + 1))
        (decimal-Lacks b'-' (i + 1) (omega arith)) (decimal-Lacks b'-' (j + 1) (omega arith))
        rest in
    (same, omega (arith, decimal-injective (i + 1) (j + 1) digits))

-- No text stands twice in the list.
abbrev pub Distinct : List Text → Type 0
Distinct [] = Unit
Distinct (x ∷ xs) = (member x xs ≡ false) × Distinct xs

pub member-append :
    (x : Text) (ys zs : List Text) → member x (ys ++ zs) ≡ (member x ys || member x zs)
unfolding member
member-append x [] zs = refl
member-append x (y ∷ ys) zs = ground (arith, member-append x ys zs)

ne-member : (x y : Text) (ys : List Text) → x ≢ y → member x ys ≡ false → member x (y ∷ ys) ≡ false
unfolding member
ne-member x y ys h m = ground (arith, eq_iff x y)

pub not_member :
    (x y : Text) (ys : List Text) → member x (y ∷ ys) ≡ false → (x ≢ y) × (member x ys ≡ false)
unfolding member
not_member x y ys h = ground (arith, eq_iff x y)

-- A name whose pool or number does not fit is not among a pool's names.
fresh_number :
    (cluster p : Text) (j n i : ℕ)
    → j < i
    → member (node_name cluster p j) (pool_names cluster p n i) ≡ false
unfolding pool_names
fresh_number cluster p j zero i h = unfold member in refl
fresh_number cluster p j (suc n) i h =
    ne-member _ _ _ (λ e. omega (arith, (node_name-injective cluster p p j i e).1))
      (fresh_number cluster p j n (i + 1) (omega arith))

fresh_pool :
    (cluster p q : Text) (j n i : ℕ)
    → p ≢ q
    → member (node_name cluster p j) (pool_names cluster q n i) ≡ false
unfolding pool_names
fresh_pool cluster p q j zero i h = unfold member in refl
fresh_pool cluster p q j (suc n) i h =
    ne-member _ _ _ (λ e. h (node_name-injective cluster p q j i e).0)
      (fresh_pool cluster p q j n (i + 1) h)

fresh_pools :
    (cluster p : Text) (j : ℕ) (pools : List NodePool)
    → member p (map (λ (q : NodePool). q.name) pools) ≡ false
    → member (node_name cluster p j) (all_pool_names cluster pools) ≡ false
unfolding all_pool_names
fresh_pools cluster p j [] h = unfold member in refl
fresh_pools cluster p j (q ∷ qs) h = rw member-append (
    ground (
      arith,
      fresh_pool cluster p q.name j (rounds q.count) 0
          (not_member p q.name (map (λ (r : NodePool). r.name) qs) h).0,
      fresh_pools cluster p j qs (not_member p q.name (map (λ (r : NodePool). r.name) qs) h).1,
    ))

names_before :
    (cluster p : Text) (n i : ℕ) (later : List Text)
    → ((j : ℕ) → member (node_name cluster p j) later ≡ false)
    → Distinct later
    → Distinct (pool_names cluster p n i ++ later)
unfolding pool_names
names_before cluster p zero i later h d = d
names_before cluster p (suc n) i later h d = (
  rw member-append (ground (arith, fresh_number cluster p i n (i + 1) (omega arith), h i)),
  names_before cluster p n (i + 1) later h d,
)

-- The names of all nodes of a cluster differ, if those of its pools do.
pub cluster_names-Distinct :
    (c : Cluster)
    → Distinct (map (λ (p : NodePool). p.name) (c.masters ∷ c.workers))
    → Distinct (cluster_names c)
unfolding cluster_names
cluster_names-Distinct c d = of_pools (c.masters ∷ c.workers) d
  where
    of_pools :
        (pools : List NodePool)
        → Distinct (map (λ (p : NodePool). p.name) pools)
        → Distinct (all_pool_names c.name pools)
    of_pools [] h = tt
    of_pools (p ∷ ps) (fresh, h) =
        names_before c.name p.name (rounds p.count) 0 (all_pool_names c.name ps)
          (λ j. fresh_pools c.name p.name j ps fresh) (of_pools ps h)

-- How many nodes the pools have.
abbrev pub nodes_in : List NodePool → ℕ
nodes_in [] = 0
nodes_in (p ∷ ps) = rounds p.count + nodes_in ps

pub length-pool_names : (cluster pool : Text) (n i : ℕ) → length (pool_names cluster pool n i) ≡ n
unfolding pool_names
length-pool_names cluster pool zero i = refl
length-pool_names cluster pool (suc n) i = ap suc (length-pool_names cluster pool n (i + 1))

pub length-all_pool_names :
    (cluster : Text) (pools : List NodePool)
    → length (all_pool_names cluster pools) ≡ nodes_in pools
unfolding all_pool_names
length-all_pool_names cluster [] = refl
length-all_pool_names cluster (p ∷ ps) = omega (
  arith,
  length-append (pool_names cluster p.name (rounds p.count) 0) (all_pool_names cluster ps),
  length-pool_names cluster p.name (rounds p.count) 0,
  length-all_pool_names cluster ps,
)
