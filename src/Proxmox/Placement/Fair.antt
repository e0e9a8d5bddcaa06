-- ===== src/Proxmox/Placement/Fair.antt =====
-- Which hosts a strategy picks.
use proxmox_k3s.Prelude.{
  ℕ, zero, suc, ◌+◌, ◌-◌, ◌%◌, ◌<◌, List, [], ◌∷◌, Option, none, some, false, ◌≡◌, ◌⊎◌, inl, inr,
  subst, refl, sym, ◌∙◌, leb→le, arith, keep, length, get_elem?, All, Any, leb, if◌then◌else◌,
  Bool-cases,
}
use native.Mathlib.Nat.{mod-lt, mod-add-mod, mod-eq_of_lt, add-mod_right}
use proxmox_k3s.Prelude.Text.{Text, codes, eq_iff, member, is_empty}
use proxmox_k3s.Prelude.Result.{Result, ok, err}
use proxmox_k3s.Domain.Error.{Error, no_nodes_available}
use proxmox_k3s.Proxmox.Node.{PveNode}
use proxmox_k3s.Proxmox.Placement.{
  Floats, Strategy, round_robin, least_loaded, is_available, filter_online, named, rotate, lightest,
  or_first, pick_lightest, pick,
}

-- The host may be picked: it is online and not excluded.
abbrev pub IsAvailable : List Text → PveNode → Type 0
IsAvailable exclude n = (n.status ≡ codes "online") × (member n.name exclude ≡ false)

-- A host of the list that may be picked has that name.
abbrev pub Offers : List PveNode → List Text → Text → Type 0
Offers nodes exclude name = Any (λ n. (n.name ≡ name) × IsAvailable exclude n) nodes

Names : List PveNode → Text → Type 0
Names ns name = Any (λ (n : PveNode). n.name ≡ name) ns

keep-Offers :
    (nodes : List PveNode) (exclude : List Text) (name : Text)
    → Names (keep (is_available exclude) nodes) name
    → Offers nodes exclude name
unfolding keep is_available Names
keep-Offers [] exclude name h = h
keep-Offers (n ∷ ns) exclude name h =
    ground (arith, keep-Offers ns exclude name, eq_iff n.status (codes "online"))

-- Where the filter keeps nothing, no host may be picked.
filter_online-none :
    (nodes : List PveNode) (exclude : List Text)
    → filter_online nodes exclude ≡ []
    → All (λ n. ¬ IsAvailable exclude n) nodes
unfolding filter_online keep is_available
filter_online-none [] exclude h = tt
filter_online-none (n ∷ ns) exclude h =
    ground (arith, filter_online-none ns exclude, eq_iff n.status (codes "online"))

get_elem?-Names :
    (ns : List PveNode) (i : ℕ) (name : Text) → named (get_elem? ns i) ≡ ok name → Names ns name
unfolding Names
get_elem?-Names [] i name h = cc
get_elem?-Names (n ∷ ns) zero name h = ground arith
get_elem?-Names (n ∷ ns) (suc i) name h = inr (get_elem?-Names ns i name h)

get_elem?-found :
    (ns : List PveNode) (i : ℕ) → i < length ns → (n : PveNode) × (get_elem? ns i ≡ some n)
get_elem?-found [] i h = elim h [ ]
get_elem?-found (n ∷ ns) zero h = (n, refl)
get_elem?-found (n ∷ ns) (suc i) h = get_elem?-found ns i (omega arith)

-- Counting from `c` on, some round below `n` falls on the place `p`.
round_for : ℕ → ℕ → ℕ → ℕ
round_for c n p = if leb (c % n) p then p - c % n else p + n - c % n

round_for-lt : (c n p : ℕ) → p < n → round_for c n p < n
unfolding round_for
round_for-lt c n p h = grind (arith, mod-lt)

round_for-mod : (c n p : ℕ) → p < n → (c + round_for c n p) % n ≡ p
unfolding round_for
round_for-mod c n p h = sym (mod-add-mod c n _) ∙ elim (Bool-cases (leb (c % n) p)) [
  | inl le ↦
      rw (le, let e : c % n + (p - c % n) ≡ p = omega (arith, leb→le (c % n) p le) in e)
        (mod-eq_of_lt h)
  | inr gt ↦
      rw (gt, let e : c % n + (p + n - c % n) ≡ p + n = grind (arith, mod-lt) in e)
        (add-mod_right p n ∙ mod-eq_of_lt h)
]

get_elem?-lt : (ns : List PveNode) (p : ℕ) (n : PveNode) → get_elem? ns p ≡ some n → p < length ns
get_elem?-lt [] p n h = cc
get_elem?-lt (m ∷ ms) zero n h = omega arith
get_elem?-lt (m ∷ ms) (suc p) n h = omega (arith, get_elem?-lt ms p n h)

rotate-covers :
    (ns : List PveNode) (c p : ℕ) (n : PveNode)
    → get_elem? ns p ≡ some n
    → (i : ℕ) × (i < length ns) × (rotate (c + i) ns ≡ (ok n.name, round_robin (c + i + 1)))
unfolding rotate
rotate-covers [] c p n h = cc
rotate-covers (m ∷ ms) c p n h =
    let lt = get_elem?-lt (m ∷ ms) p n h in
    (
      round_for c (length (m ∷ ms)) p,
      round_for-lt c (length (m ∷ ms)) p lt,
      rw (round_for-mod c (length (m ∷ ms)) p lt, h) refl,
    )

-- Round robin: of any run of as many picks as there are available hosts, on the same listing, one
-- falls on each place of the list of available hosts. `c` is the counter before the run.
pub round_robin_covers :
    (floats : Floats) (nodes : List PveNode) (exclude : List Text) (c p : ℕ) (n : PveNode)
    → get_elem? (filter_online nodes exclude) p ≡ some n
    → (i : ℕ) × (i < length (filter_online nodes exclude))
      × (pick floats (round_robin (c + i)) nodes exclude ≡ (ok n.name, round_robin (c + i + 1)))
unfolding pick
round_robin_covers floats nodes exclude c p n h =
    rotate-covers (filter_online nodes exclude) c p n h

module _ (floats : Floats) where
  lightest-Names :
      (ns : List PveNode) (best : Option PveNode) (r : floats.Float) (b : PveNode)
      → lightest floats ns best r ≡ some b
      → (best ≡ some b) ⊎ Names ns b.name
  unfolding lightest Names
  lightest-Names [] best r b h = inl h
  lightest-Names (n ∷ ns) best r b h = ground (
    arith,
    lightest-Names ns best r b,
    lightest-Names ns (some n) (floats.ratio n.mem n.max_mem) b,
  )

  or_first-Names :
      (n : PveNode) (ns : List PveNode) (o : Option PveNode) (name : Text)
      → ((b : PveNode) → o ≡ some b → Names (n ∷ ns) b.name)
      → or_first floats n o ≡ name
      → Names (n ∷ ns) name
  unfolding or_first Names
  or_first-Names n ns none name inv h = inl h
  or_first-Names n ns (some b) name inv h = elim (Bool-cases (is_empty b.name)) [
    | inl e ↦ inl (rw e at h)
    | inr e ↦ subst (Names (n ∷ ns)) (rw e at h) (inv b refl)
  ]

  pick_lightest-Names :
      (ns : List PveNode) (name : Text) → pick_lightest floats ns ≡ ok name → Names ns name
  unfolding pick_lightest
  pick_lightest-Names [] name h = cc
  pick_lightest-Names (n ∷ ns) name h =
      or_first-Names n ns (lightest floats (n ∷ ns) none floats.two) name
        (λ b e. elim (lightest-Names (n ∷ ns) none floats.two b e) [ inl x ↦ cc | inr x ↦ x ]) (cc)

  -- A pick from the available hosts names one of them, or fails for want of any.
  Picks : List PveNode → Result Error Text → Type 0
  Picks ns r =
      ((ns ≡ []) × (r ≡ err no_nodes_available)) ⊎ ((name : Text) × (r ≡ ok name) × Names ns name)

  rotate-Picks : (ns : List PveNode) (c : ℕ) → Picks ns (rotate c ns).0
  unfolding rotate Picks
  rotate-Picks [] c = inl (refl, refl)
  rotate-Picks (n ∷ ns) c =
      let (m, found) = get_elem?-found (n ∷ ns) (c % length (n ∷ ns)) (mod-lt c (omega arith)) in
      inr (
        m.name,
        rw found refl,
        get_elem?-Names (n ∷ ns) (c % length (n ∷ ns)) m.name (rw found refl),
      )

  pick_lightest-Picks : (ns : List PveNode) → Picks ns (pick_lightest floats ns)
  unfolding pick_lightest Picks
  pick_lightest-Picks [] = inl (refl, refl)
  pick_lightest-Picks (n ∷ ns) = inr (_, refl, pick_lightest-Names (n ∷ ns) _ refl)

  Picks-Offers :
      (nodes : List PveNode) (exclude : List Text) (r : Result Error Text)
      → Picks (filter_online nodes exclude) r
      → ((filter_online nodes exclude ≡ []) × (r ≡ err no_nodes_available))
        ⊎ ((name : Text) × (r ≡ ok name) × Offers nodes exclude name)
  unfolding Picks filter_online
  Picks-Offers nodes exclude r (inl x) = inl x
  Picks-Offers nodes exclude r (inr (name, e, h)) = inr (name, e, keep-Offers nodes exclude name h)

  pub pick_cases :
      (s : Strategy) (nodes : List PveNode) (exclude : List Text)
      → ((filter_online nodes exclude ≡ [])
          × ((pick floats s nodes exclude).0 ≡ err no_nodes_available))
        ⊎ ((name : Text) × ((pick floats s nodes exclude).0 ≡ ok name) × Offers nodes exclude name)
  unfolding pick
  pick_cases (round_robin c) nodes exclude =
      Picks-Offers nodes exclude _ (rotate-Picks (filter_online nodes exclude) c)
  pick_cases least_loaded nodes exclude =
      Picks-Offers nodes exclude _ (pick_lightest-Picks (filter_online nodes exclude))

  -- Whatever the strategy and its state: either no host of the listing is online and not excluded, and
  -- the pick fails; or it names a host of the listing that is.
  pub pick_outcome :
      (s : Strategy) (nodes : List PveNode) (exclude : List Text)
      → (All (λ n. ¬ IsAvailable exclude n) nodes
          × ((pick floats s nodes exclude).0 ≡ err no_nodes_available))
        ⊎ ((name : Text) × ((pick floats s nodes exclude).0 ≡ ok name) × Offers nodes exclude name)
  pick_outcome s nodes exclude = elim (pick_cases s nodes exclude) [
    | inl (nothing_kept, e) ↦ inl (filter_online-none nodes exclude nothing_kept, e)
    | inr found ↦ inr found
  ]
