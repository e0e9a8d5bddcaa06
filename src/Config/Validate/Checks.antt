-- ===== src/Config/Validate/Checks.antt =====
-- The single checks of validate.Cluster and validatePool in internal/config/validate, and what each
-- asks for.
use proxmox_k3s.Prelude.{
  ℕ, ◌+◌, List, [], ◌∷◌, ◌++◌, Bool, true, false, ◌≡◌, ◌≢◌, ◌↔◌, refl, sym, subst, arith, All,
  Bool-cases, inl, inr,
}
use proxmox_k3s.Prelude.Int.{ℤ, pos, ltb_ℤ, is_even, ◌≤ℤ◌, ◌<ℤ◌}
use proxmox_k3s.Prelude.Text.{Text, codes, ◌==◌, eq_iff, is_empty, has_prefix}
use proxmox_k3s.Prelude.Decimal.{decimal}
use proxmox_k3s.Prelude.Result.{Result, ok, err}
use proxmox_k3s.Domain.Error.{Error}
use proxmox_k3s.Domain.Size.{NodeRole, worker, VmSize, minimums, validate_size}
use proxmox_k3s.Domain.Size.Minimum.{Reaches, validate_size_iff}
use proxmox_k3s.Net.{Ipv6, parse_ip, parse_cidr}
use proxmox_k3s.Config.Schema.{PoolConfig, ProxmoxConfig, NetworkConfig, AddonsConfig}
use proxmox_k3s.Config.ToModel.{pool_size}
use proxmox_k3s.Config.Validate.{
  ValidationError, check, secret_errors, proxmox_errors, absent, vip_errors, cidr_errors,
  static_errors, minimum_errors, size_errors, pool_errors, worker_errors, count_errors,
  addon_errors,
}

ok-injective : (s t : VmSize) → ◌≡◌ {A = Result Error VmSize} (ok s) (ok t) → s ≡ t
ok-injective s t h = cc

abbrev pub None : List ValidationError → Type 0
None es = es ≡ []

None-append : (xs ys : List ValidationError) → None (xs ++ ys) ↔ (None xs × None ys)
None-append [] ys = (λ h. (refl, h), λ h. h.1)
None-append (x ∷ xs) ys = (λ h. cc, λ h. cc (h.0))

-- The parts of two lists, each with what its emptiness means.
pub both-None :
    {P Q : Type 0} (xs ys : List ValidationError)
    → None xs ↔ P
    → None ys ↔ Q
    → None (xs ++ ys) ↔ (P × Q)
both-None xs ys p q = (
  λ h. let (a, b) = (None-append xs ys).0 h in (p.0 a, q.0 b),
  λ h. (None-append xs ys).1 (p.1 h.0, q.1 h.1),
)

pub check_iff : (b : Bool) (field message : Text) → None (check b field message) ↔ (b ≡ false)
unfolding check
check_iff true field message = (λ h. cc, λ h. cc)
check_iff false field message = (λ h. refl, λ h. refl)

is_empty_iff : (t : Text) → (is_empty t ≡ false) ↔ (t ≢ [])
is_empty_iff [] = (λ h e. cc, λ h. absurd (h refl))
is_empty_iff (c ∷ t) = (λ h e. cc, λ h. refl)

pub given : (t field message : Text) → None (check (is_empty t) field message) ↔ (t ≢ [])
given t field message = (
  λ h. (is_empty_iff t).0 ((check_iff (is_empty t) field message).0 h),
  λ h. (check_iff (is_empty t) field message).1 ((is_empty_iff t).1 h),
)

-- The secret is given, and is no reference to a variable that is not set.
abbrev pub HasSecret : Text → Type 0
HasSecret t = (t ≢ []) × (has_prefix t (codes "${") ≡ false)

secret_iff : (t : Text) → None (secret_errors t) ↔ HasSecret t
unfolding secret_errors
secret_iff [] = (λ h. cc, λ h. absurd (h.0 refl))
secret_iff (c ∷ t) = (
  λ h. (λ e. cc, (check_iff (has_prefix (c ∷ t) (codes "${")) _ _).0 h),
  λ h. (check_iff (has_prefix (c ∷ t) (codes "${")) _ _).1 h.1,
)

-- What the Proxmox section must hold.
abbrev pub HasAccess : ProxmoxConfig → Type 0
HasAccess p =
    (p.endpoint ≢ [])
    × ((p.token_id ≢ []) × (HasSecret p.token_secret × ((p.template ≢ []) × (p.storage ≢ []))))

pub proxmox_iff : (p : ProxmoxConfig) → None (proxmox_errors p) ↔ HasAccess p
unfolding proxmox_errors
proxmox_iff p = both-None _ _ (given p.endpoint _ _) (
    both-None _ _ (given p.token_id _ _) (
      both-None _ _ (secret_iff p.token_secret)
        (both-None _ _ (given p.template _ _) (given p.storage _ _))))

module _ (v6 : Ipv6) where
  -- The text parses, to an address or to a network.
  abbrev pub IsAddress : Text → Type 0
  IsAddress t = (t ≢ []) × (absent (parse_ip v6 t) ≡ false)

  abbrev pub IsNetwork : Text → Type 0
  IsNetwork t = (t ≢ []) × (absent (parse_cidr v6 t) ≡ false)

  pub vip_iff : (t : Text) → None (vip_errors v6 t) ↔ IsAddress t
  unfolding vip_errors
  vip_iff [] = (λ h. cc, λ h. absurd (h.0 refl))
  vip_iff (c ∷ t) = (
    λ h. (λ e. cc, (check_iff (absent (parse_ip v6 (c ∷ t))) _ _).0 h),
    λ h. (check_iff (absent (parse_ip v6 (c ∷ t))) _ _).1 h.1,
  )

  cidr_iff : (t : Text) → None (cidr_errors v6 t) ↔ IsNetwork t
  unfolding cidr_errors
  cidr_iff [] = (λ h. cc, λ h. absurd (h.0 refl))
  cidr_iff (c ∷ t) = (
    λ h. (λ e. cc, (check_iff (absent (parse_cidr v6 (c ∷ t))) _ _).0 h),
    λ h. (check_iff (absent (parse_cidr v6 (c ∷ t))) _ _).1 h.1,
  )

  -- What static addresses need.
  abbrev pub HasStatic : NetworkConfig → Type 0
  HasStatic n =
      n.mode ≡ codes "static" → IsNetwork n.cidr × ((n.gateway ≢ []) × (n.node_pool_range ≢ []))

  pub static_iff : (n : NetworkConfig) → None (static_errors v6 n) ↔ HasStatic n
  unfolding static_errors
  static_iff n = elim (Bool-cases (n.mode == codes "static")) [
    | inl e ↦ rw e (
        let parts =
          both-None _ _ (cidr_iff n.cidr)
            (both-None _ _ (given n.gateway _ _) (given n.node_pool_range _ _)) in
        (λ h m. parts.0 h, λ h. parts.1 (h ((eq_iff n.mode (codes "static")).0 e))))
    | inr e ↦ rw e (λ h m. ground (arith, eq_iff n.mode (codes "static")), λ h. refl)
  ]

-- The pool has nodes, and its size resolves and is large enough for the role.
abbrev pub IsSized : NodeRole → PoolConfig → Type 0
IsSized role p =
    (pos 0 <ℤ p.count) × ((s : VmSize) × (pool_size p ≡ ok s) × Reaches (minimums role) s)

minimum_iff : (field : Text) (r : Result Error Unit) → None (minimum_errors field r) ↔ (r ≡ ok tt)
unfolding minimum_errors
minimum_iff field (ok u) = (λ h. refl, λ h. refl)
minimum_iff field (err e) = (λ h. cc, λ h. cc)

size_iff :
    (field : Text) (role : NodeRole) (r : Result Error VmSize)
    → None (size_errors field role r) ↔ ((s : VmSize) × (r ≡ ok s) × Reaches (minimums role) s)
unfolding size_errors
size_iff field role (err e) = (λ h. cc, λ h. cc (h.1))
size_iff field role (ok s) = (
  λ h. (s, refl, (validate_size_iff s role).0 ((minimum_iff field (validate_size s role)).0 h)),
  λ h. (minimum_iff field (validate_size s role)).1 (
      (validate_size_iff s role).1
        (subst (Reaches (minimums role)) (ok-injective h.0 s (sym h.1)) h.2)),
)

pub pool_iff :
    (field : Text) (p : PoolConfig) (role : NodeRole)
    → None (pool_errors field p role) ↔ IsSized role p
unfolding pool_errors
pool_iff field p role = elim (Bool-cases (ltb_ℤ (pos 0) p.count)) [
  | inl e ↦ rw e (
    λ h. (ground arith, (size_iff _ role (pool_size p)).0 h),
    λ h. (size_iff _ role (pool_size p)).1 h.1,
  )
  | inr e ↦ rw e (λ h. cc, λ h. ground arith)
]

-- Every worker pool has a name and is sized for a worker.
abbrev pub HasWorkers : List PoolConfig → Type 0
HasWorkers = All (λ p. (p.name ≢ []) × IsSized worker p)

pub workers_iff : (i : ℕ) (ps : List PoolConfig) → None (worker_errors i ps) ↔ HasWorkers ps
unfolding worker_errors
workers_iff i [] = (λ h. tt, λ h. refl)
workers_iff i (p ∷ ps) =
    let parts = both-None _ _ (given p.name _ _) (
      both-None _ _ (pool_iff (codes "worker_node_pools[" ++ (decimal i ++ codes "]")) p worker)
        (workers_iff (i + 1) ps)) in
    (λ h. let (a, (b, c)) = parts.0 h in ((a, b), c), λ ((a, b), c). parts.1 (a, (b, c)))

-- At least three masters, in an odd number.
abbrev pub HasQuorum : ℤ → Type 0
HasQuorum n = (pos 3 ≤ℤ n) × (is_even n ≡ false)

pub count_iff : (n : ℤ) → None (count_errors n) ↔ HasQuorum n
unfolding count_errors
count_iff n = ground arith

abbrev pub HasAddons : AddonsConfig → Type 0
HasAddons a = a.metal_lb.enabled ≡ true → a.metal_lb.address_pool ≢ []

pub addon_iff : (a : AddonsConfig) → None (addon_errors a) ↔ HasAddons a
unfolding addon_errors
addon_iff a = elim (Bool-cases a.metal_lb.enabled) [
  | inl e ↦ rw e (
    λ h m. (given a.metal_lb.address_pool _ _).0 h,
    λ h. (given a.metal_lb.address_pool _ _).1 (h refl),
  )
  | inr e ↦ rw e (λ h m. cc, λ h. (check_iff false [] []).1 refl)
]
