-- ===== src/Config/Validate/Modelled.antt =====
-- validate.Cluster of internal/config/validate against ToModel of internal/config.
use proxmox_k3s.Prelude.{ℕ, ◌+◌, List, [], ◌∷◌, map, ◌≡◌, refl, arith, All, Bool-cases, inl, inr}
use proxmox_k3s.Prelude.Int.{ℤ, pos, negsuc, ◌<ℤ◌, IsNatural}
use proxmox_k3s.Prelude.Text.{Text, codes, is_empty}
use proxmox_k3s.Prelude.Result.{Result, ok}
use proxmox_k3s.Domain.Size.{NodeRole, master, worker, validate_size}
use proxmox_k3s.Domain.Size.Minimum.{validate_size_iff}
use proxmox_k3s.Domain.Model.{Cluster, NodePool}
use proxmox_k3s.Net.{Ipv6}
use proxmox_k3s.Create.Plan.Complete.{Counted}
use proxmox_k3s.Config.Schema.{Config, PoolConfig}
use proxmox_k3s.Config.ToModel.{
  pool_to_model, workers_to_model, key_text, to_model, sized_pool, cluster_of,
}
use proxmox_k3s.Config.Validate.{cluster}
use proxmox_k3s.Config.Validate.Checks.{IsSized, HasWorkers, HasQuorum}
use proxmox_k3s.Config.Validate.Accepted.{IsKey, cluster_iff}

-- A pool of the model with nodes, and with a size that is accepted for the role.
abbrev pub IsUsable : NodeRole → NodePool → Type 0
IsUsable role p = (pos 0 <ℤ p.count) × (validate_size p.size role ≡ ok tt)

pool_to_model-IsUsable :
    (name : Text) (role : NodeRole) (p : PoolConfig)
    → IsSized role p
    → (q : NodePool) × (pool_to_model name p ≡ ok q)
      × ((q.name ≡ name) × ((q.count ≡ p.count) × IsUsable role q))
unfolding pool_to_model
pool_to_model-IsUsable name role p (positive, (s, sized, reaches)) = (
  sized_pool name p s,
  rw sized refl,
  (refl, (refl, (positive, (validate_size_iff s role).1 reaches))),
)

workers_to_model-IsUsable :
    (i : ℕ) (ps : List PoolConfig)
    → HasWorkers ps
    → (qs : List NodePool) × (workers_to_model i ps ≡ ok qs)
      × ((map (λ (q : NodePool). q.name) qs ≡ map (λ (p : PoolConfig). p.name) ps)
          × All (IsUsable worker) qs)
unfolding workers_to_model
workers_to_model-IsUsable i [] h = ([], refl, (refl, tt))
workers_to_model-IsUsable i (p ∷ ps) ((named, sized), h) =
    let (q, made, (name, (count, usable))) = pool_to_model-IsUsable p.name worker p sized in
    let (qs, rest, (names, all)) = workers_to_model-IsUsable (i + 1) ps h in
    (q ∷ qs, rw (made, rest) refl, (cc (name, names), (usable, all)))

positive-IsNatural : (n : ℤ) → pos 0 <ℤ n → IsNatural n
positive-IsNatural (pos n) h = refl
positive-IsNatural (negsuc n) h = absurd (omega arith)

usable-Counted : (qs : List NodePool) → All (IsUsable worker) qs → Counted qs
usable-Counted [] h = tt
usable-Counted (q ∷ qs) (h, hs) = (positive-IsNatural q.count h.0, usable-Counted qs hs)

module _ (v6 : Ipv6) (read_file : Text → Result Text Text) where
  -- What the create pipeline may rely on.
  pub record IsReady (c : Config) (m : Cluster) : Type 0 where
    pub name : m.name ≡ c.cluster_name
    pub quorum : HasQuorum m.masters.count
    pub masters : IsUsable master m.masters
    pub workers : All (IsUsable worker) m.workers
    pub worker_names :
        map (λ (q : NodePool). q.name) m.workers ≡ map (λ (p : PoolConfig). p.name) c.worker_pools
    pub counted : Counted (m.masters ∷ m.workers)

  key_text-readable :
      (path : Text) → IsKey v6 read_file path → (t : Text) × (key_text read_file path ≡ ok t)
  unfolding key_text
  key_text-readable path (given, (t, read)) = elim (Bool-cases (is_empty path)) [
    | inl e ↦ ([], rw e refl)
    | inr e ↦ (t, rw (e, read) refl)
  ]

  -- A configuration that validation accepts has a model. Its masters are an odd number of three or
  -- more, every pool has nodes and a size that is accepted for its role, the worker pools keep their
  -- names and their order, and no count is negative. (The files are the same in both steps.)
  pub to_model-IsReady :
      (c : Config)
      → cluster v6 read_file c ≡ ok tt
      → (m : Cluster) × (to_model read_file c ≡ ok m) × IsReady c m
  unfolding to_model
  to_model-IsReady c h =
      let v = (cluster_iff v6 read_file c).0 h in
      let (q, made, (name, (count, usable))) =
        pool_to_model-IsUsable (codes "master") master c.masters_pool v.masters in
      let (qs, rest, (names, all)) = workers_to_model-IsUsable 0 c.worker_pools v.workers in
      let (key, read) = key_text-readable c.networking.ssh.public_key_path v.public_key in
      (
        cluster_of c q qs key,
        rw (made, rest, read) refl,
        record {
          name = refl;
          quorum = rw count v.quorum;
          masters = usable;
          workers = all;
          worker_names = names;
          counted = (positive-IsNatural q.count usable.0, usable-Counted qs all);
        },
      )
