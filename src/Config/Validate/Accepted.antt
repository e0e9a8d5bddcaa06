-- ===== src/Config/Validate/Accepted.antt =====
-- The configurations that validate.Cluster of internal/config/validate accepts.
use proxmox_k3s.Prelude.{List, [], ◌∷◌, ◌≡◌, ◌≢◌, ◌↔◌, refl}
use proxmox_k3s.Prelude.Text.{Text, codes}
use proxmox_k3s.Prelude.Result.{Result, ok, err}
use proxmox_k3s.Domain.Size.{master}
use proxmox_k3s.Net.{Ipv6}
use proxmox_k3s.Config.Schema.{Config}
use proxmox_k3s.Config.Validate.{
  ValidationError, unreadable, report, key_errors, cluster_errors, cluster,
}
use proxmox_k3s.Config.Validate.Checks.{
  None, both-None, given, HasAccess, proxmox_iff, IsAddress, vip_iff, HasStatic, static_iff,
  IsSized, pool_iff, HasWorkers, workers_iff, HasQuorum, count_iff, HasAddons, addon_iff,
}

module _ (v6 : Ipv6) (read_file : Text → Result Text Text) where
  -- A path of a file that can be read.
  abbrev pub IsKey : Text → Type 0
  IsKey path = (path ≢ []) × ((t : Text) × (read_file path ≡ ok t))

  readable_iff :
      (field : Text) (r : Result Text Text) → None (unreadable field r) ↔ ((t : Text) × (r ≡ ok t))
  unfolding unreadable
  readable_iff field (ok t) = (λ h. (t, refl), λ h. refl)
  readable_iff field (err e) = (λ h. cc, λ h. cc (h.1))

  IsKey-iff : (path field : Text) → None (key_errors read_file path field) ↔ IsKey path
  unfolding key_errors
  IsKey-iff [] field = (λ h. cc, λ h. absurd (h.0 refl))
  IsKey-iff (c ∷ path) field = (
    λ h. (λ e. cc, (readable_iff field (read_file (c ∷ path))).0 h),
    λ h. (readable_iff field (read_file (c ∷ path))).1 h.1,
  )

  -- A configuration that is complete and sound, section by section.
  pub record IsValid (c : Config) : Type 0 where
    pub named : c.cluster_name ≢ []
    pub access : HasAccess c.proxmox
    pub vip : IsAddress v6 c.networking.control_plane_vip
    pub static : HasStatic v6 c.networking
    pub public_key : IsKey c.networking.ssh.public_key_path
    pub private_key : IsKey c.networking.ssh.private_key_path
    pub quorum : HasQuorum c.masters_pool.count
    pub masters : IsSized master c.masters_pool
    pub workers : HasWorkers c.worker_pools
    pub addons : HasAddons c.addons

  errors_iff :
      (c : Config)
      → None (cluster_errors v6 read_file c) ↔ (
          (c.cluster_name ≢ [])
          × (HasAccess c.proxmox
              × (IsAddress v6 c.networking.control_plane_vip
                  × (HasStatic v6 c.networking
                      × (IsKey c.networking.ssh.public_key_path
                          × (IsKey c.networking.ssh.private_key_path
                              × (HasQuorum c.masters_pool.count
                                  × (IsSized master c.masters_pool
                                      × (HasWorkers c.worker_pools × HasAddons c.addons)))))))))
  unfolding cluster_errors
  errors_iff c = both-None _ _ (given c.cluster_name _ _) (
      both-None _ _ (proxmox_iff c.proxmox) (
        both-None _ _ (vip_iff v6 c.networking.control_plane_vip) (
          both-None _ _ (static_iff v6 c.networking) (
            both-None _ _ (IsKey-iff c.networking.ssh.public_key_path _) (
              both-None _ _ (IsKey-iff c.networking.ssh.private_key_path _) (
                both-None _ _ (count_iff c.masters_pool.count) (
                  both-None _ _ (pool_iff (codes "masters_pool") c.masters_pool master)
                    (both-None _ _ (workers_iff 0 c.worker_pools) (addon_iff c.addons)))))))))

  report_iff : (es : List ValidationError) → (report es ≡ ok tt) ↔ None es
  report_iff [] = (λ h. refl, λ h. refl)
  report_iff (e ∷ es) = (λ h. cc, λ h. cc)

  -- Validation accepts exactly the configurations in which the required texts are given, the
  -- token's secret is no unset reference, the virtual address parses, static mode has a network
  -- that parses, a gateway and a range, both key files can be read, the masters are an odd number
  -- of three or more, the worker pools are named, every pool has nodes and a size that resolves and
  -- reaches the minimums of its role, and MetalLB, if enabled, has its addresses.
  pub cluster_iff : (c : Config) → (cluster v6 read_file c ≡ ok tt) ↔ IsValid c
  unfolding cluster
  cluster_iff c = (
    λ h.
        let (a, (b, (d, (e, (f, (g, (i, (j, (k, l))))))))) =
          (errors_iff c).0 ((report_iff _).0 h) in
        record {
          named = a;
          access = b;
          vip = d;
          static = e;
          public_key = f;
          private_key = g;
          quorum = i;
          masters = j;
          workers = k;
          addons = l;
        },
    λ v. (report_iff _).1 (
        (errors_iff c).1 (
          v.named,
          (
            v.access,
            (
              v.vip,
              (
                v.static,
                (v.public_key, (v.private_key, (v.quorum, (v.masters, (v.workers, v.addons))))),
              ),
            ),
          ),
        )),
  )
