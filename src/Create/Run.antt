-- ===== src/Create/Run.antt =====
-- Pipeline.Run of internal/usecase/create/create.go, whole: the VMs of a provider, and then K3s on
-- them. The state is that of the provider beside that of the hosts, the network and the files.
pub mod Finished
use proxmox_k3s.Prelude.{List, [], ◌∷◌, ◌++◌}
use proxmox_k3s.Prelude.Int.{ℤ}
use proxmox_k3s.Prelude.Text.{Text, codes}
use proxmox_k3s.Prelude.Result.{
  Result, ok, err, map_err, Exec, pure, raise, lift, wrapping, ◌>>=◌, ◌>>◌,
}
use proxmox_k3s.Domain.Error.{Error, wrap, api}
use proxmox_k3s.Domain.Model.{Cluster, Node}
use proxmox_k3s.Net.{Ipv6}
use proxmox_k3s.Infra.{InfraProvider}
use proxmox_k3s.Ssh.{Executor}
use proxmox_k3s.K3s.Version.{Releases, resolve}
use proxmox_k3s.K3s.Installer.{Scripts, fetch_kubeconfig}
use proxmox_k3s.K3s.Kubeconfig.File.{Files, rewrite_text, merge_kubeconfig}
use proxmox_k3s.K3s.Template.{Engine}
use proxmox_k3s.Addons.KubeVip.{KubeVipData}
use proxmox_k3s.Create.Phases.{ready_nodes}
use proxmox_k3s.Create.ControlPlane.{bootstrap_control_plane, join_workers, install_addons}

-- What Run uses behind the provider: ssh.NewExecutor, the resolver, the templates and the files.
pub record Tools (S : Type 0) : Type 1 where
  pub new_executor : Text → Text → ℤ → Exec S Text (Executor S)
  pub releases : Releases S
  pub scripts : Scripts
  pub kube_vip : Engine KubeVipData
  pub files : Files S

-- Run ends with an error, or it panics at `masters[0]`.
pub data Stop : Type 0 where
  failed : Error → Stop
  no_master : Stop

-- `fmt.Errorf("<what>: %w", err)`
abbrev pub stop_at : Text → Error → Stop
stop_at what e = failed (wrap what e)

-- `cluster.K3s.Version = version`
unfoldable pub with_version : Cluster → Text → Cluster
with_version c version = record c { k3s = record c.k3s { version = version } }

module _ {S : Type 0} (W : Tools S) where
  -- writeKubeconfig
  unfoldable pub write_kubeconfig : Executor S → Cluster → Node → Exec S Error Unit
  unfolding fetch_kubeconfig rewrite_text merge_kubeconfig
  write_kubeconfig E c first = do
    raw ← fetch_kubeconfig E first
    rewritten ← lift (rewrite_text W.files raw c.name c.network.control_plane_vip)
    merge_kubeconfig W.files rewritten []

  -- An action on the state alone.
  abbrev pub change : (S → S) → Exec S Stop Unit
  change f s = (ok tt, f s)

  -- Phases 6 to 9.
  unfoldable pub on_masters : Executor S → Cluster → List Node → List Node → Exec S Stop Unit
  unfolding bootstrap_control_plane join_workers install_addons write_kubeconfig
  on_masters E c [] workers = raise no_master
  on_masters E c (first ∷ others) workers = do
    token ←
        wrapping (stop_at (codes "bootstrapping control plane"))
          (bootstrap_control_plane E W.scripts c first others)
    change (join_workers E W.scripts c token workers)
    change (install_addons E W.scripts c W.kube_vip first others)
    wrapping (stop_at (codes "writing kubeconfig")) (write_kubeconfig E c first)

  -- From the SSH executor on, for the nodes that are ready.
  unfoldable pub install_k3s : Cluster → List Node × List Node → Exec S Stop Unit
  unfolding on_masters with_version resolve
  install_k3s c (masters, workers) = do
    E ←
        wrapping (λ e. stop_at (codes "creating SSH executor") (api e))
          (W.new_executor c.network.ssh.private_key_path (codes "ubuntu") c.network.ssh.port)
    version ←
        wrapping (λ e. stop_at (codes "resolving K3s version") (api e))
          (resolve W.releases c.k3s.version)
    on_masters E (with_version c version) masters workers

  module _ (v6 : Ipv6) (I : InfraProvider) where
    open I use {State}

    -- An action on one of the two states.
    unfoldable pub on_provider : {A : Type 0} → Exec State Error A → Exec (State × S) Stop A
    on_provider m (p, s) = let (r, p') = m p in (map_err failed r, (p', s))

    unfoldable pub on_hosts : {A : Type 0} → Exec S Stop A → Exec (State × S) Stop A
    on_hosts m (p, s) = let (r, s') = m s in (r, (p, s'))

    -- Pipeline.Run
    unfoldable pub run : Cluster → Exec (State × S) Stop Unit
    unfolding on_provider on_hosts ready_nodes install_k3s
    run c = do nodes ← on_provider (ready_nodes v6 I c); on_hosts (install_k3s c nodes)
