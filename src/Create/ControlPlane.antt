-- ===== src/Create/ControlPlane.antt =====
-- Phases 6 to 9 of internal/usecase/create/create.go: K3s on the masters and the workers, the addons
-- and the kubeconfig. Of the commands that are logged only, nothing is kept.
pub mod Joined
pub mod Running
use proxmox_k3s.Prelude.{
  ℕ, suc, List, [], ◌∷◌, ◌++◌, Option, none, some, Bool, false, true, if◌then◌else◌, length,
}
use proxmox_k3s.Prelude.Text.{Text, codes, ◌==◌}
use proxmox_k3s.Prelude.Result.{Result, ok, err, Exec, pure, wrapping, ◌>>=◌, ◌>>◌}
use proxmox_k3s.Domain.Error.{Error, wrap}
use proxmox_k3s.Domain.Model.{Cluster, Node, node_ip}
use proxmox_k3s.Ssh.{Executor}
use proxmox_k3s.K3s.Installer.{
  Scripts, install_first_master, install_master, install_worker, fetch_token, wait_nodes_ready,
}
use proxmox_k3s.K3s.Template.{Engine}
use proxmox_k3s.Addons.KubeVip.{KubeVipData, install_kube_vip}
use proxmox_k3s.Addons.MetalLb.{install_metal_lb}

-- `err == nil && out == "active\n"`
unfoldable pub says_active : Text × Option Text → Bool
says_active (out, none) = out == codes "active\n"
says_active (out, some e) = false

module _ {S : Type 0} (E : Executor S) where
  -- `systemctl is-active` on a host
  unfoldable pub is_active : Text → Node → S → Bool × S
  unfolding says_active node_ip
  is_active unit n s =
      let (r, s') = E.run (node_ip n) (codes "systemctl is-active " ++ unit) s in
      (says_active r, s')

  -- The installation is left out where the unit is active.
  unfoldable pub unless_active : Text → Node → Exec S Error Unit → Exec S Error Unit
  unless_active unit n install s =
      let (active, s') = is_active unit n s in if active then (ok tt, s') else install s'

  module _ (T : Scripts) (c : Cluster) where
    -- The loop over the masters behind the first.
    unfoldable pub join_masters : Text → List Node → Exec S Error Unit
    unfolding unless_active install_master
    join_masters token [] = pure tt
    join_masters token (n ∷ ns) = do
      unless_active (codes "k3s") n
          (wrapping (wrap (codes "joining master " ++ n.name)) (install_master E T c token n))
      join_masters token ns

    -- bootstrapControlPlane, for masters[0] and the others. Its token beside an error is not used.
    unfoldable pub bootstrap_control_plane : Node → List Node → Exec S Error Text
    unfolding unless_active install_first_master fetch_token join_masters wait_nodes_ready
    bootstrap_control_plane first others = do
      unless_active (codes "k3s") first (install_first_master E T c first)
      token ← wrapping (wrap (codes "fetching cluster token")) (fetch_token E first)
      join_masters token others
      wrapping (wrap (codes "waiting for masters Ready"))
          (wait_nodes_ready E first (length (first ∷ others)))
      pure token

    -- joinWorkers, which always returns nil: the state after it.
    unfoldable pub join_workers : Text → List Node → S → S
    unfolding unless_active install_worker
    join_workers token [] s = s
    join_workers token (n ∷ ns) s =
        join_workers token ns
          (unless_active (codes "k3s-agent") n (install_worker E T c token n) s).1

    -- An addon is installed where it is enabled; its error is only logged.
    addon : Bool → Exec S Error Unit → S → S
    addon false install s = s
    addon true install s = (install s).1

    -- installAddons, which always returns nil: the state after it.
    unfoldable pub install_addons : Engine KubeVipData → Node → List Node → S → S
    unfolding addon install_kube_vip install_metal_lb
    install_addons K first others s =
        addon c.addons.metal_lb.enabled (install_metal_lb E first c.addons.metal_lb.address_pool) (
          addon c.addons.kube_vip_enabled
            (install_kube_vip E K (first ∷ others) c.network.control_plane_vip) s)
