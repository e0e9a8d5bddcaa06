-- ===== src/Create/Phases.antt =====
-- Pipeline.Run of internal/usecase/create/create.go, phases 1 to 5: from the preflight to nodes that
-- are ready. Create.Run goes on with the later phases, over SSH.
pub mod Whole
use proxmox_k3s.Prelude.{List, [], ◌++◌}
use proxmox_k3s.Prelude.Text.{codes}
use proxmox_k3s.Prelude.Result.{Result, ok, err, map_err, Exec, pure, lift, wrapping, ◌>>=◌, ◌>>◌}
use proxmox_k3s.Domain.Error.{Error, wrap}
use proxmox_k3s.Domain.Model.{Cluster, Node}
use proxmox_k3s.Net.{Ipv6}
use proxmox_k3s.Infra.{InfraProvider}
use proxmox_k3s.Create.Plan.{IpPlan, plan_ips}
use proxmox_k3s.Create.Provision.{provision_nodes}
use proxmox_k3s.Create.Ready.{split_by_role, wait_all_ready}

module _ (v6 : Ipv6) (I : InfraProvider) where
  open I use {State, preflight, list_nodes}

  -- Phase 5, for all nodes of the cluster.
  all_ready : List Node × List Node → Exec State Error (List Node × List Node)
  unfolding wait_all_ready
  all_ready (masters, workers) = do
    ms ← wrapping (wrap (codes "waiting for masters")) (wait_all_ready I masters)
    ws ← wrapping (wrap (codes "waiting for workers")) (wait_all_ready I workers)
    pure (ms, ws)

  -- The masters and the workers that are ready in the end.
  unfoldable pub ready_nodes : Cluster → Exec State Error (List Node × List Node)
  unfolding plan_ips provision_nodes split_by_role all_ready
  ready_nodes c = do
    wrapping (wrap (codes "preflight")) (preflight c)
    existing ← wrapping (wrap (codes "listing existing nodes")) (list_nodes c.name)
    plan ← lift (map_err (wrap (codes "IP allocation")) (plan_ips v6 c))
    created ← wrapping (wrap (codes "provisioning")) (provision_nodes I c plan existing)
    all_ready (split_by_role (existing ++ created))
