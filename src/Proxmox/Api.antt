-- ===== src/Proxmox/Api.antt =====
-- The Proxmox API as the provider sees it: the calls that internal/adapter/proxmox/client,
-- node and vm send, over an unknown state of the cluster. An error is the text of the Go error.
use proxmox_k3s.Prelude.{List}
use proxmox_k3s.Prelude.Int.{ℤ}
use proxmox_k3s.Prelude.Text.{Text}
use proxmox_k3s.Prelude.Result.{Exec}
use proxmox_k3s.Proxmox.Node.{PveNode, ClusterResource}
use proxmox_k3s.Proxmox.Vm.{CloneRequest, ConfigRequest, ResizeRequest, AgentNetworkInterface}

pub record Api : Type 1 where
  pub State : Type 0
  -- GET version, nodes, cluster/resources?type=T and cluster/nextid
  pub version : Exec State Text Unit
  pub list_pve_nodes : Exec State Text (List PveNode)
  pub list_resources : Text → Exec State Text (List ClusterResource)
  pub next_id : Exec State Text ℤ
  -- The calls on a VM of a host. The text that comes back names a task, or is empty.
  pub clone : Text → ℤ → CloneRequest → Exec State Text Text
  pub configure : Text → ℤ → ConfigRequest → Exec State Text Text
  pub resize : Text → ℤ → ResizeRequest → Exec State Text Text
  pub start : Text → ℤ → Exec State Text Text
  pub stop : Text → ℤ → Exec State Text Text
  pub delete : Text → ℤ → Exec State Text Text
  pub agent : Text → ℤ → Exec State Text (List AgentNetworkInterface)
  -- Client.WaitTask on a task of a host
  pub wait_task : Text → Text → Exec State Text Unit
