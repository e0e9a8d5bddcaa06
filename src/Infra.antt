-- ===== src/Infra.antt =====
-- internal/domain/ports/infra.go: what the use cases need of a provider, over an unknown state. The
-- provider of internal/adapter/proxmox is one such; Name and Capabilities return constants that no
-- use case reads.
use proxmox_k3s.Prelude.{ℕ, List}
use proxmox_k3s.Prelude.Text.{Text}
use proxmox_k3s.Prelude.Result.{Exec}
use proxmox_k3s.Domain.Error.{Error}
use proxmox_k3s.Domain.Model.{Cluster, Node, NodeSpec}
use proxmox_k3s.Proxmox.Placement.{Floats}
use proxmox_k3s.Proxmox.Api.{Api}
use proxmox_k3s.Proxmox.Provider.{
  Provider, preflight, list_nodes, create_node, delete_node, wait_ready,
}

pub record InfraProvider : Type 1 where
  pub State : Type 0
  pub preflight : Cluster → Exec State Error Unit
  pub list_nodes : Text → Exec State Error (List Node)
  pub create_node : NodeSpec → Exec State Error Node
  pub delete_node : Node → Exec State Error Unit
  pub wait_ready : Node → Exec State Error Node

-- The Proxmox provider; `rounds` is the patience of the context that WaitReady is called with.
abbrev pub proxmox_provider : Floats → Api → (template storage : Text) → ℕ → InfraProvider
proxmox_provider floats A template storage rounds = record {
  State = Provider floats A template storage;
  preflight = preflight floats A template storage;
  list_nodes = list_nodes floats A template storage;
  create_node = create_node floats A template storage;
  delete_node = delete_node floats A template storage;
  wait_ready = wait_ready floats A template storage rounds;
}
