-- ===== src/Proxmox.antt =====
-- Package internal/adapter/proxmox.
pub mod Node
pub mod Placement
pub mod Clones
pub mod Tags
pub mod Vm
pub mod Api
pub mod Provider
pub mod Http
pub mod Client
pub mod FakeServer
