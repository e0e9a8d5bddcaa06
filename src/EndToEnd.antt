-- ===== src/EndToEnd.antt =====
-- internal/usecase over internal/adapter/proxmox over internal/adapter/proxmox/testserver: the whole
-- stack, from the pipelines to the VMs of the fake server.
pub mod Calls
pub mod VmCalls
pub mod Fresh
pub mod Templates
pub mod Created
pub mod CanCreate
pub mod Provisioned
pub mod Removed
pub mod Deleted
pub mod Refused
pub mod Orphan
pub mod RoundTrip
pub mod Ready
pub mod Phases
