-- ===== src/Create.antt =====
-- internal/usecase/create/create.go: the pipeline behind `proxmox-k3s create`. Its progress log is not
-- modelled.
pub mod Names
pub mod Plan
pub mod Provision
pub mod Ready
pub mod Phases
pub mod ControlPlane
pub mod Run
