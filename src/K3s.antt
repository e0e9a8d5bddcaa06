-- ===== src/K3s.antt =====
-- internal/adapter/k3s.
pub mod Kubeconfig
pub mod Version
pub mod Installer
pub mod Template
