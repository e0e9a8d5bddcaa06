-- ===== src/Addons.antt =====
-- internal/adapter/kubernetes/software: kube-vip and MetalLB.
pub mod KubeVip
pub mod MetalLb
