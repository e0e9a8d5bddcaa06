-- ===== src/Ipam.antt =====
-- Package internal/adapter/ipam.
pub mod Pool
