-- ===== src/Domain.antt =====
-- Package internal/domain: the types that the other packages share, and the catalogue of sizes.
pub mod Error
pub mod Size
pub mod Model
