-- ===== src/Config.antt =====
-- internal/config: the configuration file, its defaults, its validation and the model made of it.
pub mod Schema
pub mod Load
pub mod Defaults
pub mod ToModel
pub mod Validate
