-- ===== src/Tests.antt =====
-- Runs of the models on concrete inputs.
pub mod Fixtures
pub mod CreateRuns
pub mod PoolRuns
pub mod ProxmoxRuns
pub mod ConfigRuns
pub mod WholeRuns
pub mod KubeRuns
pub mod FakeRuns
pub mod ClusterRuns
pub mod CommandRuns
pub mod TextRuns
pub mod ProviderRuns
pub mod StackRuns
pub mod CloneRuns
