-- ===== src/Tests.antt =====
-- Concrete inputs: a small organisation with one battery, and the theorems of the library at work
-- on them.
pub mod World
pub mod PassportRuns
pub mod LifecycleRuns
pub mod RulesRuns
pub mod TenantRuns
pub mod AccessRuns
pub mod MoreRuns
pub mod SupplierRuns
pub mod PolicyRuns
pub mod WebRuns
pub mod StorageRuns
pub mod EvidenceRuns
pub mod RegistryRuns
pub mod AuthRuns
