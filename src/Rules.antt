-- ===== src/Rules.antt =====
-- packages/rules: the regulatory rule engine and the gates, which the API and the web site share.
pub mod Types
pub mod StateMachine
pub mod Access
pub mod Registry
pub mod RegistryIdentity
pub mod Catalogue
pub mod Engine
