-- ===== src/Passports.antt =====
-- apps/api/src/modules/passports: the readiness of a passport, its publication in immutable
-- versions, and what a reader of a tier sees of it.
pub mod Data
pub mod Projection
pub mod Document
pub mod Lifecycle
