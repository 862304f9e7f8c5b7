-- ===== src/Registry.antt =====
-- apps/api/src/modules/registry: the preparation of Registry drafts.
pub mod Xml
pub mod Draft
pub mod Identity
pub mod Preparation
