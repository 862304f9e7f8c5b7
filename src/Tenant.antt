-- ===== src/Tenant.antt =====
-- apps/api/src/common/tenant: which tenant a request may act for, and the locks and guards that the
-- passport handlers share.
pub mod Scope
pub mod Access
pub mod PassportLock
