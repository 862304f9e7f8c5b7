-- ===== src/Storage.antt =====
-- apps/api/src/common/storage: the malware scanner's client and the object store.
pub mod Clamd
pub mod Scanner
pub mod Objects
