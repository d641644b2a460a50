-- ===== src/Lmdb.antt =====
-- LMDB2GraphQL/src/lmdb: the strfry LMDB environment, read only.
pub mod Heed
pub mod Indexes
pub mod Meta
pub mod Payload
pub mod Scan
pub mod SelfCheck
