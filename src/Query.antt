-- ===== src/Query.antt =====
-- LMDB2GraphQL/src/query: filters, index selection, scans merged and hydrated into pages of events.
pub mod Filter
pub mod Router
pub mod Authors
pub mod Engine
pub mod Merge
pub mod Hydrate
