-- ===== src/Spamhunter.antt =====
-- spamhunter/pubkey_iterator: its store, the walk over the authors, the fetch and the whitelist.
pub mod Model
pub mod Store
pub mod Client
pub mod Retry
pub mod Enumerate
pub mod Fetch
pub mod Whitelist
pub mod Pipeline
pub mod Detect
pub mod Batch
mod Examples
