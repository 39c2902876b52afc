-- ===== src/Provider.antt =====
-- internal/provider: the state of each provider, its gate, the preflight checks, and the cache of answers.
pub mod State
pub mod Gate
pub mod TtlCache
