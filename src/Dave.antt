-- ===== src/Dave.antt =====
-- internal/dave: the counters of the end-to-end encryption layer.
pub mod Stats
mod Examples
