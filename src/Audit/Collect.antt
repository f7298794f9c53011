-- ===== src/Audit/Collect.antt =====
-- The collector: `Collect` of pkg/audit/collector.go. The sources, the health probes and the clock
-- are a record of functions: what the source at a position answers in a round, and whether the
-- deadline has passed, or the context has ended, after a round.
pub mod Loop
pub mod Judge
unfoldable pub use Loop.*
unfoldable pub use Judge.*
