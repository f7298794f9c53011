-- ===== src/Timeline.antt =====
-- The timeline of an agent's tool calls: pkg/bench/timeline_parse.go and timeline_types.go.
pub mod Commands
pub mod Steps
pub mod Parse
pub mod Counts
pub mod Blind
pub mod Samples
mod Tests
