-- ===== src/Comparison.antt =====
-- core/ab_comparator.py: the comparison of two connectors on the same strategy ticks.
pub mod Metrics
pub mod Strategy
pub mod Counts
mod Tests
