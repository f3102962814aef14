-- ===== src/Analyzer.antt =====
-- internal/analyzer: from the ROM to the basic blocks that are compiled.
pub mod Types
pub mod Flow
pub mod Arrays
pub mod Collect
pub mod Analyze
pub mod Chain
pub mod Ownership
pub mod Schedule
pub mod Invariant
pub mod Sorted
pub mod Correct
pub mod Reachable
pub mod Tests
