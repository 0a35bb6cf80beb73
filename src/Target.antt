-- ===== src/Target.antt =====
-- Targets: src/modules/target/target.service.ts, one child for each group of methods.
mod Model
mod Alignment
mod Changes
mod Entries
pub mod Hierarchy
pub mod Alignments
pub mod Service
mod Rollup
mod Linking
mod Upkeep
mod Tests
mod Queries
mod Visibility
