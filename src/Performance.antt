-- ===== src/Performance.antt =====
-- Performance: src/modules/performance/performance.service.ts, one child for each group of methods.
mod Model
mod Store
mod Scoring
mod Jobs
mod Snapshots
mod Views
mod Counting
pub mod Rated
pub mod Fresh
pub mod Current
mod Repeats
mod Daily
mod Following
mod Visibility
mod Ranking
mod Tests
pub use Model.*
pub use Store.*
