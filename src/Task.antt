-- ===== src/Task.antt =====
-- Tasks: src/modules/task/task.service.ts, one child for each group of methods.
mod Model
mod Lookup
mod Dependencies
mod Create
mod Update
pub mod Progress
mod Remove
mod SubTasks
mod Comments
mod Queries
pub mod Service
mod TaskWrites
pub mod Invariant
mod Tests
pub mod Completion
pub mod Visibility
pub mod Stats
pub mod Ordering
pub mod Reaching
mod Trails
pub mod Chains
pub mod Acyclic
mod Links
pub mod Soundness
pub use Model.*
pub use Lookup.*
pub use Queries.{same_status}
unfoldable pub use Dependencies.{parent_of, walk, check_chain}
