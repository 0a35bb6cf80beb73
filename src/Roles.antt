-- ===== src/Roles.antt =====
-- Roles and their ranks (src/lib/common/constants/role-rank.ts). A role that comes in as a string
-- is `some` role, or `none` for a string that `ROLE_RANK` has no entry for.
mod Kinds
mod Rank
pub use Kinds.*
unfoldable pub use Rank.{rank, acting_rank, outranks}
