-- ===== src/Roles/Rank.antt =====
-- src/lib/common/constants/role-rank.ts
use teamos_backend.Prelude.{ℕ, ◌+◌, Bool, Option, none, some, ltb}
use teamos_backend.Roles.Kinds.{Role, member, supervisor, admin, owner}

-- `ROLE_RANK`
abbrev pub rank : Role → ℕ
rank member = 0
rank supervisor = 1
rank admin = 2
rank owner = 3

-- `ROLE_RANK[role] ?? -1`, shifted by one so that -1 is 0.
abbrev pub acting_rank : Option Role → ℕ
acting_rank none = 0
acting_rank (some r) = rank r + 1

-- `(ROLE_RANK[actingRole] ?? -1) > (ROLE_RANK[targetRole] ?? 0)`, both sides shifted by one.
target_rank : Option Role → ℕ
target_rank none = 1
target_rank (some r) = rank r + 1

unfoldable pub outranks : Option Role → Option Role → Bool
unfolding target_rank
outranks acting target = ltb (target_rank target) (acting_rank acting)
