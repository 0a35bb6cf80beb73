-- ===== src/Roles/Kinds.antt =====
-- The enum `Role` of prisma/schema.prisma.
use teamos_backend.Prelude.{Bool, true, false, List, [], ◌∷◌, ◌||◌}

pub data Role : Type 0 where
  member supervisor admin owner : Role

-- `a === b` on roles.
abbrev pub same_role : Role → Role → Bool
same_role member member = true
same_role supervisor supervisor = true
same_role admin admin = true
same_role owner owner = true
same_role _ _ = false

-- `roles.includes(role)`
abbrev pub includes_role : List Role → Role → Bool
includes_role [] r = false
includes_role (x ∷ xs) r = same_role x r || includes_role xs r
