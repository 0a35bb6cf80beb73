-- ===== src/Guard.antt =====
-- `RolesGuard` (src/lib/common/guards/roles.guard.ts)
use teamos_backend.Prelude.{
  not, Option, none, some, List, [], ◌∷◌, Key, truthy, Result, ok, forbidden, throw_if, or_throw,
  ◌>>=◌, ◌>>◌,
}
use teamos_backend.Roles.{Role, includes_role}
use teamos_backend.Directory.{Member, find_member}

pub data Fault : Type 0 where
  no_active_organization not_a_member role_not_allowed : Fault

-- What the guard reads of a request: the user, the session's organization and the header's.
pub record GuardedRequest : Type 0 where
  pub user_id : Option Key
  pub active_organization_id : Option Key
  pub header_org_id : Option Key

-- `a ?? b`
abbrev or_else : Option Key → Option Key → Option Key
or_else none b = b
or_else (some a) b = some a

abbrev requested_org : GuardedRequest → Option Key
requested_org q = truthy (or_else q.active_organization_id q.header_org_id)

-- `_currentRole`, which is set only where roles are asked for.
unfoldable pub can_activate :
    Option (List Role) → GuardedRequest → List Member → Result Fault (Option Role)
can_activate none q members = ok none
can_activate (some []) q members = ok none
can_activate (some (r ∷ rs)) q members = do
  user ← or_throw (truthy q.user_id) forbidden no_active_organization
  org ← or_throw (requested_org q) forbidden no_active_organization
  m ← or_throw (find_member members org user) forbidden not_a_member
  throw_if (not (includes_role (r ∷ rs) m.role)) forbidden role_not_allowed
  ok (some m.role)
