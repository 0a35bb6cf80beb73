-- ===== src/Directory.antt =====
-- Who belongs to an organization (prisma/schema.prisma): the rows of `Member`, `UserProfile` and
-- `Department`, which every service reads.
use Prim.Native.String.{String}
use teamos_backend.Prelude.{
  Bool, true, false, Option, some, List, [], ◌∷◌, ◌++◌, Key, map, filter_by, same_key, find_by,
  ◌==◌, ◌&&◌,
}
use teamos_backend.Roles.{Role}

pub record Member : Type 0 where
  pub id : Key
  pub organization_id : Key
  pub user_id : Key
  pub role : Role

pub data UserStatus : Type 0 where
  active inactive on_leave : UserStatus

-- `status: 'active'`
abbrev pub is_active : UserStatus → Bool
is_active active = true
is_active inactive = false
is_active on_leave = false

pub record UserProfile : Type 0 where
  pub user_id : Key
  pub organization_id : Key
  pub department_id : Option Key
  pub supervisor_id : Option Key
  pub status : UserStatus

pub record Department : Type 0 where
  pub id : Key
  pub organization_id : Key
  pub name : String
  pub description : Option String
  pub head_id : Option Key

-- `prisma.member.findFirst({ where: { organizationId: orgId, userId } })`
abbrev pub find_member : List Member → Key → Key → Option Member
find_member members org user = find_by (λ m. m.organization_id == org && m.user_id == user) members

-- `prisma.userProfile.findUnique({ where: { userId_organizationId: { userId, organizationId } } })`
abbrev pub find_profile : List UserProfile → Key → Key → Option UserProfile
find_profile profiles org user =
    find_by (λ p. p.user_id == user && p.organization_id == org) profiles

-- `prisma.department.findFirst({ where: { id, organizationId: orgId } })`
abbrev pub find_department : List Department → Key → Key → Option Department
find_department departments org department =
    find_by (λ d. d.id == department && d.organization_id == org) departments

-- The users whose profile names the caller as supervisor, and the caller.
unfoldable pub team_of : List UserProfile → Key → Key → List Key
team_of profiles org user =
    map (λ p. p.user_id)
      (filter_by (λ p. same_key p.supervisor_id (some user) && p.organization_id == org) profiles)
    ++ user ∷ []
