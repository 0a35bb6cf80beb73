-- ===== src/Staff/Users.antt =====
-- `UserService.getTeam`, `updateProfile` and `reassignTeam`
use mathlib.Core.Option.{get_or}
use teamos_backend.Prelude.{
  ℕ, Bool, not, Option, none, some, List, [], ◌∷◌, ◌++◌, Key, truthy, same_key, is_some, filter_by,
  update_by, count_by, any_by, contains, Result, ok, bad_request, not_found, internal_error,
  throw_if, ◌>>◌, ◌==◌, ◌&&◌, if◌then◌else◌,
}
use teamos_backend.Roles.{supervisor, admin, owner, includes_role}
use teamos_backend.Directory.{
  Member, active, UserProfile, find_member, find_profile, find_department,
}
use teamos_backend.Staff.Model.{
  StaffDb, Fault, Answer, UpdateProfileDto, ReassignTeamDto, supervisor_missing, user_missing,
  profile_department_missing, supervisor_too_low, foreign_key, current_supervisor_missing,
  target_supervisor_missing, no_team_members,
}

unfoldable pub get_team : Key → Key → StaffDb → Result Fault (List UserProfile)
get_team org user db = do
  throw_if (not (is_some (find_member db.members org user))) not_found supervisor_missing
  ok (filter_by (λ p. p.organization_id == org && same_key p.supervisor_id (some user)) db.profiles)

-- `if (dto.departmentId)`
abbrev pub check_department : StaffDb → Key → Option Key → Result Fault (Unit {0})
check_department db org none = ok tt
check_department db org (some k) =
    throw_if (not (is_some (find_department db.departments org k))) bad_request
      profile_department_missing

-- `role: { in: ['supervisor', 'admin', 'owner'] }`
abbrev pub may_supervise : List Member → Key → Key → Bool
may_supervise members org user =
    any_by
      (λ m.
        m.organization_id == org
        && (m.user_id == user && includes_role (supervisor ∷ admin ∷ owner ∷ []) m.role))
      members

-- `if (dto.supervisorId)`
abbrev pub check_supervisor : StaffDb → Key → Option Key → Result Fault (Unit {0})
check_supervisor db org none = ok tt
check_supervisor db org (some user) =
    throw_if (not (may_supervise db.members org user)) bad_request supervisor_too_low

-- The empty string passes the checks; the foreign key refuses it as a department.
unfoldable pub check_profile : Key → Key → UpdateProfileDto → StaffDb → Result Fault (Unit {0})
check_profile org user dto db = do
  throw_if (not (is_some (find_member db.members org user))) not_found user_missing
  check_department db org (truthy dto.department_id)
  check_supervisor db org (truthy dto.supervisor_id)
  throw_if (is_some dto.department_id && not (is_some (truthy dto.department_id))) internal_error
      foreign_key

abbrev pub given : Option Key → Option Key → Option Key
given none old = old
given (some k) old = some k

abbrev pub patch_profile : UpdateProfileDto → UserProfile → UserProfile
patch_profile dto p = record p {
  department_id = given dto.department_id p.department_id;
  supervisor_id = given dto.supervisor_id p.supervisor_id;
  status = get_or dto.status p.status;
}

abbrev pub new_profile : Key → Key → UpdateProfileDto → UserProfile
new_profile org user dto = record {
  user_id = user;
  organization_id = org;
  department_id = dto.department_id;
  supervisor_id = dto.supervisor_id;
  status = get_or dto.status active;
}

abbrev pub is_profile : Key → Key → UserProfile → Bool
is_profile org user p = p.user_id == user && p.organization_id == org

-- `upsert`
abbrev pub write_profile : Key → Key → UpdateProfileDto → List UserProfile → List UserProfile
write_profile org user dto rows =
    if is_some (find_profile rows org user)
    then update_by (is_profile org user) (patch_profile dto) rows
    else rows ++ new_profile org user dto ∷ []

unfoldable pub update_profile : Key → Key → UpdateProfileDto → StaffDb → Answer (Option UserProfile)
unfolding check_profile
update_profile org user dto db = do
  check_profile org user dto db
  let rows = write_profile org user dto db.profiles
  ok (find_profile rows org user, record db { profiles = rows })

-- `whereClause`
abbrev pub is_reassigned : Key → Key → Option (List Key) → UserProfile → Bool
is_reassigned org current none p =
    same_key p.supervisor_id (some current) && p.organization_id == org
is_reassigned org current (some users) p =
    same_key p.supervisor_id (some current)
    && (p.organization_id == org && contains users p.user_id)

unfoldable pub check_reassign : Key → Key → ReassignTeamDto → StaffDb → Result Fault (Unit {0})
check_reassign org current dto db = do
  throw_if (not (is_some (find_member db.members org current))) not_found current_supervisor_missing
  throw_if (not (is_some (find_member db.members org dto.target_supervisor_id))) not_found
      target_supervisor_missing
  throw_if (count_by (is_reassigned org current dto.member_ids) db.profiles == 0) bad_request
      no_team_members

abbrev pub set_supervisor : Key → UserProfile → UserProfile
set_supervisor user p = record p { supervisor_id = some user }

-- `reassignedCount`, and the store.
unfoldable pub reassign_team : Key → Key → ReassignTeamDto → StaffDb → Answer ℕ
unfolding check_reassign
reassign_team org current dto db = do
  check_reassign org current dto db
  let moves = is_reassigned org current dto.member_ids
  ok (
    count_by moves db.profiles,
    record db { profiles = update_by moves (set_supervisor dto.target_supervisor_id) db.profiles },
  )
