-- ===== src/Staff/Listing.antt =====
-- `UserService.findAllMembersOfOrganization` and `findSupervisors`, without the fields of the users.
use teamos_backend.Prelude.{
  ℕ, Bool, true, false, not, Option, none, some, List, Key, truthy, same_key, is_some, find_by,
  filter_by, length, map, ◌==◌, ◌&&◌, ◌||◌,
}
use teamos_backend.Roles.{Role, supervisor, same_role}
use teamos_backend.Directory.{Member, UserStatus, active, inactive, on_leave, UserProfile}
use teamos_backend.Staff.Model.{StaffDb}

abbrev same_status : UserStatus → UserStatus → Bool
same_status active active = true
same_status inactive inactive = true
same_status on_leave on_leave = true
same_status _ _ = false

pub record MemberFilters : Type 0 where
  pub role : Option Role
  pub department_id : Option Key
  pub status : Option UserStatus

-- The profiles that the filters on department and status leave.
abbrev passes : Key → MemberFilters → UserProfile → Bool
passes org filters p =
    p.organization_id == org
    && ((elim (truthy filters.department_id) [
      | none ↦ true
      | some d ↦ same_key p.department_id (some d)
    ])
        && (elim filters.status [ none ↦ true | some s ↦ same_status p.status s ]))

abbrev has_role : Key → Option Role → Member → Bool
has_role org role m =
    m.organization_id == org && (elim role [ none ↦ true | some r ↦ same_role m.role r ])

pub record MemberView : Type 0 where
  pub member_id : Key
  pub role : Role
  pub user_id : Key
  pub profile : Option UserProfile

-- `profileMap.get(m.userId)`: a user has one profile in an organization.
abbrev member_view : List UserProfile → Member → MemberView
member_view profiles m = record {
  member_id = m.id;
  role = m.role;
  user_id = m.user_id;
  profile = find_by (λ p. p.user_id == m.user_id) profiles;
}

unfoldable pub find_all_members : Key → MemberFilters → StaffDb → List MemberView
find_all_members org filters db =
    let profiles = filter_by (passes org filters) db.profiles in
    let narrowed = is_some (truthy filters.department_id) || is_some filters.status in
    filter_by (λ v. not narrowed || is_some v.profile)
      (map (member_view profiles) (filter_by (has_role org filters.role) db.members))

pub record SupervisorView : Type 0 where
  pub user_id : Key
  pub role : Role
  pub department_id : Option Key
  pub team : List UserProfile
  pub team_size : ℕ

abbrev department_of : Option UserProfile → Option Key
department_of none = none
department_of (some p) = p.department_id

abbrev supervisor_view : Key → List UserProfile → Member → SupervisorView
supervisor_view org profiles m =
    let team =
      filter_by (λ p. p.organization_id == org && same_key p.supervisor_id (some m.user_id))
        profiles in
    record {
      user_id = m.user_id;
      role = m.role;
      department_id =
          department_of
            (find_by (λ p. p.organization_id == org && p.user_id == m.user_id) profiles);
      team = team;
      team_size = length team;
    }

unfoldable pub find_supervisors : Key → StaffDb → List SupervisorView
find_supervisors org db =
    map (supervisor_view org db.profiles) (filter_by (has_role org (some supervisor)) db.members)
