-- ===== src/Staff/Tests.antt =====
-- Runs of the department and user services on a small store, and their theorems at that store.
use teamos_backend.Prelude.{◌+◌, ◌<◌, ◌≡◌, refl, Option, none, some, [], ◌∷◌, Key, arith, ok}
use teamos_backend.Roles.{admin, supervisor, member, Role}
use teamos_backend.Directory.{Member, UserProfile, active, Department}
use teamos_backend.Staff.Model.{StaffDb, ReassignTeamDto}
use teamos_backend.Staff.Users.{check_reassign, reassign_team}
use teamos_backend.Staff.Service.{removes, handle_staff}
use teamos_backend.Staff.Records.{AreStaff, handle_staff-AreStaff}
use teamos_backend.Staff.Reassigned.{team_size, reassign_team-moves}

abbrev member_row : Key → Key → Role → Member
member_row k user role = record { id = k; organization_id = 1; user_id = user; role = role }

abbrev profile : Key → Option Key → UserProfile
profile user boss = record {
  user_id = user;
  organization_id = 1;
  department_id = some 31;
  supervisor_id = boss;
  status = active;
}

abbrev department : Key → Department
department k = record {
  id = k;
  organization_id = 1;
  name = "Ops";
  description = none;
  head_id = none;
}

-- Two supervisors 11 and 12, and a member 13 under the second.
abbrev db : StaffDb
db = record {
  members = member_row 1 11 admin ∷ member_row 2 12 supervisor ∷ member_row 3 13 member ∷ [];
  profiles = profile 12 none ∷ profile 13 (some 12) ∷ [];
  departments = department 31 ∷ record (department 32) { name = "Lab" } ∷ [];
  audit_log = [];
}

db-AreStaff : AreStaff db
db-AreStaff = record {
  keys = ((λ h. absurd (ground arith), tt), (tt, tt));
  names = (refl, (refl, tt));
  placed = (refl, (refl, tt));
}

handle_staff-AreStaff_example : AreStaff (handle_staff (removes 1 32) db)
handle_staff-AreStaff_example = handle_staff-AreStaff (removes 1 32) db tt db-AreStaff

abbrev dto : ReassignTeamDto
dto = record { target_supervisor_id = 11; member_ids = none }

abbrev moved : StaffDb
moved = record db { profiles = profile 12 none ∷ profile 13 (some 11) ∷ [] }

reassigned : reassign_team 1 12 dto db ≡ ok (1, moved)
unfolding reassign_team check_reassign
reassigned = refl

reassign_team-moves_example :
    (0 < 1)
    × (team_size 1 12 moved + 1 ≡ team_size 1 12 db)
    × (team_size 1 11 moved ≡ team_size 1 11 db + 1)
reassign_team-moves_example = reassign_team-moves 1 12 dto db moved 1 refl reassigned

-- A team handed over to one of its own: its new supervisor is their own.
own_supervisor :
    reassign_team 1 12 (record { target_supervisor_id = 13; member_ids = none }) db
    ≡ ok (1, record db { profiles = profile 12 none ∷ profile 13 (some 13) ∷ [] })
unfolding reassign_team check_reassign
own_supervisor = refl
