-- ===== src/Staff/Model.antt =====
-- The tables that `DepartmentService` and `UserService` write, and what their requests carry
-- (src/modules/department/dto, src/modules/user/dto).
use Prim.Native.String.{String}
use teamos_backend.Prelude.{Option, List, Key, Result}
use teamos_backend.Directory.{Member, UserStatus, UserProfile, Department}
use teamos_backend.Outbox.{AuditEntry}

pub record StaffDb : Type 0 where
  pub members : List Member
  pub profiles : List UserProfile
  pub departments : List Department
  pub audit_log : List AuditEntry

-- The messages of the exceptions that the services throw, and the database's refusals.
pub data Fault : Type 0 where
  department_exists head_not_member department_missing department_has_staff unique_name
        supervisor_missing user_missing profile_department_missing supervisor_too_low foreign_key
        current_supervisor_missing target_supervisor_missing no_team_members :
      Fault

abbrev pub Answer : Type 0 → Type 0
Answer A = Result Fault (A × StaffDb)

pub record CreateDepartmentDto : Type 0 where
  pub name : String
  pub description : Option String
  pub head_id : Option Key

pub record UpdateDepartmentDto : Type 0 where
  pub name : Option String
  pub description : Option String
  pub head_id : Option Key

pub record UpdateProfileDto : Type 0 where
  pub department_id : Option Key
  pub supervisor_id : Option Key
  pub status : Option UserStatus

pub record ReassignTeamDto : Type 0 where
  pub target_supervisor_id : Key
  pub member_ids : Option (List Key)
