-- ===== src/Target/Model.antt =====
-- The rows that `TargetService` keeps (prisma/schema.prisma) and what its requests carry
-- (src/modules/target/dto). Amounts are JavaScript numbers of a type `V`.
use Prim.Native.String.{String}
use teamos_backend.Prelude.{ℕ, Option, List, Key, Result}
use teamos_backend.Directory.{Member, UserProfile, Department}
use teamos_backend.Outbox.{Effect}

pub data TargetType : Type 0 where
  company team individual : TargetType

pub data TargetStatus : Type 0 where
  on_track at_risk completed missed : TargetStatus

pub record Target (V : Type 0) : Type 0 where
  pub id : Key
  pub organization_id : Key
  pub title : String
  pub description : Option String
  pub kind : TargetType
  pub parent_target_id : Option Key
  pub target_value : V
  pub current_value : V
  pub status : TargetStatus
  pub period : Option String
  pub deadline : ℕ
  pub assigned_to_id : Option Key
  pub created_by_id : Key
  pub department_id : Option Key

pub record TargetEntry (V : Type 0) : Type 0 where
  pub id : Key
  pub target_id : Key
  pub user_id : Key
  pub value : V
  pub note : Option String
  pub attachment_url : Option String
  pub attachment_name : Option String

-- The messages of `TaskGateway` on targets.
pub data TargetMessage (V : Type 0) : Type 0 where
  target_created target_updated : Target V → TargetMessage V
  target_deleted : Key → TargetMessage V
  target_entry_added : Key → TargetEntry V → V → TargetMessage V
  target_entry_deleted : Key → TargetMessage V

pub record TargetDb (V : Type 0) : Type 0 where
  pub members : List Member
  pub profiles : List UserProfile
  pub departments : List Department
  pub targets : List (Target V)
  pub entries : List (TargetEntry V)
  pub outbox : List (Effect (TargetMessage V))

-- The messages of the exceptions that the service throws.
pub data Fault : Type 0 where
  company_needs_admin team_needs_supervisor individual_needs_supervisor assignee_required
        company_has_no_assignee assignee_not_member department_missing not_your_department
        parent_missing company_has_no_parent parent_of_wrong_type circular_alignment
        alignment_too_deep climb_unfinished foreign_key not_org_member target_missing
        not_your_target not_your_team may_not_update has_children may_not_delete target_closed
        may_not_log entry_missing entry_of_other_organization :
      Fault

-- A request answers with a value and the new store, or is refused: every exception is thrown
-- before the first write, so a refusal stands for an unchanged store.
abbrev pub Answer : Type 0 → Type 0 → Type 0
Answer V A = Result Fault (A × TargetDb V)

pub record CreateTargetDto (V : Type 0) : Type 0 where
  pub title : String
  pub description : Option String
  pub kind : TargetType
  pub target_value : V
  pub deadline : ℕ
  pub parent_target_id : Option Key
  pub assigned_to_id : Option Key
  pub department_id : Option Key
  pub period : Option String

-- A field is missing (`none`), `null` (`some none`) or given.
pub record UpdateTargetDto (V : Type 0) : Type 0 where
  pub title : Option String
  pub description : Option (Option String)
  pub status : Option TargetStatus
  pub target_value : Option V
  pub deadline : Option ℕ
  pub parent_target_id : Option (Option Key)
  pub assigned_to_id : Option (Option Key)
  pub department_id : Option (Option Key)
  pub period : Option (Option String)
