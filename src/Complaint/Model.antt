-- ===== src/Complaint/Model.antt =====
-- The rows that `ComplaintService` keeps (prisma/schema.prisma) and what its requests carry
-- (src/modules/complaint/dto).
use Prim.Native.String.{String}
use teamos_backend.Prelude.{
  ℕ, Bool, true, false, Option, List, Key, Result, any_by, filter_by, map, ◌==◌, ◌&&◌,
}
use teamos_backend.Directory.{Member, UserProfile}
use teamos_backend.Outbox.{Effect, Priority}

-- `OPEN`, `IN_REVIEW`, `LATE`, `RESOLVED` and `DISMISSED`.
pub data ComplaintStatus : Type 0 where
  opened in_review late resolved dismissed : ComplaintStatus

pub data ComplaintCategory : Type 0 where
  bug complaint suggestion error other : ComplaintCategory

pub record Complaint : Type 0 where
  pub id : Key
  pub organization_id : Key
  pub title : String
  pub description : String
  pub category : ComplaintCategory
  pub priority : Priority
  pub status : ComplaintStatus
  pub resolution : Option String
  pub resolved_at : Option ℕ
  pub user_id : Key
  pub resolved_by_id : Option Key
  pub created_at : ℕ
  pub updated_at : ℕ

pub record ComplaintTarget : Type 0 where
  pub id : Key
  pub complaint_id : Key
  pub user_id : Key

-- The messages of `TaskGateway` on complaints. The first carries the complaint with its targets.
pub data ComplaintMessage : Type 0 where
  complaint_created : Complaint → List Key → ComplaintMessage
  complaint_status_changed : Key → ComplaintStatus → Option Key → ComplaintMessage
  complaint_deleted : Key → ComplaintMessage
  complaint_late : Key → String → ComplaintMessage

pub record ComplaintDb : Type 0 where
  pub members : List Member
  pub profiles : List UserProfile
  pub complaints : List Complaint
  pub targets : List ComplaintTarget
  pub outbox : List (Effect ComplaintMessage)

-- The messages of the exceptions that the service throws, and the database's refusal of two
-- targets that are one user.
pub data Fault : Type 0 where
  targets_self users_missing unique_target complaint_missing no_access no_transition
        only_targeted_or_admin only_admin own_not_open may_not_delete :
      Fault

-- A request answers with a value and the new store, or is refused and leaves the store.
abbrev pub Answer : Type 0 → Type 0
Answer A = Result Fault (A × ComplaintDb)

pub record CreateComplaintDto : Type 0 where
  pub title : String
  pub description : String
  pub category : Option ComplaintCategory
  pub priority : Option Priority
  pub target_user_ids : Option (List Key)

pub record UpdateComplaintStatusDto : Type 0 where
  pub status : ComplaintStatus
  pub resolution : Option String

-- `findFirst({ where: { id: complaintId, organizationId: orgId } })`
abbrev pub owned_by : Key → Key → Complaint → Bool
owned_by org k c = c.id == k && c.organization_id == org

-- `complaint.targets.map(t => t.userId)`
abbrev pub target_users : List ComplaintTarget → Key → List Key
target_users targets k = map (λ t. t.user_id) (filter_by (λ t. t.complaint_id == k) targets)

-- `complaint.targets.some((t) => t.userId === userId)`
abbrev pub is_targeted : List ComplaintTarget → Key → Key → Bool
is_targeted targets k user = any_by (λ t. t.complaint_id == k && t.user_id == user) targets

-- `a === b` on statuses.
abbrev pub same_status : ComplaintStatus → ComplaintStatus → Bool
same_status opened opened = true
same_status in_review in_review = true
same_status late late = true
same_status resolved resolved = true
same_status dismissed dismissed = true
same_status _ _ = false
