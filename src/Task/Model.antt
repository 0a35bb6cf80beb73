-- ===== src/Task/Model.antt =====
-- The rows that `TaskService` keeps (prisma/schema.prisma) and what its requests carry
-- (src/modules/task/dto). Times are milliseconds; numbers of hours are only stored.
use Prim.Native.String.{String}
use teamos_backend.Prelude.{ℕ, Bool, Option, List, Key, Result}
use teamos_backend.Directory.{Member, UserProfile, Department}
use teamos_backend.Outbox.{TaskStatus, Priority, Effect}

pub record Task : Type 0 where
  pub id : Key
  pub organization_id : Key
  pub title : String
  pub description : Option String
  pub status : TaskStatus
  pub priority : Priority
  pub deadline : Option ℕ
  pub completed_at : Option ℕ
  pub assigned_to_id : Key
  pub assigned_by_id : Key
  pub department_id : Option Key
  pub depends_on_task_id : Option Key
  pub estimated_hours : Option ℕ
  pub tags : List String

pub record SubTask : Type 0 where
  pub id : Key
  pub task_id : Key
  pub title : String
  pub is_completed : Bool
  pub order : ℕ

pub record TaskComment : Type 0 where
  pub id : Key
  pub task_id : Key
  pub user_id : Key
  pub content : String
  pub parent_comment_id : Option Key

pub record TaskAttachment : Type 0 where
  pub id : Key
  pub task_id : Key
  pub file_url : String
  pub file_name : String
  pub file_size : ℕ
  pub uploaded_by_id : Key

-- The messages of `TaskGateway` on tasks. `updateSubTask` and `updateComment` hand the gateway a
-- query that has not been awaited: `pending`.
pub data TaskMessage : Type 0 where
  task_created task_updated : Task → TaskMessage
  task_status_changed : Key → TaskStatus → TaskMessage
  task_deleted : Key → TaskMessage
  sub_task_added : SubTask → TaskMessage
  sub_task_updated_pending comment_updated_pending : TaskMessage
  sub_task_updated : Key → TaskMessage
  comment_deleted : Key → TaskMessage

pub record TaskDb : Type 0 where
  pub members : List Member
  pub profiles : List UserProfile
  pub departments : List Department
  pub tasks : List Task
  pub sub_tasks : List SubTask
  pub comments : List TaskComment
  pub attachments : List TaskAttachment
  pub outbox : List (Effect TaskMessage)

-- The messages of the exceptions that the service throws.
pub data Fault : Type 0 where
  assignee_not_member department_not_valid dependency_missing self_dependency circular_dependency
        dependency_walk_unfinished task_missing caller_not_member not_your_task
        overdue_cannot_reopen dependency_not_completed may_not_delete has_dependents task_completed
        same_title member_cannot_edit sub_task_missing parent_comment_missing comment_missing
        same_content not_your_comment attachment_missing record_to_update_missing :
      Fault

-- A request answers with a value and the new store, or is refused. Every exception of the
-- service is thrown before its first write, so a refusal stands for an unchanged store.
abbrev pub Answer : Type 0 → Type 0
Answer A = Result Fault (A × TaskDb)

pub record SubTaskDraft : Type 0 where
  pub title : String
  pub order : Option ℕ

pub record CreateTaskDto : Type 0 where
  pub title : String
  pub description : Option String
  pub priority : Option Priority
  pub deadline : ℕ
  pub assigned_to_id : Key
  pub department_id : Option Key
  pub depends_on_task_id : Option Key
  pub estimated_hours : Option ℕ
  pub tags : Option (List String)
  pub sub_tasks : List SubTaskDraft

-- A field that may be missing (`none`) or `null` (`some none`) is an option of an option.
pub record UpdateTaskDto : Type 0 where
  pub title : Option String
  pub description : Option (Option String)
  pub priority : Option Priority
  pub deadline : Option ℕ
  pub assigned_to_id : Option Key
  pub department_id : Option Key
  pub depends_on_task_id : Option (Option Key)
  pub estimated_hours : Option (Option ℕ)
  pub tags : Option (List String)
