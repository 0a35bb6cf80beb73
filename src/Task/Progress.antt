-- ===== src/Task/Progress.antt =====
-- `TaskService.updateStatus`
use teamos_backend.Prelude.{
  ℕ, Bool, true, false, Option, none, some, List, [], ◌∷◌, ◌++◌, Key, truthy, find_by, update_by,
  Result, ok, bad_request, forbidden, not_found, or_throw, throw_if, ◌>>=◌, ◌>>◌, ◌==◌, ◌&&◌, not,
}
use teamos_backend.Roles.{same_role, member}
use teamos_backend.Directory.{find_member}
use teamos_backend.Outbox.{
  TaskStatus, not_started, in_progress, completed, overdue, completed_late, Effect, emit, notify,
  publish, severity, TaskEvent, NotificationType,
}
use teamos_backend.Task.Model.{
  Task, TaskDb, TaskMessage, task_status_changed, Answer, Fault, caller_not_member, not_your_task,
  overdue_cannot_reopen, dependency_not_completed,
}
use teamos_backend.Task.Lookup.{get_task_or_throw, is_completed_status}

-- `newStatus === 'IN_PROGRESS' || newStatus === 'NOT_STARTED'`
abbrev pub is_open_status : TaskStatus → Bool
is_open_status not_started = true
is_open_status in_progress = true
is_open_status _ = false

abbrev pub is_overdue : TaskStatus → Bool
is_overdue overdue = true
is_overdue _ = false

-- The statuses that a dependency gates.
abbrev pub needs_dependency : TaskStatus → Bool
needs_dependency not_started = false
needs_dependency in_progress = true
needs_dependency completed = true
needs_dependency overdue = false
needs_dependency completed_late = true

-- `task.dependsOn`, the row that the relation includes, if its id is truthy.
unfoldable pub dependency_of : TaskDb → Task → Option Task
dependency_of db task = elim (truthy task.depends_on_task_id) [
  | none ↦ none
  | some d ↦ find_by (λ t. t.id == d) db.tasks
]

-- `dependency && !['COMPLETED', 'COMPLETED_LATE'].includes(dependency.status)`
abbrev pub blocks : Option Task → Bool
blocks none = false
blocks (some d) = not (is_completed_status d.status)

unfoldable pub check_status : Key → Key → TaskStatus → Key → TaskDb → Result Fault Task
check_status org task_id new_status user db = do
  task ← get_task_or_throw db org task_id
  membership ← or_throw (find_member db.members org user) not_found caller_not_member
  throw_if (same_role membership.role member && not (task.assigned_to_id == user)) forbidden
      not_your_task
  throw_if (is_overdue task.status && is_open_status new_status) bad_request overdue_cannot_reopen
  throw_if (needs_dependency new_status && blocks (dependency_of db task)) bad_request
      dependency_not_completed
  ok task

-- `finalStatus`
unfoldable pub final_status : TaskStatus → TaskStatus → TaskStatus
final_status overdue completed = completed_late
final_status current new_status = new_status

-- `completedAt`
unfoldable pub final_completed_at : ℕ → TaskStatus → Option ℕ → Option ℕ
final_completed_at now not_started old = none
final_completed_at now in_progress old = none
final_completed_at now completed old = some now
final_completed_at now overdue old = old
final_completed_at now completed_late old = old

-- The fields that the write sets: the new status is computed from the row that was read.
unfoldable pub set_status : TaskStatus → Option ℕ → Task → Task
set_status status completed_at task = record task { status = status; completed_at = completed_at }

pub completion_notice : Key → Task → TaskStatus → List (Effect TaskMessage)
completion_notice org task new_status = elim (is_completed_status new_status) [
  | false ↦ []
  | true ↦
      notify (record {
        org_id = org;
        user_id = task.assigned_by_id;
        kind = NotificationType.task_completed;
        level = severity NotificationType.task_completed;
        related_id = some task.id;
      })
      ∷ []
]

unfoldable pub update_status : ℕ → Key → Key → TaskStatus → Key → TaskDb → Answer Task
unfolding check_status final_status final_completed_at set_status completion_notice
update_status now org task_id new_status user db = do
  task ← check_status org task_id new_status user db
  let final = final_status task.status new_status
  let completed_at = final_completed_at now new_status task.completed_at
  ok (
    set_status final completed_at task,
    record db {
      tasks = update_by (λ t. t.id == task_id) (set_status final completed_at) db.tasks;
      outbox =
          db.outbox
          ++ emit org (task_status_changed task_id final)
            ∷ (completion_notice org task new_status
                ++ publish (TaskEvent.status_changed org task.assigned_to_id task.status final)
                  ∷ []);
    },
  )
