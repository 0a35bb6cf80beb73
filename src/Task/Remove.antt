-- ===== src/Task/Remove.antt =====
-- `TaskService.remove`
use teamos_backend.Prelude.{
  Option, some, List, [], ◌∷◌, ◌++◌, Key, same_key, filter_by, delete_by, map, Result, ok,
  bad_request, forbidden, throw_if, ◌>>=◌, ◌>>◌, ◌==◌, not, is_empty,
}
use teamos_backend.Roles.{Role}
use teamos_backend.Outbox.{Effect, emit, publish, delete_file, TaskEvent}
use teamos_backend.Task.Model.{
  Task, TaskAttachment, TaskDb, TaskMessage, task_deleted, Answer, Fault, may_not_delete,
  has_dependents,
}
use teamos_backend.Task.Lookup.{get_task_or_throw, may_delete_of}

-- `dependents`: the tasks whose `dependsOnTaskId` is this one.
abbrev pub dependents : List Task → Key → List Task
dependents tasks task_id = filter_by (λ t. same_key t.depends_on_task_id (some task_id)) tasks

unfoldable pub check_remove : Key → Key → Key → Option Role → TaskDb → Result Fault Task
check_remove org task_id user role db = do
  task ← get_task_or_throw db org task_id
  throw_if (not (may_delete_of db org task.assigned_by_id user role)) forbidden may_not_delete
  throw_if (not (is_empty (dependents db.tasks task_id))) bad_request has_dependents
  ok task

attachment_deletions : List TaskAttachment → List (Effect TaskMessage)
attachment_deletions = map (λ a. delete_file a.file_url)

-- The schema deletes subtasks, comments and attachments with their task (`onDelete: Cascade`).
unfoldable pub remove : Key → Key → Key → Option Role → TaskDb → Answer (Unit {0})
unfolding check_remove attachment_deletions
remove org task_id user role db = do
  task ← check_remove org task_id user role db
  ok (
    tt,
    record db {
      tasks = delete_by (λ t. t.id == task_id) db.tasks;
      sub_tasks = delete_by (λ s. s.task_id == task_id) db.sub_tasks;
      comments = delete_by (λ c. c.task_id == task_id) db.comments;
      attachments = delete_by (λ a. a.task_id == task_id) db.attachments;
      outbox =
          db.outbox
          ++ (attachment_deletions (filter_by (λ a. a.task_id == task_id) db.attachments)
              ++ (publish (TaskEvent.deleted org task.assigned_to_id task.status)
                  ∷ emit org (task_deleted task_id)
                  ∷ []));
    },
  )
