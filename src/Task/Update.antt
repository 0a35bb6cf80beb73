-- ===== src/Task/Update.antt =====
-- `TaskService.update`
use Prim.Native.String.{String}
use mathlib.Core.Option.{get_or}
use teamos_backend.Prelude.{
  truthy_text, Option, none, some, List, [], ◌∷◌, ◌++◌, Key, truthy, same_key, is_some, update_by,
  Result, ok, bad_request, throw_if, ◌>>=◌, ◌>>◌, ◌==◌, not, if◌then◌else◌,
}
use teamos_backend.Directory.{find_member, find_department}
use teamos_backend.Outbox.{
  Effect, emit, notify, publish, audit, severity, task_assigned, task_reassigned, TaskEvent,
}
use teamos_backend.Task.Model.{
  Task, TaskDb, TaskMessage, task_updated, Answer, UpdateTaskDto, Fault, assignee_not_member,
  department_not_valid, dependency_missing, self_dependency,
}
use teamos_backend.Task.Lookup.{find_task, get_task_or_throw}
use teamos_backend.Task.Dependencies.{check_chain}

-- `if (dto.field)` where the field may be missing or `null`.
abbrev pub truthy_field : Option (Option Key) → Option Key
truthy_field none = none
truthy_field (some k) = truthy k

-- `dto.assignedToId && task.assignedToId !== dto.assignedToId`
abbrev pub changed : Option Key → Option Key → Option Key
changed none old = none
changed (some k) old = if same_key old (some k) then none else some k

abbrev new_assignee : UpdateTaskDto → Task → Option Key
new_assignee dto task = changed (truthy dto.assigned_to_id) (some task.assigned_to_id)

abbrev check_assignee : TaskDb → Key → Option Key → Result Fault (Unit {0})
check_assignee db org none = ok tt
check_assignee db org (some user) =
    throw_if (not (is_some (find_member db.members org user))) bad_request assignee_not_member

abbrev check_department : TaskDb → Key → Option Key → Result Fault (Unit {0})
check_department db org none = ok tt
check_department db org (some d) =
    throw_if (not (is_some (find_department db.departments org d))) bad_request department_not_valid

unfoldable pub check_new_dependency : TaskDb → Key → Key → Option Key → Result Fault (Unit {0})
check_new_dependency db org task_id none = ok tt
check_new_dependency db org task_id (some d) = do
  throw_if (not (is_some (find_task db.tasks org d))) bad_request dependency_missing
  throw_if (d == task_id) bad_request self_dependency
  check_chain db.tasks task_id d

-- The checks up to the write; the answer is the task as it was.
unfoldable pub check_update : Key → Key → UpdateTaskDto → TaskDb → Result Fault Task
check_update org task_id dto db = do
  task ← get_task_or_throw db org task_id
  check_assignee db org (new_assignee dto task)
  check_department db org (changed (truthy dto.department_id) task.department_id)
  check_new_dependency db org task_id
      (changed (truthy_field dto.depends_on_task_id) task.depends_on_task_id)
  ok task

-- `truthy || old`
abbrev or_old : Option Key → Option Key → Option Key
or_old none old = old
or_old (some k) old = some k

-- The `data` of the write: fields that the request leaves out stay.
unfoldable pub patch : UpdateTaskDto → Task → Task
patch dto task = record task {
  title = get_or (truthy_text dto.title) task.title;
  description = get_or dto.description task.description;
  priority = get_or dto.priority task.priority;
  deadline = or_old dto.deadline task.deadline;
  assigned_to_id = get_or (truthy dto.assigned_to_id) task.assigned_to_id;
  department_id = or_old (truthy dto.department_id) task.department_id;
  depends_on_task_id = get_or dto.depends_on_task_id task.depends_on_task_id;
  estimated_hours = get_or dto.estimated_hours task.estimated_hours;
  tags = get_or dto.tags task.tags;
}

-- The event and the audit entry of a new assignee, before the gateway's message. The event's
-- arguments stand in the order of the call.
reassignment : Key → Task → Option Key → Option Key → Option String → List (Effect TaskMessage)
reassignment org task none actor ip = []
reassignment org task (some user) none ip =
    publish (TaskEvent.reassigned org user task.assigned_to_id) ∷ []
reassignment org task (some user) (some actor) ip =
    publish (TaskEvent.reassigned org user task.assigned_to_id)
    ∷ audit (record {
      org_id = org;
      user_id = actor;
      action = task_reassigned;
      target_id = task.id;
      ip_address = ip;
    })
    ∷ []

reassignment_notice : Key → Task → Option Key → List (Effect TaskMessage)
reassignment_notice org updated none = []
reassignment_notice org updated (some user) =
    notify (record {
      org_id = org;
      user_id = user;
      kind = task_assigned;
      level = severity task_assigned;
      related_id = some updated.id;
    })
    ∷ []

unfoldable pub update :
    Key → Key → UpdateTaskDto → Option Key → Option String → TaskDb → Answer Task
unfolding check_update patch reassignment reassignment_notice
update org task_id dto actor ip db = do
  task ← check_update org task_id dto db
  let updated = patch dto task
  let assignee = new_assignee dto task
  ok (
    updated,
    record db {
      tasks = update_by (λ t. t.id == task_id) (patch dto) db.tasks;
      outbox =
          db.outbox
          ++ (reassignment org task assignee (truthy actor) ip
              ++ (emit org (task_updated updated) ∷ reassignment_notice org updated assignee));
    },
  )
