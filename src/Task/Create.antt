-- ===== src/Task/Create.antt =====
-- `TaskService.create`
use teamos_backend.Prelude.{
  ℕ, suc, Bool, true, false, Option, none, some, List, [], ◌∷◌, ◌++◌, Key, truthy, same_key,
  is_some, any_by, find_by, Result, ok, bad_request, throw_if, ◌>>◌, ◌==◌, ◌&&◌, not,
}
use mathlib.Core.Option.{get_or}
use teamos_backend.Directory.{is_active, Department, UserProfile, find_member}
use teamos_backend.Outbox.{
  Effect, emit, notify, publish, severity, task_assigned, TaskEvent, not_started, medium,
}
use teamos_backend.Task.Model.{
  Task, SubTask, SubTaskDraft, TaskDb, TaskMessage, task_created, Answer, CreateTaskDto, Fault,
  assignee_not_member, department_not_valid, dependency_missing,
}
use teamos_backend.Task.Lookup.{find_task}

-- `staff: { some: { userId, status: "active" } }`: the profiles of the department.
abbrev has_active_staff : List UserProfile → Key → Key → Bool
has_active_staff profiles department user =
    any_by
      (λ p. same_key p.department_id (some department) && p.user_id == user && is_active p.status)
      profiles

-- Prisma leaves a filter out whose value is undefined.
abbrev pub matches : Option Key → Key → Bool
matches none k = true
matches (some a) k = k == a

unfoldable pub find_staffed_department : TaskDb → Key → CreateTaskDto → Option Department
find_staffed_department db org dto =
    find_by
      (λ d.
        matches dto.department_id d.id
        && d.organization_id == org
        && has_active_staff db.profiles d.id dto.assigned_to_id)
      db.departments

abbrev pub check_dependency : TaskDb → Key → Option Key → Result Fault (Unit {0})
check_dependency db org none = ok tt
check_dependency db org (some dependency) =
    throw_if (not (is_some (find_task db.tasks org dependency))) bad_request dependency_missing

unfoldable pub check_create : TaskDb → Key → CreateTaskDto → Result Fault (Unit {0})
unfolding find_staffed_department
check_create db org dto = do
  throw_if (not (is_some (find_member db.members org dto.assigned_to_id))) bad_request
      assignee_not_member
  throw_if (not (is_some (find_staffed_department db org dto))) bad_request department_not_valid
  check_dependency db org (truthy dto.depends_on_task_id)

-- The row that `tx.task.create` inserts, with the defaults of the schema.
unfoldable pub new_task : Key → Key → Key → CreateTaskDto → Task
new_task new_id org assigned_by dto = record {
  id = new_id;
  organization_id = org;
  title = dto.title;
  description = dto.description;
  status = not_started;
  priority = get_or dto.priority medium;
  deadline = some dto.deadline;
  completed_at = none;
  assigned_to_id = dto.assigned_to_id;
  assigned_by_id = assigned_by;
  department_id = dto.department_id;
  depends_on_task_id = dto.depends_on_task_id;
  estimated_hours = dto.estimated_hours;
  tags = get_or dto.tags [];
}

-- `dto.subTasks.map((sub, i) => ({ taskId, title: sub.title, order: sub.order ?? i }))`
unfoldable pub new_sub_tasks : (ℕ → Key) → Key → ℕ → List SubTaskDraft → List SubTask
new_sub_tasks ids task_id i [] = []
new_sub_tasks ids task_id i (sub ∷ subs) =
    record {
      id = ids i;
      task_id = task_id;
      title = sub.title;
      is_completed = false;
      order = get_or sub.order i;
    }
    ∷ new_sub_tasks ids task_id (suc i) subs

assignment_notice : Key → Task → Effect TaskMessage
assignment_notice org task = notify (record {
  org_id = org;
  user_id = task.assigned_to_id;
  kind = task_assigned;
  level = severity task_assigned;
  related_id = some task.id;
})

-- `newId` and `ids` are the identifiers that the database makes up.
unfoldable pub create : Key → (ℕ → Key) → Key → Key → CreateTaskDto → TaskDb → Answer Task
unfolding new_task assignment_notice
create new_id ids org assigned_by dto db = do
  check_create db org dto
  let task = new_task new_id org assigned_by dto
  ok (
    task,
    record db {
      tasks = db.tasks ++ task ∷ [];
      sub_tasks = db.sub_tasks ++ new_sub_tasks ids new_id 0 dto.sub_tasks;
      outbox =
          db.outbox
          ++ emit org (task_created task)
            ∷ assignment_notice org task
            ∷ publish (TaskEvent.created org task.assigned_to_id)
            ∷ [];
    },
  )
