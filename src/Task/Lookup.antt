-- ===== src/Task/Lookup.antt =====
-- The look-ups that several methods of `TaskService` share.
use teamos_backend.Prelude.{
  Bool, Option, none, some, List, Key, Result, not_found, or_throw, find_by, ◌==◌, ◌&&◌, ◌||◌, true,
  false,
}
use teamos_backend.Roles.{Role, outranks, member}
use teamos_backend.Directory.{Member, find_member}
use teamos_backend.Outbox.{TaskStatus, completed, completed_late}
use teamos_backend.Task.Model.{Task, TaskDb, Fault, task_missing}

-- `prisma.task.findFirst({ where: { id: taskId, organizationId: orgId } })`
abbrev pub find_task : List Task → Key → Key → Option Task
find_task tasks org task_id = find_by (λ t. t.id == task_id && t.organization_id == org) tasks

-- `getTaskOrThrow`
abbrev pub get_task_or_throw : TaskDb → Key → Key → Result Fault Task
get_task_or_throw db org task_id = or_throw (find_task db.tasks org task_id) not_found task_missing

abbrev pub is_completed_status : TaskStatus → Bool
is_completed_status completed = true
is_completed_status completed_late = true
is_completed_status _ = false

-- The role of a user in the organization, `membership?.role ?? 'member'`.
abbrev pub role_or_member : Option Member → Role
role_or_member none = member
role_or_member (some m) = m.role

-- What a caller may delete: what they own, or what somebody below their rank owns.
abbrev pub may_delete_of : TaskDb → Key → Key → Key → Option Role → Bool
may_delete_of db org author user role =
    author == user || outranks role (some (role_or_member (find_member db.members org author)))
