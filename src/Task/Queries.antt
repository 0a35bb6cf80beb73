-- ===== src/Task/Queries.antt =====
-- `TaskService.findAll`, `findOne` and `getStats`. What the answers include of other tables
-- (users, departments, subtasks) is not modelled.
use teamos_backend.Prelude.{
  ℕ, ltb, ◌+◌, Bool, true, false, Option, none, some, List, Key, truthy, same_key, filter_by,
  count_by, contains, Result, ok, not_found, or_throw, ◌>>=◌, ◌==◌, ◌&&◌, if◌then◌else◌,
}
use teamos_backend.Amounts.{Amounts}
use teamos_backend.Roles.{Role, member, supervisor, admin, owner}
use teamos_backend.Directory.{team_of, UserProfile, find_member}
use teamos_backend.Outbox.{
  TaskStatus, same_priority, not_started, in_progress, completed, overdue, completed_late, Priority,
}
use teamos_backend.Task.Model.{Task, TaskDb, Fault, caller_not_member}
use teamos_backend.Task.Lookup.{get_task_or_throw}

-- `a === b` on statuses.
abbrev pub same_status : TaskStatus → TaskStatus → Bool
same_status not_started not_started = true
same_status in_progress in_progress = true
same_status completed completed = true
same_status overdue overdue = true
same_status completed_late completed_late = true
same_status _ _ = false

pub record TaskFilters : Type 0 where
  pub status : Option TaskStatus
  pub priority : Option Priority
  pub department_id : Option Key
  pub assigned_to_id : Option Key

abbrev equals : Option Key → Key → Bool
equals none k = true
equals (some a) k = k == a

-- `where.assignedToId`. For an owner the filter counts if it is truthy, for an admin as it is:
-- `filters?.assignedToId && member?.role === 'owner' || member?.role === 'admin'`.
unfoldable pub in_scope : List UserProfile → Key → Key → Role → Option Key → Task → Bool
in_scope profiles org user member filter task = task.assigned_to_id == user
in_scope profiles org user supervisor filter task =
    contains (team_of profiles org user) task.assigned_to_id
in_scope profiles org user admin filter task = equals filter task.assigned_to_id
in_scope profiles org user owner filter task = equals (truthy filter) task.assigned_to_id

unfoldable pub passes : TaskFilters → Task → Bool
passes filters task =
    (elim filters.status [ none ↦ true | some s ↦ same_status task.status s ])
    && (elim filters.priority [ none ↦ true | some p ↦ same_priority task.priority p ])
    && (elim (truthy filters.department_id) [
      | none ↦ true
      | some d ↦ same_key task.department_id (some d)
    ])

unfoldable pub find_all : Key → Key → TaskFilters → TaskDb → Result Fault (List Task)
unfolding in_scope passes
find_all org user filters db = do
  caller ← or_throw (find_member db.members org user) not_found caller_not_member
  ok (
      filter_by
        (λ t.
          t.organization_id == org
          && (in_scope db.profiles org user caller.role filters.assigned_to_id t
              && passes filters t))
        db.tasks)

unfoldable pub find_one : Key → Key → TaskDb → Result Fault Task
find_one org task_id db = get_task_or_throw db org task_id

pub record TaskStats (V : Type 0) : Type 0 where
  pub total : ℕ
  pub not_started : ℕ
  pub in_progress : ℕ
  pub completed : ℕ
  pub overdue : ℕ
  pub completed_late : ℕ
  pub completion_rate : V

unfoldable pub count_status : Key → TaskStatus → List Task → ℕ
count_status org status = count_by (λ t. t.organization_id == org && same_status t.status status)

-- `Math.round(((completed + completedLate) / total) * 100)`
unfoldable pub completion_rate_of : {V : Type 0} → Amounts V → ℕ → ℕ → V
completion_rate_of num done total =
    if ltb 0 total
    then num.round
        (num.times (num.over (num.from_count done) (num.from_count total)) (num.from_count 100))
    else num.nil

unfoldable pub get_stats : {V : Type 0} → Amounts V → Key → TaskDb → TaskStats V
unfolding completion_rate_of
get_stats num org db =
    let all = count_by (λ t. t.organization_id == org) db.tasks in
    let done = count_status org completed db.tasks in
    let late = count_status org completed_late db.tasks in
    record {
      total = all;
      not_started = count_status org not_started db.tasks;
      in_progress = count_status org in_progress db.tasks;
      completed = done;
      overdue = count_status org overdue db.tasks;
      completed_late = late;
      completion_rate = completion_rate_of num (done + late) all;
    }
