-- ===== src/Scheduler/Overdue.antt =====
-- `PerformanceCronTask.handleOverdueDetection`
use teamos_backend.Prelude.{
  ℕ, Bool, true, false, Option, none, some, List, [], ◌∷◌, ◌++◌, Key, contains, filter_by,
  update_by, map, ◌==◌, ◌&&◌, ltb, if◌then◌else◌,
}
use teamos_backend.Outbox.{TaskStatus, not_started, in_progress, overdue}
use teamos_backend.Task.{Task}
use teamos_backend.Performance.{Recalculation}

-- `status: { notIn: ['COMPLETED', 'OVERDUE', 'COMPLETED_LATE'] }`
abbrev pub is_pending : TaskStatus → Bool
is_pending not_started = true
is_pending in_progress = true
is_pending _ = false

-- `deadline: { lt: now }`, which a missing deadline does not meet.
abbrev pub is_before : Option ℕ → ℕ → Bool
is_before none now = false
is_before (some deadline) now = ltb deadline now

abbrev pub is_missed : ℕ → Task → Bool
is_missed now t = is_before t.deadline now && is_pending t.status

abbrev pub mark_overdue : Task → Task
mark_overdue t = record t { status = overdue }

-- `Set.add`
abbrev pub add_user : Key → List Key → List Key
add_user user users = if contains users user then users else users ++ user ∷ []

-- `orgUserMap`: its entries in the order in which they were made.
unfoldable pub add_to_job : Key → Key → List Recalculation → List Recalculation
add_to_job org user [] = record { org_id = org; user_ids = user ∷ [] } ∷ []
add_to_job org user (job ∷ jobs) =
    let rest = add_to_job org user jobs in
    if job.org_id == org
    then record job { user_ids = add_user user job.user_ids } ∷ jobs
    else job ∷ rest

unfoldable pub jobs_for : List Recalculation → List Task → List Recalculation
unfolding add_to_job
jobs_for jobs [] = jobs
jobs_for jobs (t ∷ ts) = jobs_for (add_to_job t.organization_id t.assigned_to_id jobs) ts

-- The tasks afterwards, and the jobs that are queued. Without a missed task both are unchanged.
unfoldable pub detect_overdue : ℕ → List Task → List Task × List Recalculation
unfolding jobs_for
detect_overdue now tasks =
    let missed = filter_by (is_missed now) tasks in
    (update_by (λ t. contains (map (λ m. m.id) missed) t.id) mark_overdue tasks, jobs_for [] missed)
