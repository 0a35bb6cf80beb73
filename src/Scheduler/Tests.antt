-- ===== src/Scheduler/Tests.antt =====
-- A run of the overdue detection, and its theorem at a small table.
use teamos_backend.Prelude.{
  ℕ, ◌≡◌, ◌↔◌, true, refl, Option, none, some, List, [], ◌∷◌, Key, arith, map,
}
use teamos_backend.Rows.{AreRelated, Any}
use teamos_backend.Performance.Current.{is_named}
use teamos_backend.Outbox.{TaskStatus, not_started, in_progress, completed, overdue, medium}
use teamos_backend.Task.{Task}
use teamos_backend.Scheduler.Overdue.{detect_overdue}
use teamos_backend.Scheduler.Detection.{IsMissed, IsMarked, detect_overdue_exact}

abbrev task : Key → TaskStatus → Option ℕ → Task
task id status completed_at = record {
  id = id;
  organization_id = 1;
  title = "t";
  description = none;
  status = status;
  priority = medium;
  deadline = some 5;
  completed_at = completed_at;
  assigned_to_id = 13;
  assigned_by_id = 11;
  department_id = none;
  depends_on_task_id = none;
  estimated_hours = none;
  tags = [];
}

abbrev tasks : List Task
tasks = task 41 not_started none ∷ task 42 completed (some 4) ∷ task 43 in_progress none ∷ []

-- Two tasks are marked, and one job is queued for their user.
after_detection :
    (map (λ t. t.status) (detect_overdue 6 tasks).0 ≡ overdue ∷ completed ∷ overdue ∷ [])
    × (map (λ j. j.user_ids) (detect_overdue 6 tasks).1 ≡ (13 ∷ []) ∷ [])
unfolding detect_overdue
after_detection = (refl, refl)

detect_overdue_exact_example :
    AreRelated (IsMarked 6) tasks (detect_overdue 6 tasks).0
    × ((is_named (detect_overdue 6 tasks).1 1 13 ≡ true)
        ↔ Any (λ t. IsMissed 6 t × (t.organization_id ≡ 1) × (t.assigned_to_id ≡ 13)) tasks)
detect_overdue_exact_example = detect_overdue_exact 6 tasks 1 13 (omega arith)
