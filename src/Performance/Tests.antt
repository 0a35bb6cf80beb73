-- ===== src/Performance/Tests.antt =====
-- Runs of the performance service on a small store, and its theorems at that store.
use teamos_backend.Prelude.{
  ℕ, ◌⊎◌, some, List, map, ◌==◌, ◌&&◌, ◌+◌, ◌*◌, ◌≡◌, refl, none, some, [], ◌∷◌, Key, arith,
  count_by, store_after, inl, ok,
}
use teamos_backend.Amounts.{whole, whole-IsOrdered}
use teamos_backend.Roles.{member}
use teamos_backend.Directory.{UserStatus}
use teamos_backend.Outbox.{TaskStatus, completed, completed_late, overdue, medium, in_progress}
use teamos_backend.Task.{Task, TaskDb}
use teamos_backend.Performance.Model.{Performance, PerformanceSnapshot, average, blank}
use teamos_backend.Performance.Store.{PerformanceDb}
use teamos_backend.Performance.Scoring.{is_assigned, counts_for, rating_of}
use teamos_backend.Performance.Counting.{count_assigned, counts_for_exact}
use teamos_backend.Performance.Jobs.{recalculation, drain, deliver}
use teamos_backend.Performance.Rated.{AreRated, drain-AreRated}
use teamos_backend.Task.Progress.{
  update_status, check_status, final_status, dependency_of, set_status,
}
use teamos_backend.Performance.Following.{with_tasks, update_status-IsCurrent}
use teamos_backend.Performance.Current.{IsCurrent, drain-IsCurrent}
use teamos_backend.Performance.Views.{get_org_stats, same_rating}
use teamos_backend.Performance.Ranking.{AreTop, counted, get_org_stats_exact}
use teamos_backend.Performance.Snapshots.{capture_snapshot, daily_snapshot}
use teamos_backend.Performance.Repeats.{AreDistinct, capture_snapshot_twice}
use teamos_backend.Performance.Daily.{today, made_today, daily_snapshot_exact}

abbrev task : Key → TaskStatus → Key → Task
task k status user = record {
  id = k;
  organization_id = 1;
  title = "Report";
  description = none;
  status = status;
  priority = medium;
  deadline = none;
  completed_at = none;
  assigned_to_id = user;
  assigned_by_id = 12;
  department_id = none;
  depends_on_task_id = none;
  estimated_hours = none;
  tags = [];
}

-- A member 13 under the supervisor 12, with two tasks; one job that names the member.
abbrev db : PerformanceDb ℕ
db = record {
  profiles =
      record {
        user_id = 13;
        organization_id = 1;
        department_id = some 31;
        supervisor_id = some 12;
        status = UserStatus.active;
      }
      ∷ [];
  tasks = task 61 completed 13 ∷ task 62 overdue 13 ∷ [];
  performances = blank whole 81 1 12 ∷ [];
  snapshots = [];
  queue = recalculation 1 (13 ∷ []) ∷ [];
  outbox = [];
}

abbrev ids : Key → Key → Key
ids org user = 100 * org + user

counts_for_exact_example :
    let c = counts_for db.tasks 1 13 in
    (c.total_assigned ≡ count_by (is_assigned 1 13) db.tasks)
    × (c.on_time ≡ count_assigned db.tasks 1 13 completed)
    × (c.late ≡ count_assigned db.tasks 1 13 completed_late)
    × (c.still_overdue ≡ count_assigned db.tasks 1 13 overdue)
counts_for_exact_example = counts_for_exact db.tasks 1 13

-- The defaults of a new row are in order.
db-AreRated : AreRated whole db.performances
db-AreRated = (
  record {
    least = refl;
    most = refl;
    rated = unfold rating_of in refl;
    completed = refl;
    parts = omega arith;
  },
  tt,
)

drain-AreRated_example : AreRated whole (drain whole 5 ids db).performances
drain-AreRated_example = drain-AreRated whole whole-IsOrdered 5 ids db db-AreRated

drain-IsCurrent_example : IsCurrent whole db.tasks (drain whole 5 ids db).performances 1 13
drain-IsCurrent_example = drain-IsCurrent whole 5 ids 1 13 db refl

abbrev scored : Key → Key → ℕ → Performance ℕ
scored k org score = record (blank whole k org k) { performance_score = score }

-- Seven rows, of which six are the organization's.
abbrev many : PerformanceDb ℕ
many = record db {
  performances =
      scored 81 1 50
      ∷ scored 82 1 90
      ∷ scored 83 2 99
      ∷ scored 84 1 20
      ∷ scored 85 1 70
      ∷ scored 86 1 60
      ∷ scored 87 1 80
      ∷ [];
}

best_five :
    map (λ p. p.performance_score) (get_org_stats whole 1 many).top_performers
    ≡ 90 ∷ 80 ∷ 70 ∷ 60 ∷ 50 ∷ []
unfolding get_org_stats
best_five = refl

get_org_stats_exact_example :
    let s = get_org_stats whole 1 many in
    ((rest : List (Performance ℕ)) × AreTop whole 1 many.performances s.top_performers rest)
    × (counted s.distribution average
        ≡ count_by (λ p. p.organization_id == 1 && same_rating p.rating average) many.performances)
get_org_stats_exact_example = get_org_stats_exact whole whole-IsOrdered 1 average many

capture_snapshot_twice_example :
    capture_snapshot 7 92 1 12 (capture_snapshot 3 91 1 12 db).1 ≡ capture_snapshot 3 91 1 12 db
capture_snapshot_twice_example = capture_snapshot_twice 3 7 91 92 1 12 db refl

-- The task service's store: the member 13 and a task of theirs in progress.
abbrev tasks : TaskDb
tasks = record {
  members = record { id = 3; organization_id = 1; user_id = 13; role = member } ∷ [];
  profiles = [];
  departments = [];
  tasks = task 61 in_progress 13 ∷ task 62 overdue 13 ∷ [];
  sub_tasks = [];
  comments = [];
  attachments = [];
  outbox = [];
}

abbrev after : TaskDb
unfolding update_status
after = store_after tasks (update_status 5 1 61 completed 13 tasks)

abbrev finished : Task
finished = record (task 61 completed 13) { completed_at = some 5 }

set_completed : update_status 5 1 61 completed 13 tasks ≡ ok (finished, after)
unfolding update_status check_status final_status set_status dependency_of
set_completed = refl

update_status-IsCurrent_example :
    IsCurrent whole after.tasks
      (drain whole 5 ids (deliver after.outbox (with_tasks after.tasks db))).performances
      1
      13
update_status-IsCurrent_example =
    update_status-IsCurrent whole 5 ids 5 1 61 completed 13 tasks after finished db 1 13
      ((λ h. absurd (ground arith), tt), (tt, tt)) set_completed (inl (refl, refl))

daily_snapshot_exact_example :
    let after = (daily_snapshot 3 ids (1 ∷ []) 0 db).1 in
    AreDistinct after.snapshots
    × ((s : PerformanceSnapshot ℕ) × (today 3 1 12 after ≡ some s)
        × ((today 3 1 12 db ≡ some s)
            ⊎ ((today 3 1 12 db ≡ none) × (s ≡ made_today 3 1 12 ids (blank whole 81 1 12)))))
daily_snapshot_exact_example =
    daily_snapshot_exact 3 1 12 ids (1 ∷ []) 0 db (blank whole 81 1 12) tt refl refl
