-- ===== src/Task/Tests.antt =====
-- Runs of the task service on a small store, and its theorems at that store.
use teamos_backend.Prelude.{
  ℕ, ◌<◌, ◌≤◌, ◌≡◌, ◌≢◌, refl, inl, inr, true, false, Option, none, some, List, [], ◌∷◌, map, Key,
  arith, length, ok, err, bad_request, All, ◌↔◌,
}
use teamos_backend.Amounts.{whole}
use teamos_backend.Roles.{member, supervisor, admin, owner}
use teamos_backend.Directory.{Member, UserProfile, Department, active, find_member, team_of}
use teamos_backend.Outbox.{
  TaskStatus, not_started, completed, overdue, completed_late, high, medium,
}
use teamos_backend.Task.Model.{
  Task, SubTask, TaskDb, CreateTaskDto, UpdateTaskDto, circular_dependency,
}
use teamos_backend.Task.Dependencies.{parent_of, walk, check_chain}
use teamos_backend.Task.Soundness.{IsSound}
use teamos_backend.Task.Update.{update, check_update, check_new_dependency}
use teamos_backend.Task.Service.{handle, updates_status}
use teamos_backend.Task.Chains.{check_chain_exact}
use teamos_backend.Task.Lookup.{is_completed_status}
use teamos_backend.Task.Progress.{update_status, dependency_of}
use teamos_backend.Task.Completion.{update_status_rules}
use teamos_backend.Task.Queries.{TaskFilters, find_all, get_stats}
use teamos_backend.Task.Visibility.{MaySee, find_all-MaySee}
use teamos_backend.Task.SubTasks.{reorder_sub_tasks}
use teamos_backend.Task.Ordering.{placed, position, reorder_sub_tasks-placed}
use teamos_backend.Task.Stats.{by_status, get_stats-find_all}
use teamos_backend.Task.Reaching.{Reaches, here, next}

-- Organization 1: an admin 11, a supervisor 12 and a member 13. Organization 2: an owner 21.
abbrev members : List Member
members =
    record { id = 1; organization_id = 1; user_id = 11; role = admin }
    ∷ record { id = 2; organization_id = 1; user_id = 12; role = supervisor }
    ∷ record { id = 3; organization_id = 1; user_id = 13; role = member }
    ∷ record { id = 4; organization_id = 2; user_id = 21; role = owner }
    ∷ []

abbrev profiles : List UserProfile
profiles =
    record {
      user_id = 13;
      organization_id = 1;
      department_id = some 31;
      supervisor_id = some 12;
      status = active;
    }
    ∷ []

abbrev departments : List Department
departments =
    record { id = 31; organization_id = 1; name = "Ops"; description = none; head_id = none } ∷ []

abbrev task : Key → Key → TaskStatus → Option ℕ → Key → Option Key → Task
task id org status completed_at user dependency = record {
  id = id;
  organization_id = org;
  title = "t";
  description = none;
  status = status;
  priority = medium;
  deadline = none;
  completed_at = completed_at;
  assigned_to_id = user;
  assigned_by_id = 11;
  department_id = none;
  depends_on_task_id = dependency;
  estimated_hours = none;
  tags = [];
}

-- 42 depends on 41, and 43 on 42; 44 was completed late; 51 belongs to the other organization.
abbrev tasks : List Task
tasks =
    task 41 1 completed (some 5) 13 none
    ∷ task 42 1 overdue none 13 (some 41)
    ∷ task 43 1 not_started none 12 (some 42)
    ∷ task 44 1 completed_late (some 6) 13 none
    ∷ task 51 2 not_started none 21 none
    ∷ []

abbrev sub_task : Key → Key → ℕ → SubTask
sub_task id task_id order = record {
  id = id;
  task_id = task_id;
  title = "s";
  is_completed = false;
  order = order;
}

abbrev db : TaskDb
db = record {
  members = members;
  profiles = profiles;
  departments = departments;
  tasks = tasks;
  sub_tasks = sub_task 61 41 0 ∷ sub_task 62 41 1 ∷ sub_task 71 51 0 ∷ [];
  comments = [];
  attachments = [];
  outbox = [];
}

abbrev nothing : UpdateTaskDto
nothing = record {
  title = none;
  description = none;
  priority = none;
  deadline = none;
  assigned_to_id = none;
  department_id = none;
  depends_on_task_id = none;
  estimated_hours = none;
  tags = none;
}

abbrev depends_on : Key → UpdateTaskDto
depends_on k = record nothing { depends_on_task_id = some (some k) }

-- In this store a task depends on one with a smaller number.
falls : (a b : Key) → parent_of tasks a ≡ some b → b < a
unfolding parent_of
falls a b h = ground arith

Reaches-le : {a b : Key} → Reaches tasks a b → b ≤ a
Reaches-le here = omega arith
Reaches-le (next {a = a} {b = b} e r) = omega (arith, falls a b e, Reaches-le r)

db-IsSound : IsSound db.tasks
db-IsSound = record {
  keys = omega arith;
  ids = omega arith;
  acyclic = λ a b e r. absurd (omega (arith, falls a b e, Reaches-le r));
}

-- 41 may not depend on 43, which depends on it.
circular_refused : update 1 41 (depends_on 43) none none db ≡ err bad_request circular_dependency
unfolding update check_update check_new_dependency check_chain walk parent_of
circular_refused = refl

abbrev new_task_dto : CreateTaskDto
new_task_dto = record {
  title = "n";
  description = none;
  priority = some high;
  deadline = 9;
  assigned_to_id = 13;
  department_id = none;
  depends_on_task_id = some 43;
  estimated_hours = none;
  tags = none;
  sub_tasks = [];
}

check_chain_exact_example :
    ((check_chain db.tasks 41 43 ≡ ok tt) ↔ (¬ Reaches db.tasks 43 41))
    × ((check_chain db.tasks 41 43 ≡ err bad_request circular_dependency) ↔ Reaches db.tasks 43 41)
check_chain_exact_example = check_chain_exact db.tasks 41 43 db-IsSound.ids (omega arith)

-- The member 13 completes the overdue task 42.
abbrev late_task : Task
late_task = task 42 1 completed_late (some 7) 13 (some 41)

abbrev completes : Key → TaskDb
completes k = handle (updates_status 7 1 k completed 13) db

completes_late : update_status 7 1 42 completed 13 db ≡ ok (late_task, completes 42)
unfolding handle update_status dependency_of
completes_late = refl

update_status_rules_example :
    ((m : Member) × (find_member db.members 1 13 ≡ some m)
      × (m.role ≡ member → (task 42 1 overdue none 13 (some 41)).assigned_to_id ≡ 13))
    × ((task 42 1 overdue none 13 (some 41)).status ≡ overdue → late_task.status ≡ completed_late)
    × (late_task.status ≢ not_started
        → (d : Task) → dependency_of db (task 42 1 overdue none 13 (some 41)) ≡ some d
        → is_completed_status d.status ≡ true)
update_status_rules_example =
    update_status_rules 7 1 42 completed 13 db (task 42 1 overdue none 13 (some 41)) late_task
      (completes 42) (inr (inr refl)) refl completes_late

abbrev no_filters : TaskFilters
no_filters = record { status = none; priority = none; department_id = none; assigned_to_id = none }

abbrev supervisor_row : Member
supervisor_row = record { id = 2; organization_id = 1; user_id = 12; role = supervisor }

team_tasks :
    find_all 1 12 no_filters db
    ≡ ok (
        task 41 1 completed (some 5) 13 none
        ∷ task 42 1 overdue none 13 (some 41)
        ∷ task 43 1 not_started none 12 (some 42)
        ∷ task 44 1 completed_late (some 6) 13 none
        ∷ [])
unfolding find_all team_of
team_tasks = refl

find_all-MaySee_example : All (MaySee db 1 12 supervisor_row) (
    task 41 1 completed (some 5) 13 none
    ∷ task 42 1 overdue none 13 (some 41)
    ∷ task 43 1 not_started none 12 (some 42)
    ∷ task 44 1 completed_late (some 6) 13 none
    ∷ [])
find_all-MaySee_example = find_all-MaySee 1 12 no_filters db supervisor_row refl team_tasks

-- A supervisor of organization 1 reorders the subtasks of task 41 and names 71, which is one of
-- organization 2.
abbrev reordered : TaskDb
reordered = record db { sub_tasks = sub_task 61 41 0 ∷ sub_task 62 41 1 ∷ sub_task 71 51 2 ∷ [] }

reorders_foreign :
    reorder_sub_tasks 1 41 (61 ∷ 62 ∷ 71 ∷ []) db
    ≡ ok (sub_task 61 41 0 ∷ sub_task 62 41 1 ∷ [], reordered)
unfolding reorder_sub_tasks
reorders_foreign = refl

reorder_sub_tasks-placed_example : reordered ≡ record db {
  sub_tasks = map (λ s. placed (position 0 (61 ∷ 62 ∷ 71 ∷ []) s.id) s) db.sub_tasks;
}
reorder_sub_tasks-placed_example =
    reorder_sub_tasks-placed 1 41 (61 ∷ 62 ∷ 71 ∷ []) db reordered reorders_foreign

get_stats-find_all_example :
    (ts : List Task) × (find_all 1 11 (by_status (some completed_late)) db ≡ ok ts)
    × (length ts ≡ (get_stats whole 1 db).completed_late)
get_stats-find_all_example =
    get_stats-find_all whole 1 11 (some completed_late) db
      (record { id = 1; organization_id = 1; user_id = 11; role = admin }) refl (inl refl)
