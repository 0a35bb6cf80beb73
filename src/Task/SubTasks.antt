-- ===== src/Task/SubTasks.antt =====
-- `TaskService.addSubTask`, `updateSubTask`, `reorderSubTasks` and `removeSubTask`
use Prim.Native.String.{String}
use text.Mathlib.Text.{◌==◌ as text_eq}
use mathlib.Core.Option.{get_or}
use teamos_backend.Prelude.{
  ℕ, suc, ◌+◌, Bool, true, false, Option, none, some, List, [], ◌∷◌, ◌++◌, Key, is_some, find_by,
  any_by, sort_by, internal_error, filter_by, update_by, delete_by, Result, ok, bad_request,
  forbidden, not_found, or_throw, throw_if, ◌>>=◌, ◌>>◌, ◌==◌, ◌&&◌, not, leb, if◌then◌else◌,
}
use teamos_backend.Roles.{Role, member}
use teamos_backend.Outbox.{TaskStatus, not_started, in_progress, emit}
use teamos_backend.Task.Model.{
  Task, SubTask, TaskDb, sub_task_added, sub_task_updated_pending, sub_task_updated, Answer, Fault,
  task_completed, sub_task_missing, same_title, member_cannot_edit, may_not_delete,
  record_to_update_missing,
}
use teamos_backend.Task.Lookup.{get_task_or_throw, is_completed_status, may_delete_of}

-- `_max: { order: true }` over the rows, `?? 0`.
abbrev pub max_order : List SubTask → ℕ
max_order [] = 0
max_order (s ∷ subs) = let m = max_order subs in if leb s.order m then m else s.order

abbrev pub sub_tasks_of : TaskDb → Key → List SubTask
sub_tasks_of db task_id = filter_by (λ s. s.task_id == task_id) db.sub_tasks

-- `if (task.status === 'NOT_STARTED')` the task is put in progress.
abbrev started : TaskStatus → TaskStatus
started not_started = in_progress
started status = status

unfoldable pub start : Task → Task
start task = record task { status = started task.status }

unfoldable pub open_task : Key → Key → TaskDb → Result Fault Task
open_task org task_id db = do
  task ← get_task_or_throw db org task_id
  throw_if (is_completed_status task.status) bad_request task_completed
  ok task

unfoldable pub add_sub_task : Key → Key → Key → String → TaskDb → Answer SubTask
unfolding open_task start
add_sub_task new_id org task_id title db = do
  task ← open_task org task_id db
  let sub_task : SubTask = record {
    id = new_id;
    task_id = task_id;
    title = title;
    is_completed = false;
    order = max_order (sub_tasks_of db task_id) + 1;
  }
  ok (
    sub_task,
    record db {
      tasks = update_by (λ t. t.id == task_id) start db.tasks;
      sub_tasks = db.sub_tasks ++ sub_task ∷ [];
      outbox = db.outbox ++ emit org (sub_task_added sub_task) ∷ [];
    },
  )

pub record UpdateSubTaskDto : Type 0 where
  pub title : Option String
  pub is_completed : Option Bool

abbrev find_sub_task : TaskDb → Key → Key → Option SubTask
find_sub_task db task_id id = find_by (λ s. s.id == id && s.task_id == task_id) db.sub_tasks

abbrev is_title : Option String → String → Bool
is_title none old = false
is_title (some t) old = text_eq old t

abbrev is_member_role : Option Role → Bool
is_member_role (some member) = true
is_member_role _ = false

abbrev patch_sub_task : UpdateSubTaskDto → SubTask → SubTask
patch_sub_task dto s = record s {
  title = get_or dto.title s.title;
  is_completed = get_or dto.is_completed s.is_completed;
}

unfoldable pub update_sub_task :
    Key → Key → Key → UpdateSubTaskDto → Option Role → TaskDb → Answer SubTask
unfolding open_task
update_sub_task org task_id id dto role db = do
  open_task org task_id db
  sub_task ← or_throw (find_sub_task db task_id id) not_found sub_task_missing
  throw_if (is_title dto.title sub_task.title) bad_request same_title
  throw_if (is_some dto.title && is_member_role role) forbidden member_cannot_edit
  ok (
    patch_sub_task dto sub_task,
    record db {
      sub_tasks = update_by (λ s. s.id == id) (patch_sub_task dto) db.sub_tasks;
      outbox = db.outbox ++ emit org sub_task_updated_pending ∷ [];
    },
  )

-- `dto.orderedIds.map((id, index) => this.prisma.subTask.update({ where: { id }, … }))`, from
-- `index` on.
unfoldable pub set_orders : ℕ → List Key → List SubTask → List SubTask
set_orders index [] subs = subs
set_orders index (id ∷ ids) subs =
    set_orders (suc index) ids (update_by (λ s. s.id == id) (λ s. record s { order = index }) subs)

-- An update of a missing row fails, and the transaction with it.
abbrev pub all_present : List SubTask → List Key → Bool
all_present subs [] = true
all_present subs (id ∷ ids) = any_by (λ s. s.id == id) subs && all_present subs ids

unfoldable pub reorder_sub_tasks : Key → Key → List Key → TaskDb → Answer (List SubTask)
unfolding set_orders
reorder_sub_tasks org task_id ordered_ids db = do
  get_task_or_throw db org task_id
  throw_if (not (all_present db.sub_tasks ordered_ids)) internal_error record_to_update_missing
  let subs = set_orders 0 ordered_ids db.sub_tasks
  ok (
    sort_by (λ s. s.order) (filter_by (λ s. s.task_id == task_id) subs),
    record db { sub_tasks = subs },
  )

unfoldable pub remove_sub_task : Key → Key → Key → Option Role → Key → TaskDb → Answer (Unit {0})
unfolding open_task
remove_sub_task org task_id id role user db = do
  task ← open_task org task_id db
  or_throw (find_sub_task db task_id id) not_found sub_task_missing
  throw_if (not (may_delete_of db org task.assigned_by_id user role)) forbidden may_not_delete
  ok (
    tt,
    record db {
      sub_tasks = delete_by (λ s. s.id == id) db.sub_tasks;
      outbox = db.outbox ++ emit org (sub_task_updated id) ∷ [];
    },
  )
