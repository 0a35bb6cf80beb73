-- ===== src/Task/TaskWrites.antt =====
-- What each request leaves in the task table.
use Prim.Native.String.{String}
use teamos_backend.Prelude.{
  ℕ, ◌⊎◌, is_some, ◌≡◌, refl, inl, inr, Option, some, List, [], ◌∷◌, ◌++◌, Key, arith, ◌==◌, ok,
  Result-cases, update_by, delete_by, truthy,
}
use teamos_backend.Roles.{Role}
use teamos_backend.Outbox.{TaskStatus, not_started, in_progress, completed}
use teamos_backend.Task.Model.{Task, TaskDb, CreateTaskDto, UpdateTaskDto}
use teamos_backend.Task.Lookup.{find_task, is_completed_status}
use teamos_backend.Task.Create.{check_create, check_dependency, new_task, create}
use teamos_backend.Task.Update.{check_update, patch, update, check_new_dependency}
use teamos_backend.Task.Progress.{
  check_status, set_status, final_status, final_completed_at, update_status,
}
use teamos_backend.Task.Remove.{check_remove, remove}
use teamos_backend.Task.SubTasks.{
  open_task, start, add_sub_task, update_sub_task, reorder_sub_tasks, remove_sub_task,
}
use teamos_backend.Task.Comments.{
  add_comment, update_comment, remove_comment, add_attachment, remove_attachment,
}
use teamos_backend.Task.Service.{
  Request, handle, creates, updates, updates_status, removes, adds_sub_task, updates_sub_task,
  reorders, removes_sub_task, adds_comment, updates_comment, removes_comment, adds_attachment,
  removes_attachment,
}
use teamos_backend.Task.Soundness.{new_dependency}

-- The organization that a request is made for.
abbrev pub org_of : Request → Key
org_of (creates _ _ org _ _) = org
org_of (updates org _ _ _ _) = org
org_of (updates_status _ org _ _ _) = org
org_of (removes org _ _ _) = org
org_of (adds_sub_task _ org _ _) = org
org_of (updates_sub_task org _ _ _ _) = org
org_of (reorders org _ _) = org
org_of (removes_sub_task org _ _ _ _) = org
org_of (adds_comment _ org _ _ _ _) = org
org_of (updates_comment org _ _ _ _) = org
org_of (removes_comment org _ _ _ _) = org
org_of (adds_attachment _ org _ _ _) = org
org_of (removes_attachment org _ _ _ _) = org

-- A write that leaves the identifier, the organization and the dependency of a row alone.
abbrev pub KeepsRow : (Task → Task) → Type 0
KeepsRow f =
    (t : Task)
    → ((f t).id ≡ t.id)
      × ((f t).depends_on_task_id ≡ t.depends_on_task_id)
      × ((f t).organization_id ≡ t.organization_id)

-- The identifier that the database makes up for a request's task.
abbrev pub Makes : Request → Key → Type 0
Makes (creates new_id _ _ _ _) k = k ≡ new_id
Makes _ k = ⊥

-- A task carries the time of its completion exactly when its status is a completed one.
abbrev pub IsTimed : Task → Type 0
IsTimed t = is_some t.completed_at ≡ is_completed_status t.status

-- The statuses that `UpdateTaskStatusDto` admits.
abbrev pub IsRequestable : TaskStatus → Type 0
IsRequestable status = (status ≡ not_started) ⊎ (status ≡ in_progress) ⊎ (status ≡ completed)

abbrev pub IsAdmitted : Request → Type 0
IsAdmitted (updates_status _ _ _ status _) = IsRequestable status
IsAdmitted _ = Unit

-- From the table of `db` to `new`, for a request.
pub data Writes (q : Request) (db : TaskDb) (new : List Task) : Type 0 where
  keeps : new ≡ db.tasks → Writes q db new
  marks :
      (k : Key) (t : Task) (f : Task → Task)
      → KeepsRow f
      → (IsAdmitted q → (x : Task) → IsTimed x → IsTimed (f x))
      → find_task db.tasks (org_of q) k ≡ some t
      → new ≡ update_by (λ x. x.id == k) f db.tasks
      → Writes q db new
  relinks :
      (k : Key) (t : Task) (dto : UpdateTaskDto)
      → find_task db.tasks (org_of q) k ≡ some t
      → check_new_dependency db (org_of q) k (new_dependency dto t) ≡ ok tt
      → new ≡ update_by (λ x. x.id == k) (patch dto) db.tasks
      → Writes q db new
  drops :
      (k : Key) (t : Task)
      → find_task db.tasks (org_of q) k ≡ some t
      → new ≡ delete_by (λ x. x.id == k) db.tasks
      → Writes q db new
  adds :
      (new_id user : Key) (dto : CreateTaskDto)
      → Makes q new_id
      → check_dependency db (org_of q) (truthy dto.depends_on_task_id) ≡ ok tt
      → new ≡ db.tasks ++ new_task new_id (org_of q) user dto ∷ []
      → Writes q db new

create-Writes :
    (new_id : Key) (ids : ℕ → Key) (org user : Key) (dto : CreateTaskDto) (db : TaskDb)
    → Writes
        (creates new_id ids org user dto)
        db
        (handle (creates new_id ids org user dto) db).tasks
unfolding handle create
create-Writes new_id ids org user dto db = elim (Result-cases (check_create db org dto)) [
  | inl (s, r, e) ↦ rw e (keeps refl)
  | inr (u, e) ↦ rw e (adds new_id user dto refl (unfold check_create in ground arith) refl)
]

update-Writes :
    (org k : Key) (dto : UpdateTaskDto) (actor : Option Key) (ip : Option String) (db : TaskDb)
    → Writes (updates org k dto actor ip) db (handle (updates org k dto actor ip) db).tasks
unfolding handle update
update-Writes org k dto actor ip db = elim (Result-cases (check_update org k dto db)) [
  | inl (s, r, e) ↦ rw e (keeps refl)
  | inr (t, e) ↦
      let checks : (find_task db.tasks org k ≡ some t)
          × (check_new_dependency db org k (new_dependency dto t) ≡ ok tt) =
        unfold check_update in ground arith in
      rw e (relinks k t dto checks.0 checks.1 refl)
]

final_IsTimed :
    (now : ℕ) (current status : TaskStatus) (old : Option ℕ)
    → IsRequestable status
    → is_some (final_completed_at now status old)
      ≡ is_completed_status (final_status current status)
unfolding final_status final_completed_at
final_IsTimed now current status old asked = ground arith

update_status-Writes :
    (now : ℕ) (org k : Key) (status : TaskStatus) (user : Key) (db : TaskDb)
    → Writes
        (updates_status now org k status user)
        db
        (handle (updates_status now org k status user) db).tasks
unfolding handle update_status
update_status-Writes now org k status user db =
    elim (Result-cases (check_status org k status user db)) [
      | inl (s, r, e) ↦ rw e (keeps refl)
      | inr (t, e) ↦ rw e (
          marks k t
            (set_status (final_status t.status status)
              (final_completed_at now status t.completed_at))
            (λ x. (refl, refl, refl))
            (λ asked x _. final_IsTimed now t.status status t.completed_at asked)
            (unfold check_status in ground arith) refl)
    ]

remove-Writes :
    (org k user : Key) (role : Option Role) (db : TaskDb)
    → Writes (removes org k user role) db (handle (removes org k user role) db).tasks
unfolding handle remove
remove-Writes org k user role db = elim (Result-cases (check_remove org k user role db)) [
  | inl (s, r, e) ↦ rw e (keeps refl)
  | inr (t, e) ↦ rw e (drops k t (unfold check_remove in ground arith) refl)
]

add_sub_task-Writes :
    (new_id org k : Key) (title : String) (db : TaskDb)
    → Writes
        (adds_sub_task new_id org k title)
        db
        (handle (adds_sub_task new_id org k title) db).tasks
unfolding handle add_sub_task
add_sub_task-Writes new_id org k title db = elim (Result-cases (open_task org k db)) [
  | inl (s, r, e) ↦ rw e (keeps refl)
  | inr (t, e) ↦ rw e (
      marks k t start (λ x. (refl, refl, refl)) (λ _ x timed. ground arith)
        (unfold open_task in ground arith) refl)
]

-- Every request of the service makes one of these writes, or none.
pub handle-Writes : (r : Request) (db : TaskDb) → Writes r db (handle r db).tasks
unfolding handle
handle-Writes (creates new_id ids org user dto) db = create-Writes new_id ids org user dto db
handle-Writes (updates org k dto actor ip) db = update-Writes org k dto actor ip db
handle-Writes (updates_status now org k status user) db =
    update_status-Writes now org k status user db
handle-Writes (removes org k user role) db = remove-Writes org k user role db
handle-Writes (adds_sub_task new_id org k title) db = add_sub_task-Writes new_id org k title db
handle-Writes (updates_sub_task org k id dto role) db =
    keeps (unfold update_sub_task in ground arith)
handle-Writes (reorders org k ids) db = keeps (unfold reorder_sub_tasks in ground arith)
handle-Writes (removes_sub_task org k id role user) db =
    keeps (unfold remove_sub_task in ground arith)
handle-Writes (adds_comment new_id org k content parent user) db =
    keeps (unfold add_comment in ground arith)
handle-Writes (updates_comment org k id user content) db =
    keeps (unfold update_comment in ground arith)
handle-Writes (removes_comment org k id role user) db =
    keeps (unfold remove_comment in ground arith)
handle-Writes (adds_attachment new_id org k user uploaded) db =
    keeps (unfold add_attachment in ground arith)
handle-Writes (removes_attachment org k id user role) db =
    keeps (unfold remove_attachment in ground arith)
