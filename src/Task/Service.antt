-- ===== src/Task/Service.antt =====
-- The requests of `TaskService` that write, as one type, and the store that each one leaves.
use Prim.Native.String.{String}
use teamos_backend.Prelude.{ℕ, Option, List, Key, store_after}
use teamos_backend.Roles.{Role}
use teamos_backend.Outbox.{TaskStatus}
use teamos_backend.Task.Model.{TaskDb, CreateTaskDto, UpdateTaskDto}
use teamos_backend.Task.Create.{create}
use teamos_backend.Task.Update.{update}
use teamos_backend.Task.Progress.{update_status}
use teamos_backend.Task.Remove.{remove}
use teamos_backend.Task.SubTasks.{
  add_sub_task, UpdateSubTaskDto, update_sub_task, reorder_sub_tasks, remove_sub_task,
}
use teamos_backend.Task.Comments.{
  add_comment, update_comment, remove_comment, Uploaded, add_attachment, remove_attachment,
}

-- Each with its method's arguments; `new_id` and `ids` are what the database makes up.
pub data Request : Type 0 where
  creates : (new_id : Key) (ids : ℕ → Key) (org user : Key) (dto : CreateTaskDto) → Request
  updates :
      (org task_id : Key) (dto : UpdateTaskDto) (actor : Option Key) (ip : Option String) → Request
  updates_status : (now : ℕ) (org task_id : Key) (status : TaskStatus) (user : Key) → Request
  removes : (org task_id user : Key) (role : Option Role) → Request
  adds_sub_task : (new_id org task_id : Key) (title : String) → Request
  updates_sub_task : (org task_id id : Key) (dto : UpdateSubTaskDto) (role : Option Role) → Request
  reorders : (org task_id : Key) (ordered_ids : List Key) → Request
  removes_sub_task : (org task_id id : Key) (role : Option Role) (user : Key) → Request
  adds_comment :
      (new_id org task_id : Key) (content : String) (parent : Option Key) (user : Key) → Request
  updates_comment : (org task_id id user : Key) (content : String) → Request
  removes_comment : (org task_id id user : Key) (role : Option Role) → Request
  adds_attachment : (new_id org task_id user : Key) (uploaded : Uploaded) → Request
  removes_attachment : (org task_id id user : Key) (role : Option Role) → Request

unfoldable pub handle : Request → TaskDb → TaskDb
handle (creates new_id ids org user dto) db = store_after db (create new_id ids org user dto db)
handle (updates org task_id dto actor ip) db = store_after db (update org task_id dto actor ip db)
handle (updates_status now org task_id status user) db =
    store_after db (update_status now org task_id status user db)
handle (removes org task_id user role) db = store_after db (remove org task_id user role db)
handle (adds_sub_task new_id org task_id title) db =
    store_after db (add_sub_task new_id org task_id title db)
handle (updates_sub_task org task_id id dto role) db =
    store_after db (update_sub_task org task_id id dto role db)
handle (reorders org task_id ordered_ids) db =
    store_after db (reorder_sub_tasks org task_id ordered_ids db)
handle (removes_sub_task org task_id id role user) db =
    store_after db (remove_sub_task org task_id id role user db)
handle (adds_comment new_id org task_id content parent user) db =
    store_after db (add_comment new_id org task_id content parent user db)
handle (updates_comment org task_id id user content) db =
    store_after db (update_comment org task_id id user content db)
handle (removes_comment org task_id id user role) db =
    store_after db (remove_comment org task_id id user role db)
handle (adds_attachment new_id org task_id user uploaded) db =
    store_after db (add_attachment new_id org task_id user uploaded db)
handle (removes_attachment org task_id id user role) db =
    store_after db (remove_attachment org task_id id user role db)
