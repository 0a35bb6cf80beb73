-- ===== src/Task/Invariant.antt =====
-- What holds of the task table at all times, and what a request of one organization leaves alone.
use teamos_backend.Prelude.{◌≢◌, List, Key}
use teamos_backend.Rows.{others}
use teamos_backend.Task.Model.{Task, TaskDb}
use teamos_backend.Task.Links.{IsFresh}
use teamos_backend.Task.Service.{Request, creates}

-- What the database guarantees of the identifiers that it makes up.
abbrev pub IsFair : Request → TaskDb → Type 0
IsFair (creates new_id _ _ _ _) db = (new_id ≢ 0) × IsFresh new_id db.tasks
IsFair _ db = Unit

abbrev pub tasks_of_others : Key → List Task → List Task
tasks_of_others = others (λ t. t.id) (λ t. t.organization_id)
