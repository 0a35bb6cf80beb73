-- ===== src/Task/Dependencies.antt =====
-- The dependency chain that `TaskService.update` follows before it stores a new dependency
-- (src/modules/task/task.service.ts).
use teamos_backend.Prelude.{
  ℕ, zero, suc, ◌+◌, Bool, true, false, Option, none, some, List, ◌∷◌, [], Key, Result, ok, err,
  bad_request, find_by, contains, length, ◌==◌,
}
use teamos_backend.Task.Model.{Task, Fault, circular_dependency, dependency_walk_unfinished}

-- `parent?.dependsOnTaskId ?? null`
abbrev pub link : Option Task → Option Key
link none = none
link (some t) = t.depends_on_task_id

unfoldable pub parent_of : List Task → Key → Option Key
parent_of tasks a = link (find_by (λ t. t.id == a) tasks)

-- The `while (current)` loop on fuel: whether it meets `taskId`; `none` if the fuel runs out.
unfoldable pub walk : ℕ → List Task → Key → List Key → Option Key → Option Bool
walk zero tasks task_id visited current = none
walk (suc fuel) tasks task_id visited none = some false
walk (suc fuel) tasks task_id visited (some zero) = some false
walk (suc fuel) tasks task_id visited (some (suc k)) = elim (suc k == task_id) [
  | true ↦ some true
  | false ↦ elim (contains visited (suc k)) [
    | true ↦ some false
    | false ↦ walk fuel tasks task_id (suc k ∷ visited) (parent_of tasks (suc k))
  ]
]

-- Each round visits another task; one round more sees the end of the chain, and one the start.
abbrev pub walk_fuel : List Task → ℕ
walk_fuel tasks = length tasks + 2

abbrev pub walk_verdict : Option Bool → Result Fault (Unit {0})
walk_verdict none = err bad_request dependency_walk_unfinished
walk_verdict (some true) = err bad_request circular_dependency
walk_verdict (some false) = ok tt

unfoldable pub check_chain : List Task → Key → Key → Result Fault (Unit {0})
check_chain tasks task_id dependency =
    walk_verdict (walk (walk_fuel tasks) tasks task_id [] (some dependency))
