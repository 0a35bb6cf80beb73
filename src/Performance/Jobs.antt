-- ===== src/Performance/Jobs.antt =====
-- What queues recalculations and what runs them: the event handlers and `recalculateAll` of
-- performance.service.ts, and `PerformanceProcessor` of performance.processor.ts.
use teamos_backend.Prelude.{
  ℕ, List, [], ◌∷◌, ◌++◌, Key, contains, filter_by, map, length, is_empty, ◌==◌, if◌then◌else◌,
}
use teamos_backend.Amounts.{Amounts}
use teamos_backend.Outbox.{Effect, publish, TaskEvent, created, status_changed, deleted, reassigned}
use teamos_backend.Performance.Store.{Recalculation, PerformanceDb}
use teamos_backend.Performance.Scoring.{recalculate_for_user}

abbrev pub recalculation : Key → List Key → Recalculation
recalculation org users = record { org_id = org; user_ids = users }

-- `handleTaskCreated`, `handleTaskStatusChanged`, `handleTaskDeleted` and `handleTaskReassigned`
unfoldable pub job_of : TaskEvent → Recalculation
job_of (created org assignee) = recalculation org (assignee ∷ [])
job_of (status_changed org assignee old new) = recalculation org (assignee ∷ [])
job_of (deleted org assignee old) = recalculation org (assignee ∷ [])
job_of (reassigned org previous new) = recalculation org (previous ∷ new ∷ [])

-- `distinct: ['assignedToId']`
unfoldable pub distinct_keys : List Key → List Key → List Key
distinct_keys seen [] = []
distinct_keys seen (k ∷ ks) =
    let kept = k ∷ distinct_keys (k ∷ seen) ks in
    let skipped = distinct_keys seen ks in if contains seen k then skipped else kept

module _ {V : Type 0} where
  abbrev pub enqueue : Recalculation → PerformanceDb V → PerformanceDb V
  enqueue job db = record db { queue = db.queue ++ job ∷ [] }

  unfoldable pub handle_event : TaskEvent → PerformanceDb V → PerformanceDb V
  unfolding job_of
  handle_event event db = enqueue (job_of event) db

  -- The events among a service's messages reach the handlers in the order in which they are sent.
  unfoldable pub deliver : {E : Type 0} → List (Effect E) → PerformanceDb V → PerformanceDb V
  unfolding handle_event
  deliver [] db = db
  deliver (publish event ∷ rest) db = deliver rest (handle_event event db)
  deliver (_ ∷ rest) db = deliver rest db

  unfoldable pub assignees : Key → PerformanceDb V → List Key
  unfolding distinct_keys
  assignees org db =
      distinct_keys []
        (map (λ t. t.assigned_to_id) (filter_by (λ t. t.organization_id == org) db.tasks))

  -- The number of users, and the store with the job.
  unfoldable pub recalculate_all : Key → PerformanceDb V → ℕ × PerformanceDb V
  unfolding assignees
  recalculate_all org db =
      let users = assignees org db in
      (length users, if is_empty users then db else enqueue (recalculation org users) db)

  module _ (num : Amounts V) where
    -- The loop of `process`; `ids` are the identifiers of new rows, by user.
    unfoldable pub process : V → (Key → Key) → Key → List Key → PerformanceDb V → PerformanceDb V
    process threshold ids org [] db = db
    process threshold ids org (u ∷ us) db =
        process threshold ids org us (recalculate_for_user num threshold (ids u) org u db)

    -- The worker takes the jobs one by one.
    unfoldable pub run_jobs :
        V → (Key → Key → Key) → List Recalculation → PerformanceDb V → PerformanceDb V
    unfolding process
    run_jobs threshold ids [] db = db
    run_jobs threshold ids (job ∷ jobs) db =
        run_jobs threshold ids jobs (process threshold (ids job.org_id) job.org_id job.user_ids db)

    unfoldable pub drain : V → (Key → Key → Key) → PerformanceDb V → PerformanceDb V
    unfolding run_jobs
    drain threshold ids db = run_jobs threshold ids db.queue (record db { queue = [] })
