-- ===== src/Performance/Snapshots.antt =====
-- `PerformanceService.captureSnapshot`, and `PerformanceCronTask.handleDailySnapshot`, which calls it
-- (src/scheduler/performance.task.ts).
use teamos_backend.Prelude.{
  ℕ, suc, ◌/◌, Option, none, some, List, [], ◌∷◌, ◌++◌, Key, find_by, filter_by, map, ◌==◌, ◌&&◌,
}
use teamos_backend.Performance.Model.{Performance, PerformanceSnapshot, find_performance}
use teamos_backend.Performance.Store.{PerformanceDb}

-- `toISOString().slice(0, 10)`: the number of the day, of 86400000 milliseconds.
abbrev pub day_of : ℕ → ℕ
day_of now = now / 86400000

module _ {V : Type 0} where
  -- `where: { organizationId_userId_period: { organizationId, userId, period } }`
  abbrev pub find_snapshot :
      List (PerformanceSnapshot V) → Key → Key → ℕ → Option (PerformanceSnapshot V)
  find_snapshot rows org user day =
      find_by (λ s. s.organization_id == org && (s.user_id == user && s.period == day)) rows

  abbrev pub snapshot_of : Key → Key → Key → ℕ → Performance V → PerformanceSnapshot V
  snapshot_of new_id org user now p = record {
    id = new_id;
    performance_id = p.id;
    organization_id = org;
    user_id = user;
    period = day_of now;
    task_completed = p.task_completed;
    tasks_on_time = p.tasks_on_time;
    tasks_completed_late = p.tasks_completed_late;
    tasks_late = p.tasks_late;
    total_tasks_assigned = p.total_tasks_assigned;
    performance_score = p.performance_score;
    rating = p.rating;
    created_at = now;
  }

  -- What the method answers, and the store.
  unfoldable pub capture_snapshot :
      ℕ → Key → Key → Key → PerformanceDb V → Option (PerformanceSnapshot V) × PerformanceDb V
  capture_snapshot now new_id org user db = elim (find_performance db.performances org user) [
    | none ↦ (none, db)
    | some p ↦ elim (find_snapshot db.snapshots org user (day_of now)) [
      | some existing ↦ (some existing, db)
      | none ↦
          let made = snapshot_of new_id org user now p in
          (some made, record db { snapshots = db.snapshots ++ made ∷ [] })
    ]
  ]

  -- The inner loop, on the users of one organization, with its counter `created`; `ids` are the
  -- identifiers of new rows, by organization and user.
  unfoldable pub capture_each :
      ℕ → (Key → Key → Key) → Key → List Key → ℕ → PerformanceDb V → ℕ × PerformanceDb V
  unfolding capture_snapshot
  capture_each now ids org [] created db = (created, db)
  capture_each now ids org (u ∷ us) created db =
      let step = capture_snapshot now (ids org u) org u db in
      capture_each now ids org us (elim step.0 [ none ↦ created | some _ ↦ suc created ]) step.1

  -- The outer loop, on the organizations.
  unfoldable pub daily_snapshot :
      ℕ → (Key → Key → Key) → List Key → ℕ → PerformanceDb V → ℕ × PerformanceDb V
  unfolding capture_each
  daily_snapshot now ids [] created db = (created, db)
  daily_snapshot now ids (org ∷ orgs) created db =
      let users =
        map (λ p. p.user_id) (filter_by (λ p. p.organization_id == org) db.performances) in
      let step = capture_each now ids org users created db in
      daily_snapshot now ids orgs step.0 step.1
