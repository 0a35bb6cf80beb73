-- ===== src/Performance/Scoring.antt =====
-- `PerformanceService.recalculateForUser`
use teamos_backend.Prelude.{
  ℕ, ◌+◌, Bool, not, Option, none, some, List, [], ◌∷◌, ◌++◌, Key, count_by, filter_by, find_by,
  map, ltb, ◌==◌, ◌&&◌, if◌then◌else◌,
}
use teamos_backend.Amounts.{Amounts}
use teamos_backend.Outbox.{
  TaskStatus, not_started, in_progress, completed, overdue, completed_late, Effect, emit,
}
use teamos_backend.Task.{Task, same_status}
use teamos_backend.Performance.Model.{
  Rating, excellent, good, average, needs_improvement, Performance, find_performance, upsert, blank,
}
use teamos_backend.Performance.Store.{PerformanceMessage, performance_updated, PerformanceDb}

-- `where: { organizationId: orgId, assignedToId: userId }`
abbrev pub is_assigned : Key → Key → Task → Bool
is_assigned org user t = t.organization_id == org && t.assigned_to_id == user

-- A row of `groupBy({ by: ['status'], _count: true })`.
pub record StatusCount : Type 0 where
  pub status : TaskStatus
  pub count : ℕ

abbrev pub status_count : List Task → TaskStatus → StatusCount
status_count tasks s = record { status = s; count = count_by (λ t. same_status t.status s) tasks }

-- One row for each status that a task has.
unfoldable pub group_by_status : List Task → List StatusCount
group_by_status tasks =
    filter_by (λ g. ltb 0 g.count)
      (map (status_count tasks)
        (not_started ∷ in_progress ∷ completed ∷ overdue ∷ completed_late ∷ []))

-- `reduce((acc, t) => acc + t._count, acc)`
unfoldable pub sum_counts : ℕ → List StatusCount → ℕ
sum_counts acc [] = acc
sum_counts acc (g ∷ gs) = sum_counts (acc + g.count) gs

-- `totalTasks.find(t => t.status === s)?._count || 0`
unfoldable pub count_of : TaskStatus → List StatusCount → ℕ
count_of s groups = elim (find_by (λ g. same_status g.status s) groups) [
  | none ↦ 0
  | some g ↦ g.count
]

-- The numbers that a row keeps: `totalAssigned`, `onTime`, `completedLate` and `overdue`.
pub record TaskCounts : Type 0 where
  pub total_assigned : ℕ
  pub on_time : ℕ
  pub late : ℕ
  pub still_overdue : ℕ

unfoldable pub counts_for : List Task → Key → Key → TaskCounts
unfolding group_by_status sum_counts count_of
counts_for tasks org user =
    let groups = group_by_status (filter_by (is_assigned org user) tasks) in
    record {
      total_assigned = sum_counts 0 groups;
      on_time = count_of completed groups;
      late = count_of completed_late groups;
      still_overdue = count_of overdue groups;
    }

module _ {V : Type 0} (num : Amounts V) where
  abbrev pub constant : ℕ → V
  constant n = num.from_count n

  -- `Math.min(a, b)` and `Math.max(a, b)`
  abbrev pub math_min : V → V → V
  math_min a b = if num.lt b a then b else a

  abbrev pub math_max : V → V → V
  math_max a b = if num.lt a b then b else a

  -- `Math.abs(a)`
  abbrev pub math_abs : V → V
  math_abs a = if num.lt a num.nil then num.minus num.nil a else a

  -- `(part / totalAssigned) * weight`
  abbrev pub share : ℕ → ℕ → ℕ → V
  share part total weight = num.times (num.over (constant part) (constant total)) (constant weight)

  unfoldable pub performance_score_of : TaskCounts → V
  performance_score_of c =
      let on_time_bonus = share c.on_time c.total_assigned 50 in
      let overdue_penalty = share c.still_overdue c.total_assigned 40 in
      let completion_bonus = share (c.on_time + c.late) c.total_assigned 10 in
      let late_completion_credit = share c.late c.total_assigned 10 in
      math_max (constant 0) (
        math_min (constant 100) (
          num.plus
            (num.plus (num.minus (num.plus (constant 50) on_time_bonus) overdue_penalty)
              completion_bonus)
            late_completion_credit))

  -- `a >= b` on numbers.
  abbrev pub at_least : V → ℕ → Bool
  at_least a n = not (num.lt a (constant n))

  unfoldable pub rating_of : V → Rating
  rating_of score =
      if at_least score 90
      then excellent
      else if at_least score 75
      then good
      else if at_least score 50
      then average
      else needs_improvement

  -- What both branches of the `upsert` write.
  abbrev pub fill : TaskCounts → V → Rating → Performance V → Performance V
  fill c score rating p = record p {
    total_tasks_assigned = c.total_assigned;
    task_completed = c.on_time + c.late;
    tasks_on_time = c.on_time;
    tasks_completed_late = c.late;
    tasks_late = c.still_overdue;
    performance_score = score;
    rating = rating;
  }

  -- `if (totalAssigned === 0)`: the numbers that the row is reset to, else what they come to.
  unfoldable pub score_for : TaskCounts → V
  unfolding performance_score_of
  score_for c = if c.total_assigned == 0 then constant 50 else performance_score_of c

  unfoldable pub rating_for : TaskCounts → Rating
  unfolding rating_of score_for
  rating_for c = if c.total_assigned == 0 then average else rating_of (score_for c)

  -- The numbers written when no task is assigned are all 0.
  unfoldable pub numbers_for : TaskCounts → TaskCounts
  numbers_for c =
      if c.total_assigned == 0
      then record { total_assigned = 0; on_time = 0; late = 0; still_overdue = 0 }
      else c

  unfoldable pub refill : TaskCounts → Performance V → Performance V
  unfolding score_for rating_for numbers_for
  refill c = fill (numbers_for c) (score_for c) (rating_for c)

  -- `Math.abs(performanceScore - (previousRecord?.performanceScore ?? 50)) >= insightThreshold`
  unfoldable pub is_news : V → V → Option (Performance V) → Bool
  is_news threshold score none = not (num.lt (math_abs (num.minus score (constant 50))) threshold)
  is_news threshold score (some p) =
      not (num.lt (math_abs (num.minus score p.performance_score)) threshold)

  unfoldable pub news :
      V
      → Key
      → TaskCounts
      → Option (Performance V)
      → Option (Performance V)
      → List (Effect (PerformanceMessage V))
  unfolding is_news score_for
  news threshold org c previous none = []
  news threshold org c previous (some row) =
      if c.total_assigned == 0
      then []
      else if is_news threshold (score_for c) previous
      then emit org (performance_updated row) ∷ []
      else []

  unfoldable pub recalculate_rows :
      Key → Key → Key → TaskCounts → List (Performance V) → List (Performance V)
  unfolding refill
  recalculate_rows new_id org user c rows =
      upsert org user (refill c) (refill c (blank num new_id org user)) rows

  -- `threshold` is the configuration's PERFORMANCE_INSIGHT_THRESHOLD.
  unfoldable pub recalculate_for_user : V → Key → Key → Key → PerformanceDb V → PerformanceDb V
  unfolding counts_for recalculate_rows news
  recalculate_for_user threshold new_id org user db =
      let c = counts_for db.tasks org user in
      let rows = recalculate_rows new_id org user c db.performances in
      let previous = find_performance db.performances org user in
      record db {
        performances = rows;
        outbox = db.outbox ++ news threshold org c previous (find_performance rows org user);
      }
