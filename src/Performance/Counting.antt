-- ===== src/Performance/Counting.antt =====
-- What the numbers of `recalculateForUser` count.
use teamos_backend.Prelude.{
  ℕ, ◌+◌, ◌≤◌, ◌≡◌, ◌∙◌, refl, Bool, List, [], ◌∷◌, Key, arith, count_by, filter_by, ◌&&◌,
}
use teamos_backend.Outbox.{TaskStatus, not_started, in_progress, completed, overdue, completed_late}
use teamos_backend.Task.{Task, same_status}
use teamos_backend.Performance.Scoring.{
  is_assigned, group_by_status, sum_counts, count_of, counts_for,
}

-- The user's tasks of one status.
abbrev pub count_assigned : List Task → Key → Key → TaskStatus → ℕ
count_assigned tasks org user s =
    count_by (λ t. is_assigned org user t && same_status t.status s) tasks

count_by-filter :
    (p q : Task → Bool) (ts : List Task)
    → count_by q (filter_by p ts) ≡ count_by (λ t. p t && q t) ts
count_by-filter p q [] = refl
count_by-filter p q (t ∷ ts) = ground (arith, count_by-filter p q ts)

abbrev pub count_status : List Task → TaskStatus → ℕ
count_status ts s = count_by (λ t. same_status t.status s) ts

total_lem :
    (ts : List Task)
    → sum_counts 0 (group_by_status ts)
      ≡ count_status ts not_started
        + count_status ts in_progress
        + count_status ts completed
        + count_status ts overdue
        + count_status ts completed_late
unfolding group_by_status sum_counts
total_lem ts = ground arith

completed_lem :
    (ts : List Task) → count_of completed (group_by_status ts) ≡ count_status ts completed
unfolding group_by_status count_of
completed_lem ts = ground arith

late_lem :
    (ts : List Task) → count_of completed_late (group_by_status ts) ≡ count_status ts completed_late
unfolding group_by_status count_of
late_lem ts = ground arith

overdue_lem : (ts : List Task) → count_of overdue (group_by_status ts) ≡ count_status ts overdue
unfolding group_by_status count_of
overdue_lem ts = ground arith

status_sum :
    (ts : List Task) (p : Task → Bool)
    → count_by p ts
      ≡ count_by (λ t. p t && same_status t.status not_started) ts
        + count_by (λ t. p t && same_status t.status in_progress) ts
        + count_by (λ t. p t && same_status t.status completed) ts
        + count_by (λ t. p t && same_status t.status overdue) ts
        + count_by (λ t. p t && same_status t.status completed_late) ts
status_sum [] p = refl
status_sum (t ∷ ts) p = ground (arith, status_sum ts p)

-- The numbers kept for a user count the tasks assigned to them in the organization, all of them
-- and those completed, completed late and overdue.
pub counts_for_exact :
    (tasks : List Task) (org user : Key)
    → let c = counts_for tasks org user in
      (c.total_assigned ≡ count_by (is_assigned org user) tasks)
      × (c.on_time ≡ count_assigned tasks org user completed)
      × (c.late ≡ count_assigned tasks org user completed_late)
      × (c.still_overdue ≡ count_assigned tasks org user overdue)
unfolding counts_for
counts_for_exact tasks org user =
    let p = is_assigned org user in
    let mine = filter_by p tasks in
    let each = count_by-filter p in
    (
      total_lem mine
          ∙ rw (
            each (λ t. same_status t.status not_started) tasks,
            each (λ t. same_status t.status in_progress) tasks,
            each (λ t. same_status t.status completed) tasks,
            each (λ t. same_status t.status overdue) tasks,
            each (λ t. same_status t.status completed_late) tasks,
            status_sum tasks p,
          ),
      completed_lem mine ∙ each (λ t. same_status t.status completed) tasks,
      late_lem mine ∙ each (λ t. same_status t.status completed_late) tasks,
      overdue_lem mine ∙ each (λ t. same_status t.status overdue) tasks,
    )

-- The parts are at most the whole.
pub counts_for_bounded :
    (tasks : List Task) (org user : Key)
    → let c = counts_for tasks org user in c.on_time + c.late + c.still_overdue ≤ c.total_assigned
counts_for_bounded tasks org user =
    let exact = counts_for_exact tasks org user in
    let all = status_sum tasks (is_assigned org user) in
    ground (arith, exact.0, exact.1, exact.2, exact.3, all)
