-- ===== src/Performance/Model.antt =====
-- The rows that `PerformanceService` keeps (prisma/schema.prisma). Scores are JavaScript numbers of
-- a type `V`.
use teamos_backend.Prelude.{
  ℕ, Bool, Option, none, List, [], ◌∷◌, ◌++◌, Key, find_by, update_by, is_some, ◌==◌, ◌&&◌,
  if◌then◌else◌,
}
use teamos_backend.Amounts.{Amounts}

-- 'Excellent', 'Good', 'Average' and 'Needs Improvement'.
pub data Rating : Type 0 where
  excellent good average needs_improvement : Rating

pub record Performance (V : Type 0) : Type 0 where
  pub id : Key
  pub organization_id : Key
  pub user_id : Key
  pub task_completed : ℕ
  pub tasks_on_time : ℕ
  pub tasks_completed_late : ℕ
  pub tasks_late : ℕ
  pub total_tasks_assigned : ℕ
  pub performance_score : V
  pub rating : Rating
  pub review_score : Option V
  pub last_review_cycle_id : Option Key

-- A day, as `toISOString().slice(0, 10)` writes it, is a number of days.
pub record PerformanceSnapshot (V : Type 0) : Type 0 where
  pub id : Key
  pub performance_id : Key
  pub organization_id : Key
  pub user_id : Key
  pub period : ℕ
  pub task_completed : ℕ
  pub tasks_on_time : ℕ
  pub tasks_completed_late : ℕ
  pub tasks_late : ℕ
  pub total_tasks_assigned : ℕ
  pub performance_score : V
  pub rating : Rating
  pub created_at : ℕ

module _ {V : Type 0} where
  -- `where: { organizationId_userId: { organizationId, userId } }`
  abbrev pub of_user : Key → Key → Performance V → Bool
  of_user org user p = p.organization_id == org && p.user_id == user

  abbrev pub find_performance : List (Performance V) → Key → Key → Option (Performance V)
  find_performance rows org user = find_by (of_user org user) rows

  -- `upsert`: the row of the user is updated, or a new one is inserted.
  abbrev pub upsert :
      Key
      → Key
      → (Performance V → Performance V)
      → Performance V
      → List (Performance V)
      → List (Performance V)
  upsert org user set made rows =
      if is_some (find_performance rows org user)
      then update_by (of_user org user) set rows
      else rows ++ made ∷ []

  -- A row with the defaults of the schema.
  abbrev pub blank : Amounts V → Key → Key → Key → Performance V
  blank num new_id org user = record {
    id = new_id;
    organization_id = org;
    user_id = user;
    task_completed = 0;
    tasks_on_time = 0;
    tasks_completed_late = 0;
    tasks_late = 0;
    total_tasks_assigned = 0;
    performance_score = num.from_count 50;
    rating = average;
    review_score = none;
    last_review_cycle_id = none;
  }
