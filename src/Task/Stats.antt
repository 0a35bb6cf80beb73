-- ===== src/Task/Stats.antt =====
-- The numbers of `TaskService.getStats` and the lists of `findAll`.
use teamos_backend.Prelude.{
  ℕ, ◌≡◌, ◌⊎◌, ◌∙◌, refl, sym, Bool, none, Option, some, List, [], ◌∷◌, Key, arith, count_by,
  filter_by, length, ◌==◌, ◌&&◌, ok,
}
use teamos_backend.Amounts.{Amounts}
use teamos_backend.Roles.{admin, owner}
use teamos_backend.Directory.{Member, find_member}
use teamos_backend.Outbox.{TaskStatus, not_started, in_progress, completed, overdue, completed_late}
use teamos_backend.Task.Model.{Task, TaskDb}
use teamos_backend.Task.Queries.{
  TaskStats, TaskFilters, find_all, in_scope, passes, same_status, count_status, get_stats,
}

-- The filters of a list that is asked for one status, or for none.
abbrev pub by_status : Option TaskStatus → TaskFilters
by_status status = record {
  status = status;
  priority = none;
  department_id = none;
  assigned_to_id = none;
}

-- The number that stands for a status, and the total where none is given.
abbrev pub number_of : {V : Type 0} → TaskStats V → Option TaskStatus → ℕ
number_of s none = s.total
number_of s (some not_started) = s.not_started
number_of s (some in_progress) = s.in_progress
number_of s (some completed) = s.completed
number_of s (some overdue) = s.overdue
number_of s (some completed_late) = s.completed_late

length-filter_by :
    {A : Type 0} (p : A → Bool) (xs : List A) → length (filter_by p xs) ≡ count_by p xs
length-filter_by p [] = refl
length-filter_by p (x ∷ xs) = ground (arith, length-filter_by p xs)

count_by-same :
    {A : Type 0} (p q : A → Bool) (xs : List A)
    → ((x : A) → p x ≡ q x)
    → count_by p xs ≡ count_by q xs
count_by-same p q [] same = refl
count_by-same p q (x ∷ xs) same = rw (same x, count_by-same p q xs same)

-- Whether a list of one status or of all shows a task to a caller who is shown everyone's.
abbrev is_counted : Key → Option TaskStatus → Task → Bool
is_counted org none t = t.organization_id == org
is_counted org (some s) t = t.organization_id == org && same_status t.status s

number_of-count :
    {V : Type 0} (num : Amounts V) (org : Key) (status : Option TaskStatus) (db : TaskDb)
    → number_of (get_stats num org db) status ≡ count_by (is_counted org status) db.tasks
unfolding get_stats count_status
number_of-count num org none db = refl
number_of-count num org (some not_started) db = refl
number_of-count num org (some in_progress) db = refl
number_of-count num org (some completed) db = refl
number_of-count num org (some overdue) db = refl
number_of-count num org (some completed_late) db = refl

is_counted-wanted :
    (org user : Key) (status : Option TaskStatus) (caller : Member) (db : TaskDb) (t : Task)
    → (caller.role ≡ admin) ⊎ (caller.role ≡ owner)
    → (t.organization_id == org
        && (in_scope db.profiles org user caller.role none t && passes (by_status status) t))
      ≡ is_counted org status t
unfolding in_scope passes
is_counted-wanted org user none caller db t may = ground arith
is_counted-wanted org user (some s) caller db t may = ground arith

-- Each number of tasks that the statistics hold for a status, and the total, is how many tasks the
-- list holds that an admin or owner of the organization gets for that status, or without a filter.
pub get_stats-find_all :
    {V : Type 0} (num : Amounts V) (org user : Key) (status : Option TaskStatus) (db : TaskDb)
    (caller : Member)
    → find_member db.members org user ≡ some caller
    → (caller.role ≡ admin) ⊎ (caller.role ≡ owner)
    → (ts : List Task) × (find_all org user (by_status status) db ≡ ok ts)
      × (length ts ≡ number_of (get_stats num org db) status)
unfolding find_all
get_stats-find_all num org user status db caller found may = (
  _,
  rw found refl,
  length-filter_by _ db.tasks
      ∙ count_by-same _ (is_counted org status) db.tasks
          (λ t. is_counted-wanted org user status caller db t may)
      ∙ sym (number_of-count num org status db),
)
