-- ===== src/Task/Visibility.antt =====
-- Which tasks `TaskService.findAll` shows to whom.
use teamos_backend.Prelude.{
  Result, ◌≡◌, Bool, true, some, List, [], ◌∷◌, Key, arith, ok, ◌&&◌, ◌==◌, contains, filter_by,
  All, Bool-cases, inl, inr,
}
use teamos_backend.Rows.{All-map}
use teamos_backend.Roles.{member, supervisor}
use teamos_backend.Directory.{Member, find_member, team_of}
use teamos_backend.Task.Model.{Task, TaskDb, Fault}
use teamos_backend.Task.Queries.{TaskFilters, find_all, in_scope, passes}

filter_by-holds : (p : Task → Bool) (xs : List Task) → All (λ x. p x ≡ true) (filter_by p xs)
filter_by-holds p [] = tt
filter_by-holds p (x ∷ xs) = elim (Bool-cases (p x)) [
  | inl e ↦ rw e (e, filter_by-holds p xs)
  | inr e ↦ rw e (filter_by-holds p xs)
]

-- What the caller's role lets them see.
abbrev pub MaySee : TaskDb → Key → Key → Member → Task → Type 0
MaySee db org user caller t =
    (t.organization_id ≡ org)
    × (caller.role ≡ member → t.assigned_to_id ≡ user)
    × (caller.role ≡ supervisor → contains (team_of db.profiles org user) t.assigned_to_id ≡ true)

scope-MaySee :
    (db : TaskDb) (org user : Key) (filters : TaskFilters) (caller : Member) (t : Task)
    → (t.organization_id == org
        && (in_scope db.profiles org user caller.role filters.assigned_to_id t && passes filters t))
      ≡ true
    → MaySee db org user caller t
unfolding in_scope
scope-MaySee db org user filters caller t h = ground arith

ok-inj : {xs ys : List Task} → ◌≡◌ {A = Result Fault (List Task)} (ok xs) (ok ys) → xs ≡ ys
ok-inj h = cc

-- Whatever the filters, the answer holds only tasks of the organization; a caller whose role is
-- `member` sees only their own, and a supervisor only their team's and their own.
pub find_all-MaySee :
    (org user : Key) (filters : TaskFilters) (db : TaskDb) (caller : Member) {ts : List Task}
    → find_member db.members org user ≡ some caller
    → find_all org user filters db ≡ ok ts
    → All (MaySee db org user caller) ts
unfolding find_all
find_all-MaySee org user filters db caller {ts} who h =
    let p : Task → Bool = λ t.
      t.organization_id == org
      && (in_scope db.profiles org user caller.role filters.assigned_to_id t && passes filters t) in
    let answer : filter_by p db.tasks ≡ ts = ok-inj (rw who at h) in
    rw (← answer) (
      All-map (λ t. p t ≡ true) (MaySee db org user caller) (filter_by p db.tasks)
        (scope-MaySee db org user filters caller) (filter_by-holds p db.tasks))
