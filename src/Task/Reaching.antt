-- ===== src/Task/Reaching.antt =====
-- Reachability along the dependencies of tasks, and what a walk that finds the task has shown.
use teamos_backend.Prelude.{
  ℕ, zero, suc, ◌≡◌, ◌≢◌, inl, inr, refl, subst, true, false, none, some, List, [], ◌∷◌, arith, Key,
  contains, All, ◌==◌, ==_iff, Bool-cases, Option-cases,
}
use teamos_backend.Task.Model.{Task}
use teamos_backend.Task.Dependencies.{parent_of, walk}

-- From a task along its dependencies, in any number of steps.
pub data Reaches (tasks : List Task) : Key → Key → Type 0 where
  here : {a : Key} → Reaches tasks a a
  next : {a b c : Key} → parent_of tasks a ≡ some b → Reaches tasks b c → Reaches tasks a c

-- The empty string is no task's id.
abbrev pub NoEmptyId : List Task → Type 0
NoEmptyId = All (λ t. t.id ≢ 0)

pub parent_of-zero : (tasks : List Task) → NoEmptyId tasks → parent_of tasks 0 ≡ none
unfolding parent_of
parent_of-zero [] h = refl
parent_of-zero (t ∷ ts) h = ground (arith, parent_of-zero ts h.1)

walk-none :
    (fuel : ℕ) (tasks : List Task) (task_id : Key) (visited : List Key)
    → walk fuel tasks task_id visited none ≢ some true
unfolding walk
walk-none zero tasks task_id visited h = cc
walk-none (suc fuel) tasks task_id visited h = cc

-- A walk that answers `true` has met the task.
pub walk-Reaches :
    (fuel : ℕ) (tasks : List Task) (task_id : Key) (visited : List Key) (k : Key)
    → walk fuel tasks task_id visited (some k) ≡ some true
    → Reaches tasks k task_id
unfolding walk
walk-Reaches zero tasks task_id visited k h = cc
walk-Reaches (suc fuel) tasks task_id visited zero h = cc
walk-Reaches (suc fuel) tasks task_id visited (suc k) h = elim (Bool-cases (suc k == task_id)) [
  | inl met ↦ subst (Reaches tasks (suc k)) ((==_iff (suc k) task_id).0 met) here
  | inr other ↦ elim (Bool-cases (contains visited (suc k))) [
    | inl seen ↦ let bad : some false ≡ some true = rw (walk, other, seen) at h in cc
    | inr new ↦ elim (Option-cases (parent_of tasks (suc k))) [
      | inl last ↦
          absurd (walk-none fuel tasks task_id (suc k ∷ visited) (rw (walk, other, new, last) at h))
      | inr (p, e) ↦
          next e
            (walk-Reaches fuel tasks task_id (suc k ∷ visited) p (rw (walk, other, new, e) at h))
    ]
  ]
]

-- A set of tasks that holds their dependencies and not the task does not reach it.
pub closed-not_Reaches :
    (tasks : List Task) {task_id : Key} (S : Key → Type 0)
    → ((v : Key) → S v → (v ≢ task_id) × ((b : Key) → parent_of tasks v ≡ some b → S b))
    → {v : Key} → Reaches tasks v task_id
    → S v
    → ⊥
closed-not_Reaches tasks S closed here s = (closed _ s).0 refl
closed-not_Reaches tasks S closed (next e r) s =
    closed-not_Reaches tasks S closed r ((closed _ s).1 _ e)
