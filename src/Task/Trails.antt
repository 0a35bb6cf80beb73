-- ===== src/Task/Trails.antt =====
-- What a walk that does not find the task has shown.
use teamos_backend.Prelude.{
  ℕ, zero, suc, ◌≡◌, ◌≢◌, ◌⊎◌, inl, inr, sym, ◌∙◌, true, false, Option, none, some, List, ◌∷◌,
  arith, Key, contains, ◌==◌, Bool-cases,
}
use teamos_backend.Task.Model.{Task}
use teamos_backend.Task.Dependencies.{parent_of, walk}
use teamos_backend.Task.Reaching.{Reaches, NoEmptyId, parent_of-zero, closed-not_Reaches}

-- What the loop keeps: no visited task is the one looked for, and the dependency of a visited
-- task has been visited or comes next.
abbrev pub IsTrail : List Task → Key → List Key → Option Key → Type 0
IsTrail tasks task_id visited current =
    (v : Key)
    → contains visited v ≡ true
    → (v ≢ task_id)
      × ((b : Key) → parent_of tasks v ≡ some b → (contains visited b ≡ true) ⊎ (current ≡ some b))

abbrev pub OnTrail : List Key → Option Key → Key → Type 0
OnTrail visited current v = (contains visited v ≡ true) ⊎ (current ≡ some v)

contains-cons :
    (visited : List Key) (k v : Key)
    → contains (k ∷ visited) v ≡ true
    → (v ≡ k) ⊎ (contains visited v ≡ true)
contains-cons visited k v h = ground arith

contains-cons_self : (visited : List Key) (k : Key) → contains (k ∷ visited) k ≡ true
contains-cons_self visited k = ground arith

contains-cons_old :
    (visited : List Key) (k v : Key) → contains visited v ≡ true → contains (k ∷ visited) v ≡ true
contains-cons_old visited k v h = ground arith

IsTrail-next :
    (tasks : List Task) (task_id : Key) (visited : List Key) (k : Key)
    → IsTrail tasks task_id visited (some k)
    → k ≢ task_id
    → IsTrail tasks task_id (k ∷ visited) (parent_of tasks k)
IsTrail-next tasks task_id visited k trail ne v h = elim (contains-cons visited k v h) [
  | inl same ↦ (rw same ne, λ b e. inr (rw (← same) e))
  | inr old ↦ (
    (trail v old).0,
    λ b e. elim ((trail v old).1 b e) [
      | inl seen ↦ inl (contains-cons_old visited k b seen)
      | inr now ↦ let q : k ≡ b = cc in inl (rw (← q) (contains-cons_self visited k))
    ],
  )
]

OnTrail-next :
    (tasks : List Task) (visited : List Key) (k : Key) {v : Key}
    → OnTrail visited (some k) v
    → OnTrail (k ∷ visited) (parent_of tasks k) v
OnTrail-next tasks visited k {v} (inl old) = inl (contains-cons_old visited k v old)
OnTrail-next tasks visited k {v} (inr now) =
    let q : k ≡ v = cc in inl (rw (← q) (contains-cons_self visited k))

-- A trail whose end leads nowhere new is closed under dependencies.
IsTrail-closed :
    (tasks : List Task) (task_id : Key) (visited : List Key) (current : Option Key)
    → IsTrail tasks task_id visited current
    → ((c : Key)
        → current ≡ some c
        → (c ≢ task_id) × ((b : Key) → parent_of tasks c ≡ some b → OnTrail visited current b))
    → (v : Key) → OnTrail visited current v
    → (v ≢ task_id) × ((b : Key) → parent_of tasks v ≡ some b → OnTrail visited current b)
IsTrail-closed tasks task_id visited current trail last v (inl old) = trail v old
IsTrail-closed tasks task_id visited current trail last v (inr now) = last v now

-- A walk that answers `false` has shown that nothing on its trail reaches the task.
pub walk-not_Reaches :
    (fuel : ℕ) (tasks : List Task) (task_id : Key) (visited : List Key) (current : Option Key)
    → NoEmptyId tasks
    → task_id ≢ 0
    → walk fuel tasks task_id visited current ≡ some false
    → IsTrail tasks task_id visited current
    → (v : Key) → OnTrail visited current v
    → ¬ Reaches tasks v task_id
unfolding walk
walk-not_Reaches zero tasks task_id visited current ids ne h trail v on = cc
walk-not_Reaches (suc fuel) tasks task_id visited none ids ne h trail v on = λ r.
    closed-not_Reaches tasks (OnTrail visited none)
      (IsTrail-closed tasks task_id visited none trail (λ c e. cc)) r on
walk-not_Reaches (suc fuel) tasks task_id visited (some zero) ids ne h trail v on = λ r.
    closed-not_Reaches tasks (OnTrail visited (some zero))
      (IsTrail-closed tasks task_id visited (some zero) trail (λ c e.
        let q : zero ≡ c = cc in
        (
          λ met. ne (sym met ∙ sym q),
          λ b d.
              let no_parent : parent_of tasks c ≡ none = rw (← q) (parent_of-zero tasks ids) in cc,
        )))
      r on
walk-not_Reaches (suc fuel) tasks task_id visited (some (suc k)) ids ne h trail v on =
    elim (Bool-cases (suc k == task_id)) [
      | inl met ↦ let bad : some true ≡ some false = rw (walk, met) at h in cc
      | inr other ↦ elim (Bool-cases (contains visited (suc k))) [
        | inl seen ↦ λ r.
            closed-not_Reaches tasks (OnTrail visited (some (suc k)))
              (IsTrail-closed tasks task_id visited (some (suc k)) trail
                (λ c e. let q : suc k ≡ c = cc in trail c (rw (← q) seen)))
              r on
        | inr new ↦
            walk-not_Reaches fuel tasks task_id (suc k ∷ visited) (parent_of tasks (suc k)) ids ne
              (rw (walk, other, new) at h)
              (IsTrail-next tasks task_id visited (suc k) trail (λ e. ground arith)) v
              (OnTrail-next tasks visited (suc k) on)
      ]
    ]
