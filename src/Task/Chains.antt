-- ===== src/Task/Chains.antt =====
-- The walk over the dependency chain decides whether the chain reaches the task.
use teamos_backend.Prelude.{
  ℕ, zero, suc, ◌+◌, ◌≤◌, ◌<◌, ◌≡◌, ◌≢◌, ◌⊎◌, ◌↔◌, inl, inr, refl, true, false, Option, none, some,
  List, [], ◌∷◌, arith, Key, ok, err, bad_request, contains, count_by, ◌==◌, ==_iff, not,
  Bool-cases, Option-cases,
}
use teamos_backend.Rows.{count_by-le-length}
use teamos_backend.Task.Model.{Task, circular_dependency}
use teamos_backend.Task.Dependencies.{parent_of, walk, walk_fuel, check_chain}
use teamos_backend.Task.Reaching.{Reaches, NoEmptyId, walk-Reaches}
use teamos_backend.Task.Trails.{walk-not_Reaches}

-- The tasks that the loop has not visited: each round that finds a row leaves one fewer.
unvisited : List Key → List Task → ℕ
unvisited visited = count_by (λ t. not (contains visited t.id))

unvisited-le :
    (visited : List Key) (k : Key) (tasks : List Task)
    → unvisited (k ∷ visited) tasks ≤ unvisited visited tasks
unfolding unvisited
unvisited-le visited k [] = omega arith
unvisited-le visited k (t ∷ ts) = ground (arith, unvisited-le visited k ts)

unvisited-lt :
    (visited : List Key) (k : Key) (tasks : List Task) {p : Key}
    → parent_of tasks k ≡ some p
    → contains visited k ≡ false
    → unvisited (k ∷ visited) tasks < unvisited visited tasks
unfolding unvisited parent_of
unvisited-lt visited k [] e new = cc
unvisited-lt visited k (t ∷ ts) {p} e new = elim (Bool-cases (t.id == k)) [
  | inl same ↦
      let q : t.id ≡ k = (==_iff t.id k).0 same in
      let fresh : contains visited t.id ≡ false = rw q new in
      ground (arith, unvisited-le visited k ts)
  | inr other ↦ ground (arith, unvisited-lt visited k ts {p = p} (rw (parent_of, other) at e) new)
]

walk_ends :
    (fuel : ℕ) (tasks : List Task) (task_id : Key) (visited : List Key)
    → 0 < fuel
    → walk fuel tasks task_id visited none ≢ none
unfolding walk
walk_ends zero tasks task_id visited pos h = omega arith
walk_ends (suc fuel) tasks task_id visited pos h = cc

walk_total :
    (fuel : ℕ) (tasks : List Task) (task_id : Key) (visited : List Key) (current : Option Key)
    → unvisited visited tasks + 2 ≤ fuel
    → walk fuel tasks task_id visited current ≢ none
unfolding walk
walk_total zero tasks task_id visited current enough h = omega arith
walk_total (suc fuel) tasks task_id visited none enough h = cc
walk_total (suc fuel) tasks task_id visited (some zero) enough h = cc
walk_total (suc fuel) tasks task_id visited (some (suc k)) enough h =
    elim (Bool-cases (suc k == task_id)) [
      | inl met ↦ let bad : some true ≡ none = rw (walk, met) at h in cc
      | inr other ↦ elim (Bool-cases (contains visited (suc k))) [
        | inl seen ↦ let bad : some false ≡ none = rw (walk, other, seen) at h in cc
        | inr new ↦ elim (Option-cases (parent_of tasks (suc k))) [
          | inl last ↦
              walk_ends fuel tasks task_id (suc k ∷ visited) (omega arith)
                (rw (walk, other, new, last) at h)
          | inr (p, e) ↦
              walk_total fuel tasks task_id (suc k ∷ visited) (some p)
                (omega (arith, unvisited-lt visited (suc k) tasks e new))
                (rw (walk, other, new, e) at h)
        ]
      ]
    ]

walk_decides :
    (tasks : List Task) (task_id d : Key)
    → NoEmptyId tasks
    → task_id ≢ 0
    → let w = walk (walk_fuel tasks) tasks task_id [] (some d) in
      ((w ≡ some true) × Reaches tasks d task_id) ⊎ ((w ≡ some false) × (¬ Reaches tasks d task_id))
unfolding unvisited
walk_decides tasks task_id d ids ne =
    elim (Option-cases (walk (walk_fuel tasks) tasks task_id [] (some d))) [
      | inl out ↦ absurd (
          walk_total (walk_fuel tasks) tasks task_id [] (some d)
            (omega (arith, count_by-le-length (λ t. not (contains [] t.id)) tasks)) out)
      | inr (true, e) ↦ inl (e, walk-Reaches (walk_fuel tasks) tasks task_id [] d e)
      | inr (false, e) ↦ inr (
        e,
        walk-not_Reaches (walk_fuel tasks) tasks task_id [] (some d) ids ne e (λ v h. cc) d
            (inr refl),
      )
    ]

-- The check refuses a dependency exactly when the task can be reached from it, by the message on
-- circular dependencies; otherwise it lets it pass. The fuel never runs out.
pub check_chain_exact :
    (tasks : List Task) (task_id d : Key)
    → NoEmptyId tasks
    → task_id ≢ 0
    → ((check_chain tasks task_id d ≡ ok tt) ↔ (¬ Reaches tasks d task_id))
      × ((check_chain tasks task_id d ≡ err bad_request circular_dependency)
          ↔ Reaches tasks d task_id)
unfolding check_chain
check_chain_exact tasks task_id d ids ne = elim (walk_decides tasks task_id d ids ne) [
  | inl (e, r) ↦ rw e ((λ h. cc, λ n. absurd (n r)), (λ _. r, λ _. refl))
  | inr (e, n) ↦ rw e ((λ _. n, λ _. refl), (λ h. cc, λ r. absurd (n r)))
]
