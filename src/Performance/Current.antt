-- ===== src/Performance/Current.antt =====
-- What the queued recalculations leave in the rows of performance.
use teamos_backend.Prelude.{
  ◌≡◌, ◌⊎◌, ◌∙◌, refl, sym, subst, inl, inr, Bool, true, false, Bool-cases, Option-cases, some,
  List, [], ◌∷◌, Key, arith, contains, any_by, ◌==◌, ◌&&◌, ==_refl,
}
use teamos_backend.Amounts.{Amounts}
use teamos_backend.Task.{Task}
use teamos_backend.Performance.Model.{Performance, of_user, find_performance, blank}
use teamos_backend.Performance.Store.{Recalculation, PerformanceDb}
use teamos_backend.Performance.Scoring.{
  TaskCounts, counts_for, score_for, rating_for, numbers_for, refill, recalculate_rows,
  recalculate_for_user,
}
use teamos_backend.Performance.Counting.{counts_for_bounded}
use teamos_backend.Performance.Jobs.{process, run_jobs, drain}
use teamos_backend.Performance.Fresh.{
  KeepsUser, find_performance-upsert, find_performance-upsert_other,
}

abbrev pub is_named : List Recalculation → Key → Key → Bool
is_named jobs org user = any_by (λ j. j.org_id == org && contains j.user_ids user) jobs

module _ {V : Type 0} (num : Amounts V) where
  -- The row holds the numbers of the user's tasks, their score and its rating.
  pub record HasCounts (tasks : List Task) (org user : Key) (p : Performance V) : Type 0 where
    pub total : p.total_tasks_assigned ≡ (counts_for tasks org user).total_assigned
    pub on_time : p.tasks_on_time ≡ (counts_for tasks org user).on_time
    pub late : p.tasks_completed_late ≡ (counts_for tasks org user).late
    pub still_overdue : p.tasks_late ≡ (counts_for tasks org user).still_overdue
    pub score : p.performance_score ≡ score_for num (counts_for tasks org user)
    pub rated : p.rating ≡ rating_for num (counts_for tasks org user)

  -- The user has such a row.
  abbrev pub IsCurrent : List Task → List (Performance V) → Key → Key → Type 0
  IsCurrent tasks rows org user =
      (p : Performance V) × (find_performance rows org user ≡ some p) × HasCounts tasks org user p

  numbers_for-eq :
      (tasks : List Task) (org user : Key)
      → numbers_for num (counts_for tasks org user) ≡ counts_for tasks org user
  unfolding numbers_for
  numbers_for-eq tasks org user = let bounded = counts_for_bounded tasks org user in grind arith

  refill-HasCounts :
      (tasks : List Task) (org user : Key) (p : Performance V)
      → HasCounts tasks org user (refill num (counts_for tasks org user) p)
  unfolding refill
  refill-HasCounts tasks org user p = rw (numbers_for-eq tasks org user) (record {
    total = refl;
    on_time = refl;
    late = refl;
    still_overdue = refl;
    score = refl;
    rated = refl;
  })

  refill-KeepsUser : (c : TaskCounts) → KeepsUser (refill num c)
  unfolding refill
  refill-KeepsUser c p = (refl, refl)

  made_of :
      (c : TaskCounts) (new_id org user : Key)
      → of_user org user (refill num c (blank num new_id org user)) ≡ true
  unfolding refill
  made_of c new_id org user = rw (==_refl org, ==_refl user)

  recalculate-IsCurrent :
      (threshold : V) (new_id org user : Key) (db : PerformanceDb V)
      → IsCurrent db.tasks
          (recalculate_for_user num threshold new_id org user db).performances
          org
          user
  unfolding recalculate_for_user recalculate_rows
  recalculate-IsCurrent threshold new_id org user db =
      let c = counts_for db.tasks org user in
      let found =
        find_performance-upsert org user (refill num c) (refill num c (blank num new_id org user))
          db.performances (refill-KeepsUser c) (made_of c new_id org user) in
      elim (Option-cases (find_performance db.performances org user)) [
        | inl e ↦
            let made = refill num c (blank num new_id org user) in
            (made, found ∙ rw e, refill-HasCounts db.tasks org user (blank num new_id org user))
        | inr (p, e) ↦ (refill num c p, found ∙ rw e, refill-HasCounts db.tasks org user p)
      ]

  recalculate-other :
      (threshold : V) (new_id org user o u : Key) (db : PerformanceDb V)
      → (o == org && u == user) ≡ false
      → find_performance (recalculate_for_user num threshold new_id org user db).performances o u
        ≡ find_performance db.performances o u
  unfolding recalculate_for_user recalculate_rows
  recalculate-other threshold new_id org user o u db h =
      let c = counts_for db.tasks org user in
      find_performance-upsert_other org user o u (refill num c)
        (refill num c (blank num new_id org user)) db.performances (refill-KeepsUser c)
        (made_of c new_id org user) h

  recalculate-stays :
      (threshold : V) (new_id org user o u : Key) (db : PerformanceDb V)
      → ((o == org && u == user) ≡ true) ⊎ IsCurrent db.tasks db.performances o u
      → IsCurrent db.tasks (recalculate_for_user num threshold new_id org user db).performances o u
  recalculate-stays threshold new_id org user o u db way =
      elim (Bool-cases (o == org && u == user)) [
        | inl e ↦
            let same : o ≡ org = ground arith in
            let too : u ≡ user = ground arith in
            rw (same, too) (recalculate-IsCurrent threshold new_id org user db)
        | inr e ↦ elim way [
          | inl f ↦ let bad : true ≡ false = sym f ∙ e in cc
          | inr (p, found, held) ↦
              (p, recalculate-other threshold new_id org user o u db e ∙ found, held)
        ]
      ]

  process-tasks :
      (threshold : V) (ids : Key → Key) (org : Key) (users : List Key) (db : PerformanceDb V)
      → (process num threshold ids org users db).tasks ≡ db.tasks
  unfolding process recalculate_for_user
  process-tasks threshold ids org [] db = refl
  process-tasks threshold ids org (u ∷ us) db =
      process-tasks threshold ids org us (recalculate_for_user num threshold (ids u) org u db)

  process-stays :
      (threshold : V) (ids : Key → Key) (org : Key) (users : List Key) (o u : Key)
      (db : PerformanceDb V)
      → ((o == org && contains users u) ≡ true) ⊎ IsCurrent db.tasks db.performances o u
      → IsCurrent db.tasks (process num threshold ids org users db).performances o u
  unfolding process recalculate_for_user
  process-stays threshold ids org [] o u db way = elim way [
    | inl e ↦ let bad : false ≡ true = ground arith in cc
    | inr held ↦ held
  ]
  process-stays threshold ids org (k ∷ ks) o u db way =
      let next = recalculate_for_user num threshold (ids k) org k db in
      process-stays threshold ids org ks o u next (elim (Bool-cases (o == org && u == k)) [
        | inl e ↦ inr (recalculate-stays threshold (ids k) org k o u db (inl e))
        | inr e ↦ elim way [
          | inl f ↦ inl (ground arith)
          | inr held ↦ inr (recalculate-stays threshold (ids k) org k o u db (inr held))
        ]
      ])

  run_jobs-stays :
      (threshold : V) (ids : Key → Key → Key) (jobs : List Recalculation) (o u : Key)
      (db : PerformanceDb V)
      → (is_named jobs o u ≡ true) ⊎ IsCurrent db.tasks db.performances o u
      → IsCurrent db.tasks (run_jobs num threshold ids jobs db).performances o u
  unfolding run_jobs
  run_jobs-stays threshold ids [] o u db way = elim way [
    | inl e ↦ let bad : false ≡ true = e in cc
    | inr held ↦ held
  ]
  run_jobs-stays threshold ids (job ∷ jobs) o u db way =
      let next = process num threshold (ids job.org_id) job.org_id job.user_ids db in
      let same : next.tasks ≡ db.tasks =
        process-tasks threshold (ids job.org_id) job.org_id job.user_ids db in
      let stays = process-stays threshold (ids job.org_id) job.org_id job.user_ids o u db in
      subst (λ ts. IsCurrent ts (run_jobs num threshold ids jobs next).performances o u) same
        (run_jobs-stays threshold ids jobs o u next (
          rw same (elim (Bool-cases (o == job.org_id && contains job.user_ids u)) [
            | inl e ↦ inr (stays (inl e))
            | inr e ↦ elim way [ inl f ↦ inl (ground arith) | inr held ↦ inr (stays (inr held)) ]
          ])))

  pub drain-stays :
      (threshold : V) (ids : Key → Key → Key) (o u : Key) (db : PerformanceDb V)
      → (is_named db.queue o u ≡ true) ⊎ IsCurrent db.tasks db.performances o u
      → IsCurrent db.tasks (drain num threshold ids db).performances o u
  unfolding drain
  drain-stays threshold ids o u db way =
      run_jobs-stays threshold ids db.queue o u (record db { queue = [] }) way

  -- When the worker has taken every job of the queue, the row of each user that a job names holds the
  -- numbers of their tasks, their score and its rating.
  pub drain-IsCurrent :
      (threshold : V) (ids : Key → Key → Key) (o u : Key) (db : PerformanceDb V)
      → is_named db.queue o u ≡ true
      → IsCurrent db.tasks (drain num threshold ids db).performances o u
  drain-IsCurrent threshold ids o u db named = drain-stays threshold ids o u db (inl named)
