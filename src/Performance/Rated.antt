-- ===== src/Performance/Rated.antt =====
-- What holds of every row of performance.
use teamos_backend.Prelude.{
  ◌+◌, ◌≤◌, ◌≡◌, refl, sym, inl, inr, true, false, Bool-cases, List, [], ◌∷◌, Key, arith, All,
  is_some, ◌==◌,
}
use teamos_backend.Amounts.{Amounts, IsOrdered}
use teamos_backend.Rows.{All-append, All-update_by}
use teamos_backend.Task.{Task}
use teamos_backend.Performance.Model.{
  average, Performance, of_user, find_performance, upsert, blank,
}
use teamos_backend.Performance.Store.{Recalculation, PerformanceDb}
use teamos_backend.Performance.Scoring.{
  counts_for, math_min, math_max, constant, performance_score_of, rating_of, score_for, rating_for,
  numbers_for, refill, recalculate_rows, recalculate_for_user,
}
use teamos_backend.Performance.Counting.{counts_for_bounded}
use teamos_backend.Performance.Jobs.{process, run_jobs, drain}

module _ {V : Type 0} (num : Amounts V) where
  -- A score is from 0 to 100 and has its rating; the tasks completed are those on time and those
  -- late; with the overdue ones they are at most all.
  pub record IsRated (p : Performance V) : Type 0 where
    pub least : num.lt p.performance_score (num.from_count 0) ≡ false
    pub most : num.lt (num.from_count 100) p.performance_score ≡ false
    pub rated : p.rating ≡ rating_of num p.performance_score
    pub completed : p.task_completed ≡ p.tasks_on_time + p.tasks_completed_late
    pub parts : p.task_completed + p.tasks_late ≤ p.total_tasks_assigned

  abbrev pub AreRated : List (Performance V) → Type 0
  AreRated = All IsRated

module _ {V : Type 0} (num : Amounts V) (ordered : IsOrdered num) where
  clamp-least :
      (a : V)
      → num.lt (math_max num (constant num 0) (math_min num (constant num 100) a)) (constant num 0)
        ≡ false
  clamp-least a = elim (Bool-cases (num.lt (constant num 0) (math_min num (constant num 100) a))) [
    | inl e ↦ elim (Bool-cases (num.lt (math_min num (constant num 100) a) (constant num 0))) [
      | inl f ↦
          let bad : num.lt (constant num 0) (constant num 0) ≡ true = ordered.lt_trans _ _ _ e f in
          let good = ordered.lt_irrefl (constant num 0) in cc
      | inr f ↦ rw (e, f)
    ]
    | inr e ↦ rw (e, ordered.lt_irrefl (constant num 0))
  ]

  min-most : (a : V) → num.lt (constant num 100) (math_min num (constant num 100) a) ≡ false
  min-most a = elim (Bool-cases (num.lt a (constant num 100))) [
    | inl e ↦ elim (Bool-cases (num.lt (constant num 100) a)) [
      | inl f ↦
          let bad : num.lt a a ≡ true = ordered.lt_trans _ _ _ e f in
          let good = ordered.lt_irrefl a in cc
      | inr f ↦ rw (e, f)
    ]
    | inr e ↦ rw (e, ordered.lt_irrefl (constant num 100))
  ]

  clamp-most :
      (a : V)
      → num.lt
          (constant num 100)
          (math_max num (constant num 0) (math_min num (constant num 100) a))
        ≡ false
  clamp-most a = elim (Bool-cases (num.lt (constant num 0) (math_min num (constant num 100) a))) [
    | inl e ↦ rw (e, min-most a)
    | inr e ↦ rw (e, ordered.lt-from_count 100 0)
  ]

  rating_of-fifty : rating_of num (constant num 50) ≡ average
  unfolding rating_of
  rating_of-fifty =
      rw (ordered.lt-from_count 50 90, ordered.lt-from_count 50 75, ordered.lt-from_count 50 50)

  refill-IsRated :
      (tasks : List Task) (org user : Key) (p : Performance V)
      → IsRated num (refill num (counts_for tasks org user) p)
  unfolding refill score_for rating_for numbers_for performance_score_of
  refill-IsRated tasks org user p =
      let c = counts_for tasks org user in
      let bounded = counts_for_bounded tasks org user in
      elim (Bool-cases (c.total_assigned == 0)) [
        | inl e ↦ record {
          least = rw (e, ordered.lt-from_count 50 0);
          most = rw (e, ordered.lt-from_count 100 50);
          rated = rw (e, rating_of-fifty);
          completed = rw e refl;
          parts = rw e (omega arith);
        }
        | inr e ↦ record {
          least = rw e (clamp-least _);
          most = rw e (clamp-most _);
          rated = rw e refl;
          completed = rw e refl;
          parts = rw e bounded;
        }
      ]

  pub upsert-AreRated :
      (org user : Key) (set : Performance V → Performance V) (made : Performance V)
      (rows : List (Performance V))
      → ((p : Performance V) → IsRated num p → IsRated num (set p))
      → IsRated num made
      → AreRated num rows
      → AreRated num (upsert org user set made rows)
  upsert-AreRated org user set made rows step new rated =
      elim (Bool-cases (is_some (find_performance rows org user))) [
        | inl e ↦
            rw e (All-update_by (IsRated num) (of_user org user) set rows (λ p _ r. step p r) rated)
        | inr e ↦ rw e (All-append (IsRated num) rows made rated new)
      ]

  pub blank-IsRated : (new_id org user : Key) → IsRated num (blank num new_id org user)
  blank-IsRated new_id org user = record {
    least = ordered.lt-from_count 50 0;
    most = ordered.lt-from_count 100 50;
    rated = sym rating_of-fifty;
    completed = refl;
    parts = omega arith;
  }

  recalculate-AreRated :
      (threshold : V) (new_id org user : Key) (db : PerformanceDb V)
      → AreRated num db.performances
      → AreRated num (recalculate_for_user num threshold new_id org user db).performances
  unfolding recalculate_for_user recalculate_rows
  recalculate-AreRated threshold new_id org user db rated =
      upsert-AreRated org user _ _ db.performances (λ p _. refill-IsRated db.tasks org user p)
        (refill-IsRated db.tasks org user (blank num new_id org user)) rated

  process-AreRated :
      (threshold : V) (ids : Key → Key) (org : Key) (users : List Key) (db : PerformanceDb V)
      → AreRated num db.performances
      → AreRated num (process num threshold ids org users db).performances
  unfolding process
  process-AreRated threshold ids org [] db rated = rated
  process-AreRated threshold ids org (u ∷ us) db rated =
      process-AreRated threshold ids org us (recalculate_for_user num threshold (ids u) org u db)
        (recalculate-AreRated threshold (ids u) org u db rated)

  run_jobs-AreRated :
      (threshold : V) (ids : Key → Key → Key) (jobs : List Recalculation) (db : PerformanceDb V)
      → AreRated num db.performances
      → AreRated num (run_jobs num threshold ids jobs db).performances
  unfolding run_jobs
  run_jobs-AreRated threshold ids [] db rated = rated
  run_jobs-AreRated threshold ids (job ∷ jobs) db rated =
      run_jobs-AreRated threshold ids jobs
        (process num threshold (ids job.org_id) job.org_id job.user_ids db)
        (process-AreRated threshold (ids job.org_id) job.org_id job.user_ids db rated)

  -- Where numbers are ordered, the queued jobs leave every row with a score from 0 to 100, the rating
  -- of that score, and numbers of tasks whose parts are at most the whole, if that was so before.
  pub drain-AreRated :
      (threshold : V) (ids : Key → Key → Key) (db : PerformanceDb V)
      → AreRated num db.performances
      → AreRated num (drain num threshold ids db).performances
  unfolding drain
  drain-AreRated threshold ids db rated =
      run_jobs-AreRated threshold ids db.queue (record db { queue = [] }) rated
