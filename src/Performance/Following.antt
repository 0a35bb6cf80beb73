-- ===== src/Performance/Following.antt =====
-- The rows of performance follow `TaskService.updateStatus`, by way of the event that it publishes
-- and the job that `PerformanceService` queues for it.
use teamos_backend.Prelude.{
  ℕ, ◌≡◌, ◌∙◌, ◌⊎◌, refl, sym, ap, subst, inl, inr, Bool, true, false, Bool-cases, Option, some,
  List, [], ◌∷◌, ◌++◌, Key, arith, All, count_by, update_by, contains, ok, ◌==◌, ◌&&◌, ◌||◌,
  ==_refl,
}
use teamos_backend.Amounts.{Amounts}
use teamos_backend.Rows.{HasKeys, only-owned, find_by-holds, All-map}
use teamos_backend.Outbox.{
  Effect, emit, notify, publish, audit, delete_file, status_changed, TaskStatus, completed,
  completed_late, overdue,
}
use teamos_backend.Task.{Task, TaskDb, same_status, find_task}
use teamos_backend.Task.Progress.{update_status, set_status}
use teamos_backend.Task.Completion.{update_status-writes}
use teamos_backend.Performance.Store.{Recalculation, PerformanceDb}
use teamos_backend.Performance.Scoring.{is_assigned, counts_for, score_for, rating_for}
use teamos_backend.Performance.Model.{Performance}
use teamos_backend.Performance.Counting.{count_assigned, counts_for_exact}
use teamos_backend.Performance.Jobs.{recalculation, job_of, handle_event, deliver, drain}
use teamos_backend.Performance.Current.{IsCurrent, is_named, drain-stays}

-- A write that does not touch the tasks that a test counts.
count_by-untouched :
    (q p : Task → Bool) (f : Task → Task) (ts : List Task)
    → All (λ t. p t ≡ true → (q t ≡ false) × (q (f t) ≡ false)) ts
    → count_by q (update_by p f ts) ≡ count_by q ts
count_by-untouched q p f [] a = refl
count_by-untouched q p f (t ∷ ts) a =
    let ih = count_by-untouched q p f ts a.1 in
    elim (Bool-cases (p t)) [
      | inl e ↦ let (before, after) = a.0 e in rw (e, before, after) ih
      | inr e ↦ rw e (rw ih)
    ]

-- A write to tasks that are not the user's, before it and after it, leaves their numbers.
counts_for-untouched :
    (p : Task → Bool) (f : Task → Task) (ts : List Task) (o u : Key)
    → All (λ t. p t ≡ true → (is_assigned o u t ≡ false) × (is_assigned o u (f t) ≡ false)) ts
    → counts_for (update_by p f ts) o u ≡ counts_for ts o u
counts_for-untouched p f ts o u a =
    let now = counts_for_exact (update_by p f ts) o u in
    let then = counts_for_exact ts o u in
    let each : (s : TaskStatus)
        → count_assigned (update_by p f ts) o u s ≡ count_assigned ts o u s =
      λ s.
        count_by-untouched (λ t. is_assigned o u t && same_status t.status s) p f ts
          (All-map _ _ ts (λ t h e. let (x, y) = h e in (rw x, rw y)) a) in
    let total = now.0 ∙ count_by-untouched (is_assigned o u) p f ts a ∙ sym then.0 in
    let on_time = now.1 ∙ each completed ∙ sym then.1 in
    let late = now.2 ∙ each completed_late ∙ sym then.2 in
    let still = now.3 ∙ each overdue ∙ sym then.3 in
    λ i. record {
      total_assigned = total i;
      on_time = on_time i;
      late = late i;
      still_overdue = still i;
    }

is_named-append :
    (js : List Recalculation) (j : Recalculation) (o u : Key)
    → is_named (js ++ j ∷ []) o u ≡ (is_named js o u || (j.org_id == o && contains j.user_ids u))
is_named-append [] j o u = ground arith
is_named-append (x ∷ js) j o u = ground (arith, is_named-append js j o u)

module _ {V : Type 0} {E : Type 0} where
  deliver-append :
      (xs ys : List (Effect E)) (db : PerformanceDb V)
      → deliver (xs ++ ys) db ≡ deliver ys (deliver xs db)
  unfolding deliver
  deliver-append [] ys db = refl
  deliver-append (emit o e ∷ xs) ys db = deliver-append xs ys db
  deliver-append (notify n ∷ xs) ys db = deliver-append xs ys db
  deliver-append (publish e ∷ xs) ys db = deliver-append xs ys (handle_event e db)
  deliver-append (audit a ∷ xs) ys db = deliver-append xs ys db
  deliver-append (delete_file f ∷ xs) ys db = deliver-append xs ys db

  -- Delivery writes to the queue only.
  deliver-rows :
      (es : List (Effect E)) (db : PerformanceDb V)
      → ((deliver es db).tasks ≡ db.tasks) × ((deliver es db).performances ≡ db.performances)
  unfolding deliver handle_event
  deliver-rows [] db = (refl, refl)
  deliver-rows (emit o e ∷ es) db = deliver-rows es db
  deliver-rows (notify n ∷ es) db = deliver-rows es db
  deliver-rows (publish e ∷ es) db = deliver-rows es (handle_event e db)
  deliver-rows (audit a ∷ es) db = deliver-rows es db
  deliver-rows (delete_file f ∷ es) db = deliver-rows es db

  -- The user of a change of status that is sent last has a job.
  last-is_named :
      (es : List (Effect E)) (o u : Key) (was now : TaskStatus) (db : PerformanceDb V)
      → is_named (deliver (es ++ publish (status_changed o u was now) ∷ []) db).queue o u ≡ true
  unfolding deliver handle_event job_of
  last-is_named es o u was now db =
      rw (deliver-append es (publish (status_changed o u was now) ∷ []) db) (
        is_named-append (deliver es db).queue (recalculation o (u ∷ [])) o u
        ∙ rw (==_refl o, ==_refl u) (ground arith))

  sent_last :
      (early es : List (Effect E)) (o u : Key) (was now : TaskStatus) (db : PerformanceDb V)
      → is_named (deliver (early ++ (es ++ publish (status_changed o u was now) ∷ [])) db).queue o u
        ≡ true
  sent_last early es o u was now db =
      rw (deliver-append early (es ++ publish (status_changed o u was now) ∷ []) db)
        (last-is_named es o u was now (deliver early db))

task_org :
    (org k : Key) (tasks : List Task) (t : Task)
    → find_task tasks org k ≡ some t
    → t.organization_id ≡ org
task_org org k tasks t found =
    let held : (t.id == k && t.organization_id == org) ≡ true =
      find_by-holds (λ t. t.id == k && t.organization_id == org) tasks found in
    ground arith

-- The store of the performance service when it has the tasks of the task service.
abbrev pub with_tasks : {V : Type 0} → List Task → PerformanceDb V → PerformanceDb V
with_tasks tasks db = record db { tasks = tasks }

module _ {V : Type 0} (num : Amounts V) where
  recounted :
      (old new : List Task) (rows : List (Performance V)) (o u : Key)
      → counts_for new o u ≡ counts_for old o u
      → IsCurrent num old rows o u
      → IsCurrent num new rows o u
  recounted old new rows o u e (p, found, held) = (
    p,
    found,
    record {
      total = held.total ∙ ap (λ c. c.total_assigned) (sym e);
      on_time = held.on_time ∙ ap (λ c. c.on_time) (sym e);
      late = held.late ∙ ap (λ c. c.late) (sym e);
      still_overdue = held.still_overdue ∙ ap (λ c. c.still_overdue) (sym e);
      score = held.score ∙ ap (score_for num) (sym e);
      rated = held.rated ∙ ap (rating_for num) (sym e);
    },
  )

  not_theirs :
      (org k o u : Key) (final : TaskStatus) (at : Option ℕ) (tasks : List Task) (old : Task)
      → HasKeys (λ t. t.id) tasks
      → find_task tasks org k ≡ some old
      → is_assigned o u old ≡ false
      → counts_for (update_by (λ t. t.id == k) (set_status final at) tasks) o u
        ≡ counts_for tasks o u
  unfolding set_status
  not_theirs org k o u final at tasks old keys found other =
      counts_for-untouched (λ t. t.id == k) (set_status final at) tasks o u
        (All-map _ _ tasks
          (λ t same e.
            let here : is_assigned o u t ≡ false = ap (is_assigned o u) (same e) ∙ other in
            (here, here))
          (only-owned (λ t. t.id) (λ t. t.organization_id) k org tasks keys found))

  -- When a status is set, the event is delivered and the worker has taken every job, the row of the
  -- user who has the task holds the numbers of the tasks as they are now, and so does every row that
  -- held those of the tasks before, if the identifiers of tasks are distinct.
  pub update_status-IsCurrent :
      (threshold : V) (ids : Key → Key → Key) (now : ℕ) (org k : Key) (status : TaskStatus)
      (user : Key) (db new : TaskDb) (t : Task) (rows : PerformanceDb V) (o u : Key)
      → HasKeys (λ t. t.id) db.tasks
      → update_status now org k status user db ≡ ok (t, new)
      → ((o ≡ org) × (u ≡ t.assigned_to_id)) ⊎ IsCurrent num db.tasks rows.performances o u
      → IsCurrent num new.tasks
          (drain num threshold ids (deliver new.outbox (with_tasks new.tasks rows))).performances
          o
          u
  unfolding set_status
  update_status-IsCurrent threshold ids now org k status user db new t rows o u keys h way =
      let (old, final, at, sent, found, row, tasks, outbox) =
        update_status-writes now org k status user db t new h in
      let place = task_org org k db.tasks old found in
      let perf = deliver new.outbox (with_tasks new.tasks rows) in
      let (same, kept) = deliver-rows new.outbox (with_tasks new.tasks rows) in
      let stays = drain-stays num threshold ids o u perf in
      let ready : (is_named perf.queue o u ≡ true)
          ⊎ IsCurrent num perf.tasks perf.performances o u =
        elim (Bool-cases (is_assigned o u old)) [
          | inl mine ↦
              let (o_same, u_same) : (old.organization_id ≡ o) × (old.assigned_to_id ≡ u) =
                (ground arith, ground arith) in
              inl (
                rw (outbox, ← o_same, ← u_same, place)
                  (sent_last db.outbox sent org old.assigned_to_id old.status final
                    (with_tasks new.tasks rows)))
          | inr other ↦ elim way [
            | inl (here, theirs) ↦
                let mine : is_assigned o u old ≡ true =
                  rw (here, theirs, row, place, ==_refl org, ==_refl old.assigned_to_id) in
                let bad : true ≡ false = sym mine ∙ other in cc
            | inr current ↦
                let counts = not_theirs org k o u final at db.tasks old keys found other in
                let now_current : IsCurrent num new.tasks rows.performances o u =
                  recounted db.tasks new.tasks rows.performances o u
                    (ap (λ ts. counts_for ts o u) tasks ∙ counts) current in
                inr (
                  subst (λ ts. IsCurrent num ts perf.performances o u) (sym same)
                    (subst (λ ps. IsCurrent num new.tasks ps o u) (sym kept) now_current))
          ]
        ] in
      subst (λ ts. IsCurrent num ts (drain num threshold ids perf).performances o u) same
        (stays ready)
