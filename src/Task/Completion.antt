-- ===== src/Task/Completion.antt =====
-- How the status of a task moves, and when it carries the time of its completion.
use teamos_backend.Prelude.{
  ℕ, ◌≡◌, ◌≢◌, inl, inr, sym, ◌∙◌, true, false, Option, some, List, [], ◌∷◌, ◌++◌, Key, arith, ◌==◌,
  ◌&&◌, ok, Result, Result-cases, some-eq, ok-eq, ap, update_by,
}
use teamos_backend.Roles.{member}
use teamos_backend.Directory.{Member, find_member}
use teamos_backend.Outbox.{
  Effect, emit, publish, TaskEvent, TaskStatus, not_started, overdue, completed_late,
}
use teamos_backend.Task.Model.{Task, TaskDb, TaskMessage, task_status_changed}
use teamos_backend.Task.Lookup.{find_task, is_completed_status}
use teamos_backend.Task.TaskWrites.{IsRequestable}
use teamos_backend.Task.Progress.{
  is_overdue, needs_dependency, blocks, check_status, set_status, final_status, final_completed_at,
  update_status, dependency_of, is_open_status, completion_notice,
}

final_status_overdue :
    (current status : TaskStatus)
    → IsRequestable status
    → (is_overdue current && is_open_status status) ≡ false
    → current ≡ overdue
    → final_status current status ≡ completed_late
unfolding final_status
final_status_overdue current status asked free h = ground arith

final_status_started :
    (current status : TaskStatus)
    → IsRequestable status
    → final_status current status ≢ not_started
    → needs_dependency status ≡ true
unfolding final_status
final_status_started current status asked h = ground arith

check_status-ok :
    (org k : Key) (status : TaskStatus) (user : Key) (db : TaskDb) (t : Task)
    → check_status org k status user db ≡ ok t
    → (find_task db.tasks org k ≡ some t)
      × ((m : Member) × (find_member db.members org user ≡ some m)
          × (m.role ≡ member → t.assigned_to_id ≡ user))
      × ((is_overdue t.status && is_open_status status) ≡ false)
      × ((needs_dependency status && blocks (dependency_of db t)) ≡ false)
unfolding check_status
check_status-ok org k status user db t h = ground arith

-- A status is set only by a member of the organization, who has the task if their role is
-- `member`; an overdue task is not reopened, only completed late; and work does not start or end
-- before the task that it depends on is completed.
pub update_status_rules :
    (now : ℕ) (org k : Key) (status : TaskStatus) (user : Key) (db : TaskDb) (old new : Task)
    (db' : TaskDb)
    → IsRequestable status
    → find_task db.tasks org k ≡ some old
    → update_status now org k status user db ≡ ok (new, db')
    → ((m : Member) × (find_member db.members org user ≡ some m)
        × (m.role ≡ member → old.assigned_to_id ≡ user))
      × (old.status ≡ overdue → new.status ≡ completed_late)
      × (new.status ≢ not_started
          → (d : Task) → dependency_of db old ≡ some d
          → is_completed_status d.status ≡ true)
unfolding update_status
update_status_rules now org k status user db old new db' asked found h =
    elim (Result-cases (check_status org k status user db)) [
      | inl (s, r, e) ↦ let bad = rw e at h in cc
      | inr (t, e) ↦
          let c = check_status-ok org k status user db t e in
          let same : t ≡ old = some-eq (sym c.0 ∙ found) in
          let written : set_status (final_status t.status status)
                (final_completed_at now status t.completed_at) t
              ≡ new =
            ok-eq (rw e at h) in
          (
            rw same at c.1,
            λ late.
                rw (← written)
                  (final_status_overdue t.status status asked c.2 (ap (λ x. x.status) same ∙ late)),
            λ started d dependency.
                let needs : needs_dependency status ≡ true =
                  final_status_started t.status status asked
                    (λ q. started (sym (ap (λ x. x.status) written) ∙ q)) in
                let free : blocks (dependency_of db t) ≡ false = rw needs at c.3 in
                let clear : blocks (some d) ≡ false = rw (same, dependency) at free in ground arith,
          )
    ]

ok_pair :
    {R A S : Type 0} {a b : A} {s t : S}
    → ◌≡◌ {A = Result R (A × S)} (ok (a, s)) (ok (b, t))
    → (a ≡ b) × (s ≡ t)
ok_pair h = (cc, cc)

-- What `update_status` writes: the row of the task that the check has found, and at the end of the
-- messages the event that names who has the task.
pub update_status-writes :
    (now : ℕ) (org k : Key) (status : TaskStatus) (user : Key) (db : TaskDb) (new : Task)
    (db' : TaskDb)
    → update_status now org k status user db ≡ ok (new, db')
    → (old : Task) × (final : TaskStatus) × (at : Option ℕ) × (sent : List (Effect TaskMessage))
      × (find_task db.tasks org k ≡ some old)
      × (new ≡ set_status final at old)
      × (db'.tasks ≡ update_by (λ t. t.id == k) (set_status final at) db.tasks)
      × (db'.outbox
          ≡ db.outbox
            ++ (sent
                ++ publish (TaskEvent.status_changed org old.assigned_to_id old.status final) ∷ []))
unfolding update_status
update_status-writes now org k status user db new db' h =
    elim (Result-cases (check_status org k status user db)) [
      | inl (s, r, e) ↦ let bad = rw e at h in cc
      | inr (t, e) ↦
          let c = check_status-ok org k status user db t e in
          let final = final_status t.status status in
          let at = final_completed_at now status t.completed_at in
          let sent = emit org (task_status_changed k final) ∷ completion_notice org t status in
          let (row, store) = ok_pair (rw e at h) in
          (
            t,
            final,
            at,
            sent,
            c.0,
            sym row,
            ap (λ d. d.tasks) (sym store),
            ap (λ d. d.outbox) (sym store),
          )
    ]
