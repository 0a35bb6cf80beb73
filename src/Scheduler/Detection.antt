-- ===== src/Scheduler/Detection.antt =====
-- What the overdue detection has done when it ends.
use teamos_backend.Prelude.{
  ℕ, ◌<◌, ◌≡◌, ◌≢◌, ◌⊎◌, inl, inr, refl, sym, subst, ◌∙◌, Bool, true, false, some, List, [], ◌∷◌,
  Key, arith, contains, filter_by, update_by, map, All, ==_ne, ==_refl, Bool-cases, Option-cases,
  ◌↔◌, ◌++◌, ◌&&◌, ◌||◌, ◌==◌, any_by,
}
use teamos_backend.Rows.{
  HasKeys, AreRelated, AreRelated-update_by, Any, any_by-Any, any_by-filter_by,
}
use teamos_backend.Outbox.{not_started, in_progress, overdue}
use teamos_backend.Task.{Task}
use teamos_backend.Performance.{Recalculation}
use teamos_backend.Performance.Current.{is_named}
use teamos_backend.Scheduler.Overdue.{
  is_missed, mark_overdue, detect_overdue, add_user, add_to_job, jobs_for,
}

abbrev ids_of : (Task → Bool) → List Task → List Key
ids_of p ts = map (λ t. t.id) (filter_by p ts)

ids_of-absent :
    (p : Task → Bool) (ts : List Task) (k : Key)
    → All (λ t. t.id ≢ k) ts
    → contains (ids_of p ts) k ≡ false
ids_of-absent p [] k away = refl
ids_of-absent p (t ∷ ts) k away = elim (Bool-cases (p t)) [
  | inl e ↦ rw (e, ==_ne k t.id (λ s. away.0 (sym s)), ids_of-absent p ts k away.1)
  | inr e ↦ rw (e, ids_of-absent p ts k away.1)
]

-- A further identifier changes nothing for the tasks that do not have it.
update_by-more :
    (k : Key) (ids : List Key) (f : Task → Task) (ts : List Task)
    → All (λ t. t.id ≢ k) ts
    → update_by (λ t. contains (k ∷ ids) t.id) f ts ≡ update_by (λ t. contains ids t.id) f ts
update_by-more k ids f [] away = refl
update_by-more k ids f (t ∷ ts) away = rw (==_ne t.id k away.0, update_by-more k ids f ts away.1)

ids_of-cons :
    (p : Task → Bool) (t : Task) (ts : List Task)
    → p t ≡ true
    → ids_of p (t ∷ ts) ≡ t.id ∷ ids_of p ts
ids_of-cons p t ts e = rw e

ids_of-skip :
    (p : Task → Bool) (t : Task) (ts : List Task) → p t ≡ false → ids_of p (t ∷ ts) ≡ ids_of p ts
ids_of-skip p t ts e = rw e

first_is : (k : Key) (ids : List Key) → contains (k ∷ ids) k ≡ true
first_is k ids = rw (==_refl k)

-- By the primary key, to write by the identifiers of some rows is to write those rows.
update_by-ids :
    (p : Task → Bool) (f : Task → Task) (ts : List Task)
    → HasKeys (λ t. t.id) ts
    → update_by (λ t. contains (ids_of p ts) t.id) f ts ≡ update_by p f ts
update_by-ids p f [] keys = refl
update_by-ids p f (t ∷ ts) keys = elim (Bool-cases (p t)) [
  | inl e ↦
      let rest : update_by (λ x. contains (t.id ∷ ids_of p ts) x.id) f ts ≡ update_by p f ts =
        update_by-more t.id (ids_of p ts) f ts keys.0 ∙ update_by-ids p f ts keys.1 in
      let both : update_by (λ x. contains (t.id ∷ ids_of p ts) x.id) f (t ∷ ts)
          ≡ f t ∷ update_by p f ts =
        rw (first_is t.id (ids_of p ts), rest) in
      subst (λ ids. update_by (λ x. contains ids x.id) f (t ∷ ts) ≡ update_by p f (t ∷ ts))
        (sym (ids_of-cons p t ts e)) (both ∙ rw e)
  | inr e ↦
      let both : update_by (λ x. contains (ids_of p ts) x.id) f (t ∷ ts) ≡ t ∷ update_by p f ts =
        rw (ids_of-absent p ts t.id keys.0, update_by-ids p f ts keys.1) in
      subst (λ ids. update_by (λ x. contains ids x.id) f (t ∷ ts) ≡ update_by p f (t ∷ ts))
        (sym (ids_of-skip p t ts e)) (both ∙ rw e)
]

-- Not begun or in progress, and past its deadline.
abbrev pub IsMissed : ℕ → Task → Type 0
IsMissed now t =
    ((t.status ≡ not_started) ⊎ (t.status ≡ in_progress))
    × ((d : ℕ) × (t.deadline ≡ some d) × (d < now))

-- What the detection makes of a task.
abbrev pub IsMarked : ℕ → Task → Task → Type 0
IsMarked now t u =
    (IsMissed now t × (u ≡ record t { status = overdue })) ⊎ ((¬ IsMissed now t) × (u ≡ t))

missed : (now : ℕ) (t : Task) → is_missed now t ≡ true → IsMissed now t
missed now t h = elim (Option-cases t.deadline) [
  | inl e ↦ absurd (ground arith)
  | inr (d, e) ↦ (ground arith, (d, e, ground arith))
]

not-IsMissed : (now : ℕ) (t : Task) → is_missed now t ≡ false → ¬ IsMissed now t
not-IsMissed now t h (s, m) = let (d, e, l) = m in ground arith

contains-append :
    (u user : Key) (users : List Key)
    → contains (users ++ u ∷ []) user ≡ (contains users user || u == user)
contains-append u user [] = ground arith
contains-append u user (x ∷ users) = ground (arith, contains-append u user users)

-- A user who is there is there once more.
held :
    (u user : Key) (users : List Key)
    → contains users u ≡ true
    → contains users user ≡ (contains users user || u == user)
held u user [] h = absurd (ground arith)
held u user (x ∷ users) h = ground (arith, held u user users)

contains-add_user :
    (u user : Key) (users : List Key)
    → contains (add_user u users) user ≡ (contains users user || u == user)
contains-add_user u user users = elim (Bool-cases (contains users u)) [
  | inl e ↦ rw e (held u user users e)
  | inr e ↦ rw e (contains-append u user users)
]

is_due_iff :
    (now : ℕ) (org user : Key) (t : Task)
    → ((is_missed now t && (t.organization_id == org && t.assigned_to_id == user)) ≡ true)
      ↔ (IsMissed now t × (t.organization_id ≡ org) × (t.assigned_to_id ≡ user))
is_due_iff now org user t = elim (Bool-cases (is_missed now t)) [
  | inl e ↦
      let m = missed now t e in (λ h. (m, ground arith, ground arith), λ (_, o, u). ground arith)
  | inr e ↦ (λ h. absurd (ground arith), λ h. absurd (not-IsMissed now t e h.0))
]

named-add_to_job :
    (o u org user : Key) (js : List Recalculation)
    → is_named (add_to_job o u js) org user ≡ (is_named js org user || (o == org && u == user))
unfolding add_to_job
named-add_to_job o u org user [] = ground arith
named-add_to_job o u org user (j ∷ js) =
    ground (arith, named-add_to_job o u org user js, contains-add_user u user j.user_ids)

named-jobs_for :
    (org user : Key) (js : List Recalculation) (ts : List Task)
    → is_named (jobs_for js ts) org user ≡ (
        is_named js org user
        || any_by (λ t. t.organization_id == org && t.assigned_to_id == user) ts)
unfolding jobs_for
named-jobs_for org user js [] = ground arith
named-jobs_for org user js (t ∷ ts) =
    let first = named-add_to_job t.organization_id t.assigned_to_id org user js in
    let rest = named-jobs_for org user (add_to_job t.organization_id t.assigned_to_id js) ts in
    ground (arith, first, rest)

-- When the detection ends, each task that was not begun or in progress past its deadline is marked
-- overdue, each other one is as it was, and a job names a user in an organization exactly if one
-- of the marked tasks is assigned to them there, if the tasks' identifiers are distinct.
pub detect_overdue_exact :
    (now : ℕ) (tasks : List Task) (org user : Key)
    → HasKeys (λ t. t.id) tasks
    → AreRelated (IsMarked now) tasks (detect_overdue now tasks).0
      × ((is_named (detect_overdue now tasks).1 org user ≡ true)
          ↔ Any (λ t. IsMissed now t × (t.organization_id ≡ org) × (t.assigned_to_id ≡ user)) tasks)
unfolding detect_overdue
detect_overdue_exact now tasks org user keys = (
  rw (update_by-ids (is_missed now) mark_overdue tasks keys) (
      AreRelated-update_by (IsMarked now) (is_missed now) mark_overdue tasks
        (λ t h. inl (missed now t h, refl)) (λ t h. inr (not-IsMissed now t h, refl))),
  rw
      (
        named-jobs_for org user [] (filter_by (is_missed now) tasks),
        any_by-filter_by (is_missed now) (λ t. t.organization_id == org && t.assigned_to_id == user)
            tasks,
      )
      (any_by-Any _ _ tasks (λ t. is_due_iff now org user t)),
)
