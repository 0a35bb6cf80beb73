-- ===== src/Task/Links.antt =====
-- How the writes of `TaskService` change what a task depends on: not at all, by taking a task
-- away, or by adding one.
use teamos_backend.Prelude.{
  ◌≡◌, ◌≢◌, inl, inr, refl, sym, ◌∙◌, subst, Bool, none, some, List, [], ◌∷◌, ◌++◌, Key, arith,
  ◌==◌, ==_iff, Bool-cases, update_by, delete_by, All,
}
use teamos_backend.Task.Model.{Task}
use teamos_backend.Task.Dependencies.{parent_of}
use teamos_backend.Task.Reaching.{Reaches, here, next}
use teamos_backend.Task.Acyclic.{IsAcyclic}

-- Fewer links make no new chain.
Reaches-map :
    (old new : List Task)
    → ((a b : Key) → parent_of new a ≡ some b → parent_of old a ≡ some b)
    → {a b : Key} → Reaches new a b
    → Reaches old a b
Reaches-map old new sub here = here
Reaches-map old new sub (next e r) = next (sub _ _ e) (Reaches-map old new sub r)

pub fewer_links-IsAcyclic :
    (old new : List Task)
    → ((a b : Key) → parent_of new a ≡ some b → parent_of old a ≡ some b)
    → IsAcyclic old
    → IsAcyclic new
fewer_links-IsAcyclic old new sub acyclic a b e r =
    acyclic a b (sub a b e) (Reaches-map old new sub r)

-- Writes that leave identifiers and dependencies alone.
abbrev pub KeepsLinks : (Task → Task) → Type 0
KeepsLinks f = (t : Task) → ((f t).id ≡ t.id) × ((f t).depends_on_task_id ≡ t.depends_on_task_id)

pub parent_of-update_by :
    (p : Task → Bool) (f : Task → Task) (tasks : List Task) (a : Key)
    → KeepsLinks f
    → parent_of (update_by p f tasks) a ≡ parent_of tasks a
unfolding parent_of
parent_of-update_by p f [] a keeps = refl
parent_of-update_by p f (t ∷ ts) a keeps =
    ground (arith, keeps t, parent_of-update_by p f ts a keeps)

parent_of-deleted :
    (k : Key) (tasks : List Task) → parent_of (delete_by (λ t. t.id == k) tasks) k ≡ none
unfolding parent_of
parent_of-deleted k [] = refl
parent_of-deleted k (t ∷ ts) = ground (arith, parent_of-deleted k ts)

pub parent_of-delete_by :
    (k : Key) (tasks : List Task) (a b : Key)
    → parent_of (delete_by (λ t. t.id == k) tasks) a ≡ some b
    → parent_of tasks a ≡ some b
unfolding parent_of
parent_of-delete_by k [] a b h = h
parent_of-delete_by k (t ∷ ts) a b h = elim (Bool-cases (k == a)) [
  | inl same ↦
      let q : k ≡ a = (==_iff k a).0 same in
      let gone : none ≡ some b = sym (parent_of-deleted k (t ∷ ts)) ∙ rw (← q) at h in cc
  | inr other ↦ ground (arith, parent_of-delete_by k ts a b)
]

-- An identifier that the database has made up: no row has it, and no row refers to it.
abbrev pub IsFresh : Key → List Task → Type 0
IsFresh k = All (λ t. (t.id ≢ k) × (t.depends_on_task_id ≢ some k))

parent_of-fresh :
    (k : Key) (tasks : List Task) (a : Key) → IsFresh k tasks → parent_of tasks a ≢ some k
unfolding parent_of
parent_of-fresh k [] a fresh h = cc
parent_of-fresh k (t ∷ ts) a fresh h = ground (arith, parent_of-fresh k ts a fresh.1)

pub fresh-not_Reaches :
    (tasks : List Task) (k : Key) {a : Key} → IsFresh k tasks → a ≢ k → ¬ Reaches tasks a k
fresh-not_Reaches tasks k fresh ne here = ne refl
fresh-not_Reaches tasks k {a} fresh ne (next {b = b} e r) =
    fresh-not_Reaches tasks k fresh
      (λ q. parent_of-fresh k tasks a fresh (subst (λ x. parent_of tasks a ≡ some x) q e)) r

pub parent_of-append :
    (tasks : List Task) (t : Task) (a : Key)
    → t.id ≢ a
    → parent_of (tasks ++ t ∷ []) a ≡ parent_of tasks a
unfolding parent_of
parent_of-append [] t a ne = ground arith
parent_of-append (x ∷ ts) t a ne = ground (arith, parent_of-append ts t a ne)

pub parent_of-append_self :
    (tasks : List Task) (t : Task)
    → All (λ x. x.id ≢ t.id) tasks
    → parent_of (tasks ++ t ∷ []) t.id ≡ t.depends_on_task_id
unfolding parent_of
parent_of-append_self [] t fresh = ground arith
parent_of-append_self (x ∷ ts) t fresh = ground (arith, parent_of-append_self ts t fresh.1)
