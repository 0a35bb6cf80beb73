-- ===== src/Task/Soundness.antt =====
-- The invariant of the task table, and that storing a checked dependency keeps it.
use teamos_backend.Prelude.{
  ◌≡◌, ◌≢◌, ◌⊎◌, inl, inr, refl, sym, ap, ==_ne, ==_refl, ◌∙◌, true, Option, none, some, List, Key,
  arith, ◌==◌, ==_iff, ok, find_by, update_by,
}
use teamos_backend.Rows.{
  HasKeys, find_by-owned, find_by-holds, All-find_by, find_by-update_by, HasKeys-update_by,
  All-update_by,
}
use teamos_backend.Task.Model.{Task, TaskDb, UpdateTaskDto}
use teamos_backend.Task.Lookup.{find_task}
use teamos_backend.Task.Dependencies.{link, parent_of, check_chain}
use teamos_backend.Task.Reaching.{Reaches, here, next, NoEmptyId, parent_of-zero}
use teamos_backend.Task.Chains.{check_chain_exact}
use teamos_backend.Task.Acyclic.{IsAcyclic, relink-IsAcyclic}
use teamos_backend.Task.Update.{patch, changed, truthy_field, check_new_dependency}

pub record IsSound (tasks : List Task) : Type 0 where
  pub keys : HasKeys (λ t. t.id) tasks
  pub ids : NoEmptyId tasks
  pub acyclic : IsAcyclic tasks

abbrev pub new_dependency : UpdateTaskDto → Task → Option Key
new_dependency dto t = changed (truthy_field dto.depends_on_task_id) t.depends_on_task_id

parent_of-update :
    (k a : Key) (f : Task → Task) (tasks : List Task)
    → ((t : Task) → (f t).id ≡ t.id)
    → a ≢ k
    → parent_of (update_by (λ t. t.id == k) f tasks) a ≡ parent_of tasks a
unfolding parent_of
parent_of-update k a f tasks keeps ne =
    ap link (rw (==_ne a k ne) at (find_by-update_by (λ t. t.id) a k f tasks keeps))

parent_of-update_self :
    (k : Key) (f : Task → Task) (tasks : List Task) {t : Task}
    → ((t : Task) → (f t).id ≡ t.id)
    → find_by (λ t. t.id == k) tasks ≡ some t
    → parent_of (update_by (λ t. t.id == k) f tasks) k ≡ (f t).depends_on_task_id
unfolding parent_of
parent_of-update_self k f tasks keeps found =
    ap link (rw (==_refl k, found) at (find_by-update_by (λ t. t.id) k k f tasks keeps))

parent_of-eq :
    (k : Key) (tasks : List Task) {t : Task}
    → find_by (λ t. t.id == k) tasks ≡ some t
    → parent_of tasks k ≡ t.depends_on_task_id
unfolding parent_of
parent_of-eq k tasks found = ap link found

dependency_cases :
    (dto : UpdateTaskDto) (t : Task) (d : Key)
    → (patch dto t).depends_on_task_id ≡ some d
    → (t.depends_on_task_id ≡ some d) ⊎ (d ≡ 0) ⊎ (new_dependency dto t ≡ some d)
unfolding patch
dependency_cases dto t d h = ground arith

check_new_dependency-ok :
    (org k d : Key) (db : TaskDb)
    → check_new_dependency db org k (some d) ≡ ok tt
    → check_chain db.tasks k d ≡ ok tt
unfolding check_new_dependency
check_new_dependency-ok org k d db h = ground arith

not_Reaches-zero :
    (tasks : List Task) {z k : Key} → NoEmptyId tasks → z ≡ 0 → k ≢ 0 → ¬ Reaches tasks z k
not_Reaches-zero tasks ids z ne here = ne z
not_Reaches-zero tasks ids z ne (next e r) =
    let no_parent : parent_of tasks 0 ≡ none = parent_of-zero tasks ids in
    let some_parent : parent_of tasks 0 ≡ some _ = rw z at e in cc

-- The dependency that the write stores is one that the task was not reachable from.
patch_free :
    (org k : Key) (dto : UpdateTaskDto) (db : TaskDb) {t : Task}
    → IsSound db.tasks
    → k ≢ 0
    → find_by (λ t. t.id == k) db.tasks ≡ some t
    → check_new_dependency db org k (new_dependency dto t) ≡ ok tt
    → (d : Key) → (patch dto t).depends_on_task_id ≡ some d
    → ¬ Reaches db.tasks d k
patch_free org k dto db {t} sound ne found checked d e r = elim (dependency_cases dto t d e) [
  | inl old ↦ sound.acyclic k d (parent_of-eq k db.tasks found ∙ old) r
  | inr (inl empty) ↦ not_Reaches-zero db.tasks sound.ids empty ne r
  | inr (inr new) ↦
      (check_chain_exact db.tasks k d sound.ids ne).0.0
        (check_new_dependency-ok org k d db (rw new at checked)) r
]

pub found-ne_zero :
    (k : Key) (tasks : List Task) {t : Task}
    → NoEmptyId tasks
    → find_by (λ x. x.id == k) tasks ≡ some t
    → k ≢ 0
found-ne_zero k tasks {t} ids found zero =
    let same : (t.id == k) ≡ true = find_by-holds (λ x. x.id == k) tasks found in
    All-find_by (λ x. x.id ≢ 0) (λ x. x.id == k) tasks ids found ((==_iff t.id k).0 same ∙ zero)

patch-id : (dto : UpdateTaskDto) (t : Task) → (patch dto t).id ≡ t.id
unfolding patch
patch-id dto t = refl

pub relink-IsSound :
    (org k : Key) (dto : UpdateTaskDto) (db : TaskDb) {t : Task}
    → IsSound db.tasks
    → find_task db.tasks org k ≡ some t
    → check_new_dependency db org k (new_dependency dto t) ≡ ok tt
    → IsSound (update_by (λ x. x.id == k) (patch dto) db.tasks)
relink-IsSound org k dto db {t} sound owned checked =
    let found : find_by (λ x. x.id == k) db.tasks ≡ some t =
      find_by-owned (λ x. x.id) (λ x. x.organization_id) k org db.tasks sound.keys owned in
    record {
      keys =
          HasKeys-update_by (λ x. x.id) (λ x. x.id == k) (patch dto) db.tasks (patch-id dto)
            sound.keys;
      ids =
          All-update_by (λ x. x.id ≢ 0) (λ x. x.id == k) (patch dto) db.tasks
            (λ x _ n. rw (patch-id dto x) n) sound.ids;
      acyclic =
          relink-IsAcyclic db.tasks (update_by (λ x. x.id == k) (patch dto) db.tasks) k
            (λ a off. parent_of-update k a (patch dto) db.tasks (patch-id dto) off) sound.acyclic
            (λ d link.
              patch_free org k dto db sound (found-ne_zero k db.tasks sound.ids found) found checked
                d (sym (parent_of-update_self k (patch dto) db.tasks (patch-id dto) found) ∙ link));
    }
