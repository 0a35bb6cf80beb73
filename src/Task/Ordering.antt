-- ===== src/Task/Ordering.antt =====
-- What `TaskService.reorderSubTasks` writes.
use teamos_backend.Prelude.{
  ℕ, suc, ◌≡◌, ◌∙◌, ap, refl, sym, Option, none, some, List, [], ◌∷◌, Key, arith, ok, map, ◌==◌,
  update_by, if◌then◌else◌,
}
use teamos_backend.Task.Model.{SubTask, TaskDb}
use teamos_backend.Task.SubTasks.{set_orders, reorder_sub_tasks}

-- The last position of an identifier in the request, counted from `index`.
abbrev pub position : ℕ → List Key → Key → Option ℕ
position index [] k = none
position index (id ∷ ids) k =
    let rest = position (suc index) ids k in
    elim rest [ some i ↦ some i | none ↦ if k == id then some index else none ]

abbrev pub placed : Option ℕ → SubTask → SubTask
placed none s = s
placed (some i) s = record s { order = i }

set_orders-step :
    (index : ℕ) (id : Key) (ids : List Key) (subs : List SubTask)
    → map
        (λ s. placed (position (suc index) ids s.id) s)
        (update_by (λ s. s.id == id) (λ s. record s { order = index }) subs)
      ≡ map (λ s. placed (position index (id ∷ ids) s.id) s) subs
set_orders-step index id ids [] = refl
set_orders-step index id ids (s ∷ subs) = ground (arith, set_orders-step index id ids subs)

map-same : (subs : List SubTask) → map (λ s. placed none s) subs ≡ subs
map-same [] = refl
map-same (s ∷ subs) = ap (λ rest. s ∷ rest) (map-same subs)

set_orders-placed :
    (index : ℕ) (ids : List Key) (subs : List SubTask)
    → set_orders index ids subs ≡ map (λ s. placed (position index ids s.id) s) subs
unfolding set_orders
set_orders-placed index [] subs = sym (map-same subs)
set_orders-placed index (id ∷ ids) subs =
    set_orders-placed (suc index) ids
      (update_by (λ s. s.id == id) (λ s. record s { order = index }) subs)
    ∙ set_orders-step index id ids subs

-- A reordering that is answered gives every row whose identifier is in the request the last
-- position of that identifier there, to whichever task and organization the row belongs, and
-- leaves all else in the store as it was.
pub reorder_sub_tasks-placed :
    (org k : Key) (ids : List Key) (db db' : TaskDb) {subs : List SubTask}
    → reorder_sub_tasks org k ids db ≡ ok (subs, db')
    → db' ≡ record db { sub_tasks = map (λ s. placed (position 0 ids s.id) s) db.sub_tasks }
unfolding reorder_sub_tasks
reorder_sub_tasks-placed org k ids db db' h = ground (arith, set_orders-placed 0 ids db.sub_tasks)
