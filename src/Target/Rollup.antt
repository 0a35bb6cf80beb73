-- ===== src/Target/Rollup.antt =====
-- `rollupParent` on a table whose links lead to higher kinds: it ends, and keeps the links.
use teamos_backend.Prelude.{
  ℕ, zero, suc, ◌+◌, ◌≤◌, ◌<◌, ◌≡◌, ◌≢◌, inl, inr, refl, sym, ◌∙◌, Option, none, some, List, Key,
  arith, ◌==◌, ==_refl, ==_ne, Option-cases, find_by, update_by, truthy, ok, some-eq,
}
use teamos_backend.Rows.{All-find_by, find_by-update_by}
use teamos_backend.Amounts.{Amounts}
use teamos_backend.Target.Model.{Target, TargetEntry}
use teamos_backend.Target.Entries.{rollup_parent, rolled_up, set_current, refresh, total_of}
use teamos_backend.Target.Hierarchy.{
  level, kind_at, IsLinked, IsAligned, relink-IsAligned, kind_at-update_by, IsLinked-map, KeepsKind,
}
use teamos_backend.Target.Alignments.{level_max, kind-above}

module _ {V : Type 0} (num : Amounts V) where
  set_current-KeepsKind : (v : V) → KeepsKind (set_current num v)
  set_current-KeepsKind v t = (refl, refl)

  -- What holds of a found row.
  pub row_link :
      (targets : List (Target V)) (k : Key) {t : Target V}
      → IsAligned targets
      → find_by (λ x. x.id == k) targets ≡ some t
      → IsLinked targets t.kind t.parent_target_id
  row_link targets k aligned found =
      All-find_by (λ x. IsLinked targets x.kind x.parent_target_id) (λ x. x.id == k) targets
        aligned.links found

  write-IsAligned :
      (targets : List (Target V)) (k : Key) (v : V) {t : Target V}
      → find_by (λ x. x.id == k) targets ≡ some t
      → IsAligned targets
      → IsAligned (update_by (λ x. x.id == k) (set_current num v) targets)
  write-IsAligned targets k v found aligned =
      relink-IsAligned k (set_current num v) targets (set_current-KeepsKind v) found
        (row_link targets k aligned found) aligned

  write-IsLinked :
      (targets : List (Target V)) (k : Key) (v : V) {t : Target V}
      → find_by (λ x. x.id == k) targets ≡ some t
      → IsAligned targets
      → IsLinked (update_by (λ x. x.id == k) (set_current num v) targets) t.kind t.parent_target_id
  write-IsLinked targets k v {t} found aligned =
      IsLinked-map targets (update_by (λ x. x.id == k) (set_current num v) targets)
        (λ p c h.
          rw
            (kind_at-update_by (λ x. x.id == k) (set_current num v) targets p
              (set_current-KeepsKind v))
            h)
        t.kind t.parent_target_id (row_link targets k aligned found)

  linked-found :
      (targets : List (Target V)) (c : _) (p : Key)
      → IsLinked targets c (some p)
      → (t : Target V) × (find_by (λ x. x.id == p) targets ≡ some t) × (level c < level t.kind)
  unfolding kind_at
  linked-found targets c p h = elim (Option-cases (find_by (λ x. x.id == p) targets)) [
    | inl missing ↦ absurd (rw missing at h)
    | inr (t, found) ↦ (t, found, kind-above targets p c t found h)
  ]

  kind_below-ne :
      (targets : List (Target V)) (a b : Key) {s t : Target V}
      → find_by (λ x. x.id == a) targets ≡ some s
      → find_by (λ x. x.id == b) targets ≡ some t
      → level s.kind < level t.kind
      → a ≢ b
  kind_below-ne targets a b {s} {t} f g h e =
      let same : s ≡ t = some-eq (sym (rw e at f) ∙ g) in
      let loop : level t.kind < level t.kind = rw same at h in omega arith

  -- A write to another row.
  write-other :
      (targets : List (Target V)) (a k : Key) (v : V)
      → a ≢ k
      → find_by (λ x. x.id == a) (update_by (λ x. x.id == k) (set_current num v) targets)
        ≡ find_by (λ x. x.id == a) targets
  write-other targets a k v ne =
      rw (==_ne a k ne) at
        (find_by-update_by (λ x. x.id) a k (set_current num v) targets (λ x. refl))

  rollup_parent-step :
      (fuel : ℕ) (targets : List (Target V)) (k : Key) {t : Target V} {new : List (Target V)}
      → find_by (λ x. x.id == k) targets ≡ some t
      → rollup_parent num fuel
          (update_by (λ x. x.id == k) (set_current num (rolled_up num targets t)) targets)
          (truthy t.parent_target_id)
        ≡ ok new
      → rollup_parent num (suc fuel) targets (some k) ≡ ok new
  unfolding rollup_parent
  rollup_parent-step fuel targets k found h = rw (rollup_parent, found) h

  -- From a link of a target of kind `c`, with a round for each kind above `c`, the loop ends; it
  -- keeps the table aligned and leaves alone the targets that are not of a higher kind.
  pub rollup_parent-ok :
      (fuel : ℕ) (targets : List (Target V)) (c : _) (link : Option Key)
      → IsAligned targets
      → IsLinked targets c link
      → 2 ≤ level c + fuel
      → (new : List (Target V)) × (rollup_parent num fuel targets (truthy link) ≡ ok new)
        × IsAligned new
        × ((k : Key) (t : Target V)
            → find_by (λ x. x.id == k) targets ≡ some t
            → level t.kind ≤ level c
            → find_by (λ x. x.id == k) new ≡ some t)
  unfolding rollup_parent
  rollup_parent-ok fuel targets c none aligned linked enough =
      (targets, refl, aligned, λ k t f h. f)
  rollup_parent-ok fuel targets c (some zero) aligned linked enough =
      (targets, refl, aligned, λ k t f h. f)
  rollup_parent-ok zero targets c (some (suc p)) aligned linked enough =
      let (t, found, up) = linked-found targets c (suc p) linked in
      absurd (level_max t.kind (omega arith))
  rollup_parent-ok (suc fuel) targets c (some (suc p)) aligned linked enough =
      let (t, found, up) = linked-found targets c (suc p) linked in
      let v = rolled_up num targets t in
      let (new, ends, kept, same) =
        rollup_parent-ok fuel (update_by (λ x. x.id == suc p) (set_current num v) targets) t.kind
          t.parent_target_id (write-IsAligned targets (suc p) v found aligned)
          (write-IsLinked targets (suc p) v found aligned) (omega arith) in
      (
        new,
        rollup_parent-step fuel targets (suc p) found ends,
        kept,
        λ k s f h.
            same k s
              (write-other targets k (suc p) v
                  (kind_below-ne targets k (suc p) f found (omega arith))
                ∙ f)
              (omega arith),
      )

  -- The whole of what an entry's change writes: the sum of the target's entries, and the parents.
  pub refresh-ok :
      (targets : List (Target V)) (entries : List (TargetEntry V)) (k : Key) {t : Target V}
      → IsAligned targets
      → find_by (λ x. x.id == k) targets ≡ some t
      → (new : List (Target V)) × (refresh num targets entries k t.parent_target_id ≡ ok new)
        × IsAligned new
        × (find_by (λ x. x.id == k) new ≡ some (set_current num (total_of num entries k) t))
  unfolding refresh
  refresh-ok targets entries k {t} aligned found =
      let v = total_of num entries k in
      let (new, ends, kept, same) =
        rollup_parent-ok 2 (update_by (λ x. x.id == k) (set_current num v) targets) t.kind
          t.parent_target_id (write-IsAligned targets k v found aligned)
          (write-IsLinked targets k v found aligned) (omega arith) in
      (
        new,
        ends,
        kept,
        same k (set_current num v t)
            (rw (==_refl k, found) at
              (find_by-update_by (λ x. x.id) k k (set_current num v) targets (λ x. refl)))
            (omega arith),
      )
