-- ===== src/Review/Lifecycle.antt =====
-- The life of a review cycle.
use teamos_backend.Prelude.{
  ◌≡◌, ◌≢◌, ◌⊎◌, inl, inr, refl, sym, ap, ◌∙◌, some, List, Key, arith, ◌==◌, ◌&&◌, ok, find_by,
  update_by, All, is_some, not, some-eq, none, true, delete_by, Bool-cases, ==_iff,
}
use teamos_backend.Amounts.{Amounts}
use teamos_backend.Rows.{
  HasKeys, HasKeys-append, HasKeys-update_by, HasKeys-delete_by, All-append, All-update_at,
  All-filter_by, All-find_by, find_by-owned, find_by-update_by, find_by-delete_by, find_by-append,
}
use teamos_backend.Review.Model.{
  ReviewCycleStatus, draft, active, calibrating, completed, TemplateSection, ReviewTemplate,
  ReviewCycle, ReviewDb, UpdateReviewCycleDto,
}
use teamos_backend.Review.Templates.{is_started}
use teamos_backend.Review.Cycles.{
  new_cycle, patch_cycle, set_cycle_status, check_update_cycle, check_remove_cycle,
  check_transition,
}
use teamos_backend.Review.Activation.{activate, check_activate}
use teamos_backend.Review.Closing.{check_complete}
use teamos_backend.Review.Service.{ReviewRequest, handle_review}
use teamos_backend.Review.Writes.{keeps, adds, edits, drops, starts, calibrates, closes, MakesCycle}
use teamos_backend.Review.Frame.{handle_review-Frame}

-- A cycle has its copy of the template exactly when it has been activated.
abbrev pub HasSnapshot : ReviewCycle → Type 0
HasSnapshot c = is_some c.template_snapshot ≡ is_started c.status

pub record AreCycles (cycles : List ReviewCycle) : Type 0 where
  pub keys : HasKeys (λ c. c.id) cycles
  pub snapshots : All HasSnapshot cycles

-- How a request may change a cycle.
pub data CycleStep (c d : ReviewCycle) : Type 0 where
  edited : (dto : UpdateReviewCycleDto) → c.status ≡ draft → d ≡ patch_cycle dto c → CycleStep c d
  started :
      (sections : List TemplateSection) → c.status ≡ draft → d ≡ activate sections c → CycleStep c d
  calibrated : c.status ≡ active → d ≡ set_cycle_status calibrating c → CycleStep c d
  closed : c.status ≡ calibrating → d ≡ set_cycle_status completed c → CycleStep c d

-- What may have become of a cycle with the identifier.
abbrev pub Fate : Key → List ReviewCycle → ReviewCycle → Type 0
Fate k cycles c =
    ((find_by (λ x. x.id == k) cycles ≡ none) × (c.status ≡ draft))
    ⊎ ((d : ReviewCycle) × (find_by (λ x. x.id == k) cycles ≡ some d) × ((d ≡ c) ⊎ CycleStep c d))

module _ {V : Type 0} where
  -- What the check of a write has found.
  abbrev Found : ReviewDb V → Key → Key → ReviewCycleStatus → ReviewCycle → Type 0
  Found db org k status c =
      (find_by (λ c. c.id == k && c.organization_id == org) db.cycles ≡ some c)
      × (c.status ≡ status)

  check_update_cycle-facts :
      (org k : Key) (dto : UpdateReviewCycleDto) (db : ReviewDb V) (c : ReviewCycle)
      → check_update_cycle org k dto db ≡ ok c
      → Found db org k draft c
  unfolding check_update_cycle
  check_update_cycle-facts org k dto db c h = ground arith

  check_remove_cycle-facts :
      (org k : Key) (db : ReviewDb V) (c : ReviewCycle)
      → check_remove_cycle org k db ≡ ok c
      → Found db org k draft c
  unfolding check_remove_cycle
  check_remove_cycle-facts org k db c h = ground arith

  pub check_activate-facts :
      (org k : Key) (db : ReviewDb V) (c : ReviewCycle) (t : ReviewTemplate)
      → check_activate org k db ≡ ok (c, t)
      → Found db org k draft c
  unfolding check_activate
  check_activate-facts org k db c t h = ground arith

  check_transition-facts :
      (org k : Key) (db : ReviewDb V) (c : ReviewCycle)
      → check_transition org k db ≡ ok c
      → Found db org k active c
  unfolding check_transition
  check_transition-facts org k db c h = ground arith

  check_complete-facts :
      (org k : Key) (db : ReviewDb V) (c : ReviewCycle)
      → check_complete org k db ≡ ok c
      → Found db org k calibrating c
  unfolding check_complete
  check_complete-facts org k db c h = ground arith

  -- What the database guarantees of the identifiers that it makes up.
  abbrev pub IsNewCycle : ReviewRequest V → ReviewDb V → Type 0
  IsNewCycle q db = (k : Key) → MakesCycle q k → All (λ c. c.id ≢ k) db.cycles

  row_at :
      (org k : Key) (db : ReviewDb V) {status : ReviewCycleStatus} {c : ReviewCycle}
      → AreCycles db.cycles
      → Found db org k status c
      → find_by (λ x. x.id == k) db.cycles ≡ some c
  row_at org k db right found =
      find_by-owned (λ x. x.id) (λ x. x.organization_id) k org db.cycles right.keys found.0

  rewrite-AreCycles :
      (org k : Key) (f : ReviewCycle → ReviewCycle) (db : ReviewDb V) {status : ReviewCycleStatus}
      {c : ReviewCycle}
      → ((x : ReviewCycle) → (f x).id ≡ x.id)
      → Found db org k status c
      → (HasSnapshot c → c.status ≡ status → HasSnapshot (f c))
      → AreCycles db.cycles
      → AreCycles (update_by (λ x. x.id == k) f db.cycles)
  rewrite-AreCycles org k f db {status} {c} same found step right =
      let row = row_at org k db right found in
      record {
        keys = HasKeys-update_by (λ x. x.id) (λ x. x.id == k) f db.cycles same right.keys;
        snapshots =
            All-update_at (λ x. x.id) HasSnapshot k f db.cycles right.keys row
              (step (All-find_by HasSnapshot (λ x. x.id == k) db.cycles right.snapshots row)
                found.1)
              right.snapshots;
      }

  -- Whatever a request asks for, after it the cycles have distinct identifiers, and each has its
  -- copy of the template exactly when it is no draft any more, if that was so before and the
  -- database makes up an identifier that no cycle has.
  pub handle_review-AreCycles :
      (num : Amounts V) (q : ReviewRequest V) (db : ReviewDb V)
      → IsNewCycle q db
      → AreCycles db.cycles
      → AreCycles (handle_review num q db).cycles
  unfolding new_cycle patch_cycle
  handle_review-AreCycles num q db new right = elim ((handle_review-Frame num q db).cycles) [
    | keeps e ↦ rw e right
    | adds k org user dto made e ↦ rw e (record {
      keys =
          HasKeys-append (λ x. x.id) db.cycles (new_cycle k org user dto) right.keys (new k made);
      snapshots = All-append HasSnapshot db.cycles (new_cycle k org user dto) right.snapshots refl;
    })
    | edits org k dto c checked e ↦ rw e (
        rewrite-AreCycles org k (patch_cycle dto) db (λ x. refl)
          (check_update_cycle-facts org k dto db c checked) (λ h s. h) right)
    | drops org k c checked e ↦ rw e (record {
      keys = HasKeys-delete_by (λ x. x.id) (λ x. x.id == k) db.cycles right.keys;
      snapshots = All-filter_by HasSnapshot (λ x. not (x.id == k)) db.cycles right.snapshots;
    })
    | starts org k c sections t checked e ↦ rw e (
        rewrite-AreCycles org k (activate sections) db (λ x. refl)
          (check_activate-facts org k db c t checked) (λ h s. refl) right)
    | calibrates org k c checked e ↦ rw e (
        rewrite-AreCycles org k (set_cycle_status calibrating) db (λ x. refl)
          (check_transition-facts org k db c checked) (λ h s. rw s at h) right)
    | closes org k c checked e ↦ rw e (
        rewrite-AreCycles org k (set_cycle_status completed) db (λ x. refl)
          (check_complete-facts org k db c checked) (λ h s. rw s at h) right)
  ]

  -- The row that a check has found is the cycle with the same identifier.
  status_at :
      (org j k : Key) (db : ReviewDb V) {status : ReviewCycleStatus} {x c : ReviewCycle}
      → AreCycles db.cycles
      → Found db org j status x
      → find_by (λ y. y.id == k) db.cycles ≡ some c
      → (k == j) ≡ true
      → c.status ≡ status
  status_at org j k db right found before e =
      let row = row_at org j db right found in
      ap (λ y. y.status) (some-eq (sym before ∙ (rw (← (==_iff k j).0 e) at row))) ∙ found.1

  updated-Fate :
      (org j k : Key) (f : ReviewCycle → ReviewCycle) (db : ReviewDb V) (status : ReviewCycleStatus)
      {x c : ReviewCycle}
      → ((y : ReviewCycle) → (f y).id ≡ y.id)
      → AreCycles db.cycles
      → Found db org j status x
      → (c.status ≡ status → CycleStep c (f c))
      → find_by (λ y. y.id == k) db.cycles ≡ some c
      → Fate k (update_by (λ y. y.id == j) f db.cycles) c
  updated-Fate org j k f db status {x} {c} same right found step before =
      let row = find_by-update_by (λ y. y.id) k j f db.cycles same in
      elim (Bool-cases (k == j)) [
        | inl e ↦
            inr (f c, row ∙ rw (e, before), inr (step (status_at org j k db right found before e)))
        | inr e ↦ inr (c, row ∙ rw (e, before), inl refl)
      ]

  dropped-Fate :
      (org j k : Key) (db : ReviewDb V) {x c : ReviewCycle}
      → AreCycles db.cycles
      → Found db org j draft x
      → find_by (λ y. y.id == k) db.cycles ≡ some c
      → Fate k (delete_by (λ y. y.id == j) db.cycles) c
  dropped-Fate org j k db {x} {c} right found before =
      let row = find_by-delete_by (λ y. y.id) k j db.cycles in
      elim (Bool-cases (k == j)) [
        | inl e ↦ inl (row ∙ rw e, status_at org j k db right found before e)
        | inr e ↦ inr (c, row ∙ rw (e, before), inl refl)
      ]

  -- Of a stored cycle, a request leaves one of these: no cycle, if it was a draft; the same cycle;
  -- a draft's edited one; or the cycle moved on: from a draft to an active one with a copy of the
  -- template, from there to calibration, and from there to a completed one, which nothing changes
  -- or deletes any more. Identifiers are distinct, and a cycle has its copy of the template exactly
  -- when it has been activated.
  pub handle_review-CycleStep :
      (num : Amounts V) (q : ReviewRequest V) (db : ReviewDb V) (k : Key) (c : ReviewCycle)
      → AreCycles db.cycles
      → find_by (λ x. x.id == k) db.cycles ≡ some c
      → ((find_by (λ x. x.id == k) (handle_review num q db).cycles ≡ none) × (c.status ≡ draft))
        ⊎ ((d : ReviewCycle) × (find_by (λ x. x.id == k) (handle_review num q db).cycles ≡ some d)
            × ((d ≡ c) ⊎ CycleStep c d))
  unfolding patch_cycle
  handle_review-CycleStep num q db k c right before = elim ((handle_review-Frame num q db).cycles) [
    | keeps e ↦ inr (c, rw e before, inl refl)
    | adds i org user dto made e ↦
        let kept =
          find_by-append (λ x. x.id) (λ x. x.id == k) db.cycles (new_cycle i org user dto) before in
        inr (c, rw e kept, inl refl)
    | edits org j dto x checked e ↦ rw e (
        updated-Fate org j k (patch_cycle dto) db draft (λ y. refl) right
          (check_update_cycle-facts org j dto db x checked) (λ s. edited dto s refl) before)
    | drops org j x checked e ↦
        rw e (dropped-Fate org j k db right (check_remove_cycle-facts org j db x checked) before)
    | starts org j x sections t checked e ↦ rw e (
        updated-Fate org j k (activate sections) db draft (λ y. refl) right
          (check_activate-facts org j db x t checked) (λ s. started sections s refl) before)
    | calibrates org j x checked e ↦ rw e (
        updated-Fate org j k (set_cycle_status calibrating) db active (λ y. refl) right
          (check_transition-facts org j db x checked) (λ s. calibrated s refl) before)
    | closes org j x checked e ↦ rw e (
        updated-Fate org j k (set_cycle_status completed) db calibrating (λ y. refl) right
          (check_complete-facts org j db x checked) (λ s. closed s refl) before)
  ]
