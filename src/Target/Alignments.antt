-- ===== src/Target/Alignments.antt =====
-- What `validateAlignment` accepts, in a table whose links lead to higher kinds.
use teamos_backend.Prelude.{
  zero, suc, ◌≤◌, ◌<◌, ◌≡◌, ◌↔◌, inl, inr, refl, Bool, true, false, Option, none, some, List, Key,
  arith, ◌==◌, ◌&&◌, ==_iff, Bool-cases, Option-cases, find_by, contains, truthy, Result, ok, err,
  bad_request, throw_if, ◌>>=◌,
}
use teamos_backend.Rows.{All-find_by, find_by-holds, find_by-owned}
use teamos_backend.Target.Model.{
  TargetType, Target, Fault, parent_missing, company_has_no_parent, parent_of_wrong_type,
}
use teamos_backend.Target.Alignment.{
  is_valid_parent, has_no_parent, find_target, climb, excluded, validate_alignment,
}
use teamos_backend.Target.Hierarchy.{level, IsAbove, kind_at, IsLinked, IsAligned}

valid_parent-iff_level : (c p : TargetType) → (is_valid_parent c p ≡ true) ↔ (level c < level p)
unfolding is_valid_parent
valid_parent-iff_level c p = ground arith

lower : (c p : TargetType) → level c < level p → has_no_parent c ≡ false
lower c p h = ground arith

pub level_max : (k : TargetType) → ¬ (2 < level k)
level_max k h = ground arith

-- The two tests on the kinds, the second of them failing.
abbrev kind_tests : Bool → Result Fault (Unit {0})
kind_tests top =
    throw_if top bad_request company_has_no_parent >>= λ _. err bad_request parent_of_wrong_type

refused : {A : Type 0} (top : Bool) → kind_tests top ≡ ok tt → A
refused true h = absurd (ground arith)
refused false h = absurd (ground arith)

module _ {V : Type 0} where
  pub find_target-facts :
      (targets : List (Target V)) (org k : Key) {t : Target V}
      → IsAligned targets
      → find_target targets org k ≡ some t
      → (find_by (λ x. x.id == k) targets ≡ some t)
        × (t.id ≡ k)
        × IsLinked targets t.kind t.parent_target_id
  find_target-facts targets org k {t} aligned h =
      let held : (t.id == k && t.organization_id == org) ≡ true =
        find_by-holds (λ x. x.id == k && x.organization_id == org) targets h in
      (
        find_by-owned (λ x. x.id) (λ x. x.organization_id) k org targets aligned.keys h,
        ground arith,
        All-find_by (λ x. IsLinked targets x.kind x.parent_target_id)
            (λ x. x.id == k && x.organization_id == org) targets aligned.links h,
      )

  -- A target of the highest kind has no link to follow.
  top_ends :
      (targets : List (Target V)) (c : TargetType) (link : Option Key)
      → IsLinked targets c link
      → 2 ≤ level c
      → link ≡ none
  top_ends targets c none h top = refl
  top_ends targets c (some p) h top = elim (Option-cases (kind_at targets p)) [
    | inl missing ↦ absurd (rw missing at h)
    | inr (k, e) ↦ let up : level c < level k = rw e at h in absurd (level_max k (omega arith))
  ]

  pub kind-above :
      (targets : List (Target V)) (k : Key) (c : TargetType) (t : Target V)
      → find_by (λ x. x.id == k) targets ≡ some t
      → IsAbove c (kind_at targets k)
      → level c < level t.kind
  unfolding kind_at
  kind-above targets k c t found above = rw found at above

  linked_to :
      (targets : List (Target V)) (q : Target V) (g : Key)
      → q.parent_target_id ≡ some g
      → IsLinked targets q.kind q.parent_target_id
      → IsAbove q.kind (kind_at targets g)
  linked_to targets q g e h = rw e at h

  climb-ok :
      (targets : List (Target V)) (org : Key) (visited : List Key) (parent : Target V)
      (link : Option Key)
      → IsAligned targets
      → IsLinked targets parent.kind link
      → 1 ≤ level parent.kind
      → ((g : Key) → link ≡ some g → contains visited g ≡ false)
      → climb 2 targets org visited 2 parent (truthy link) ≡ ok tt
  unfolding climb
  climb-ok targets org visited parent none aligned linked up new = refl
  climb-ok targets org visited parent (some zero) aligned linked up new = refl
  climb-ok targets org visited parent (some (suc g)) aligned linked up new =
      elim (Option-cases (find_target targets org (suc g))) [
        | inl missing ↦ rw (climb, new (suc g) refl, missing)
        | inr (t, found) ↦
            let facts = find_target-facts targets org (suc g) aligned found in
            let above : level parent.kind < level t.kind =
              kind-above targets (suc g) parent.kind t facts.0 linked in
            let last : t.parent_target_id ≡ none =
              top_ends targets t.kind t.parent_target_id facts.2 (omega arith) in
            rw (climb, new (suc g) refl, found, last)
      ]

  -- What the checks before the loop establish.
  pub valid_parent-facts :
      (targets : List (Target V)) (org p : Key) (child : TargetType) (exclude : Option Key)
      → validate_alignment targets org p child exclude ≡ ok tt
      → (q : Target V) × (find_target targets org p ≡ some q) × (level child < level q.kind)
  unfolding validate_alignment
  valid_parent-facts targets org p child exclude h =
      elim (Option-cases (find_target targets org p)) [
        | inl missing ↦ let bad : err bad_request parent_missing ≡ ok tt = rw missing at h in cc
        | inr (q, found) ↦ (
          q,
          found,
          elim (Bool-cases (is_valid_parent child q.kind)) [
            | inl valid ↦ (valid_parent-iff_level child q.kind).0 valid
            | inr invalid ↦ refused (has_no_parent child) (rw (found, invalid) at h)
          ],
        )
      ]

  not_excluded :
      (targets : List (Target V)) (c : TargetType) (q : Target V) (exclude : Option Key) (g : Key)
      → ((k : Key) → exclude ≡ some k → kind_at targets k ≡ some c)
      → level c < level q.kind
      → IsAbove q.kind (kind_at targets g)
      → contains (excluded (truthy exclude)) g ≡ false
  not_excluded targets c q none g own up above = refl
  not_excluded targets c q (some zero) g own up above = refl
  not_excluded targets c q (some (suc k)) g own up above = elim (Bool-cases (g == suc k)) [
    | inl same ↦
        let e : g ≡ suc k = (==_iff g (suc k)).0 same in
        let down : level q.kind < level c = rw (e, own (suc k) refl) at above in
        absurd (omega arith)
    | inr other ↦ rw other
  ]

  -- In a table whose links lead to higher kinds, a target may be linked to another exactly when
  -- that one belongs to the organization and is of a higher kind: the checks for cycles and for
  -- depth never refuse. (An excluded target is one of the child's kind.)
  pub validate_alignment_exact :
      (targets : List (Target V)) (org p : Key) (child : TargetType) (exclude : Option Key)
      → IsAligned targets
      → ((k : Key) → exclude ≡ some k → kind_at targets k ≡ some child)
      → (validate_alignment targets org p child exclude ≡ ok tt)
        ↔ ((q : Target V) × (find_target targets org p ≡ some q) × (level child < level q.kind))
  unfolding validate_alignment
  validate_alignment_exact targets org p child exclude aligned own = (
    valid_parent-facts targets org p child exclude,
    λ (q, found, up).
        let facts = find_target-facts targets org p aligned found in
        let valid : is_valid_parent child q.kind ≡ true =
          (valid_parent-iff_level child q.kind).1 up in
        let climbs =
          climb-ok targets org (excluded (truthy exclude)) q q.parent_target_id aligned facts.2
            (omega arith)
            (λ g e.
              not_excluded targets child q exclude g own up (linked_to targets q g e facts.2)) in
        rw (found, lower child q.kind up, valid, climbs),
  )
