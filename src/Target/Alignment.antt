-- ===== src/Target/Alignment.antt =====
-- `TargetService.validateAlignment`: what a target may be linked to.
use teamos_backend.Prelude.{
  ℕ, zero, suc, ◌+◌, Bool, true, false, Option, none, some, List, [], ◌∷◌, Key, truthy, contains,
  find_by, Result, ok, err, bad_request, internal_error, or_throw, throw_if, ◌>>=◌, ◌>>◌, ◌==◌,
  ◌&&◌, not, ltb,
}
use teamos_backend.Target.Model.{
  TargetType, company, team, individual, Target, Fault, parent_missing, company_has_no_parent,
  parent_of_wrong_type, circular_alignment, alignment_too_deep, climb_unfinished,
}

-- `VALID_PARENT_TYPES[childType].includes(parentType)`
unfoldable pub is_valid_parent : TargetType → TargetType → Bool
is_valid_parent individual team = true
is_valid_parent individual company = true
is_valid_parent team company = true
is_valid_parent _ _ = false

-- `!VALID_PARENT_TYPES[childType]`
abbrev pub has_no_parent : TargetType → Bool
has_no_parent company = true
has_no_parent _ = false

-- `if (excludeTargetId) visited.add(excludeTargetId)`
abbrev pub excluded : Option Key → List Key
excluded none = []
excluded (some k) = k ∷ []

module _ {V : Type 0} where
  -- `prisma.target.findUnique({ where: { id, organizationId: orgId } })`
  abbrev pub find_target : List (Target V) → Key → Key → Option (Target V)
  find_target targets org k = find_by (λ t. t.id == k && t.organization_id == org) targets

  -- The `while (current.parentTargetId)` loop on fuel, from `current` with its parent.
  unfoldable pub climb :
      ℕ → List (Target V) → Key → List Key → ℕ → Target V → Option Key → Result Fault (Unit {0})
  climb fuel targets org visited depth current none = ok tt
  climb zero targets org visited depth current (some parent) = err internal_error climb_unfinished
  climb (suc fuel) targets org visited depth current (some parent) =
      elim (contains visited parent) [
        | true ↦ err bad_request circular_alignment
        | false ↦ elim (ltb 3 (depth + 1)) [
          | true ↦ err bad_request alignment_too_deep
          | false ↦ elim (find_target targets org parent) [
            | none ↦ ok tt
            | some grandparent ↦
                climb fuel targets org (current.id ∷ visited) (depth + 1) grandparent
                  (truthy grandparent.parent_target_id)
          ]
        ]
      ]

  -- The loop's depth starts at 2 and may not pass 3, so two rounds are enough.
  unfoldable pub validate_alignment :
      List (Target V) → Key → Key → TargetType → Option Key → Result Fault (Unit {0})
  unfolding climb is_valid_parent
  validate_alignment targets org parent_id child exclude = do
    parent ← or_throw (find_target targets org parent_id) bad_request parent_missing
    throw_if (has_no_parent child) bad_request company_has_no_parent
    throw_if (not (is_valid_parent child parent.kind)) bad_request parent_of_wrong_type
    climb 2 targets org (excluded (truthy exclude)) 2 parent (truthy parent.parent_target_id)
