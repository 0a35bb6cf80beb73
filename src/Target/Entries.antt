-- ===== src/Target/Entries.antt =====
-- `TargetService.addEntry`, `deleteEntry`, `rollupParent` and `checkEntryAccess`
use Prim.Native.String.{String}
use teamos_backend.Prelude.{
  ℕ, zero, suc, Bool, true, false, Option, none, some, List, [], ◌∷◌, ◌++◌, Key, truthy, same_key,
  find_by, filter_by, update_by, delete_by, length, Result, ok, err, bad_request, forbidden,
  internal_error, or_throw, throw_if, ◌>>=◌, ◌>>◌, ◌==◌, ◌&&◌, ◌||◌, not, leb, if◌then◌else◌,
}
use teamos_backend.Roles.{Role, supervisor, admin, acting_rank, outranks}
use teamos_backend.Directory.{find_member, find_profile}
use teamos_backend.Outbox.{Effect, emit, delete_file}
use teamos_backend.Task.{role_or_member}
use teamos_backend.Amounts.{Amounts}
use teamos_backend.Target.Model.{
  company, team, individual, TargetStatus, completed, missed, Target, TargetEntry, TargetMessage,
  target_entry_added, target_entry_deleted, TargetDb, Fault, Answer, climb_unfinished, foreign_key,
  target_missing, target_closed, may_not_log, may_not_delete, entry_missing,
  entry_of_other_organization,
}
use teamos_backend.Target.Alignment.{find_target}

abbrev pub is_closed : TargetStatus → Bool
is_closed completed = true
is_closed missed = true
is_closed _ = false

pub record CreateEntryDto (V : Type 0) : Type 0 where
  pub value : V
  pub note : Option String

-- What `UploadService.uploadTargetEntryAttachment` answers with, if a file was sent.
pub record EntryFile : Type 0 where
  pub url : String
  pub file_name : String

abbrev file_url : Option EntryFile → Option String
file_url none = none
file_url (some f) = some f.url

abbrev file_name_of : Option EntryFile → Option String
file_name_of none = none
file_name_of (some f) = some f.file_name

module _ {V : Type 0} where
  -- `callerProfile?.departmentId === target.departmentId`: of a missing profile it is undefined,
  -- and no target's.
  abbrev pub in_department : TargetDb V → Key → Key → Target V → Bool
  in_department db org user t = elim (find_profile db.profiles org user) [
    | none ↦ false
    | some p ↦ same_key p.department_id t.department_id
  ]

  -- `checkEntryAccess`, as the test that it makes on each kind of target.
  unfoldable pub may_log : TargetDb V → Key → Target V → Key → Option Role → Bool
  may_log db org t user role = leb (acting_rank (some admin)) (acting_rank role) || (elim t.kind [
    | company ↦ false
    | individual ↦
        same_key t.assigned_to_id (some user)
        || (leb (acting_rank (some supervisor)) (acting_rank role) && in_department db org user t)
    | team ↦ in_department db org user t
  ])

  unfoldable pub check_add : Key → Key → Key → Option Role → TargetDb V → Result Fault (Target V)
  check_add org k user role db = do
    target ← or_throw (find_target db.targets org k) bad_request target_missing
    throw_if (is_closed target.status) bad_request target_closed
    throw_if (not (may_log db org target user role)) forbidden may_not_log
    ok target

  module _ (num : Amounts V) where
    open num use {nil, plus, times, over, from_count, is_nil, round_cents}

    -- `aggregate({ where: { targetId }, _sum: { value: true } })._sum.value ?? 0`
    unfoldable pub sum_values : List (TargetEntry V) → V
    sum_values [] = nil
    sum_values (e ∷ es) = plus e.value (sum_values es)

    unfoldable pub total_of : List (TargetEntry V) → Key → V
    unfolding sum_values
    total_of entries k = sum_values (filter_by (λ e. e.target_id == k) entries)

    -- The `reduce` of `rollupParent`, from the left.
    unfoldable pub total_progress : V → List (Target V) → V
    total_progress sum [] = sum
    total_progress sum (child ∷ children) =
        total_progress
          (if is_nil child.target_value
            then sum
            else plus sum (over child.current_value child.target_value))
          children

    abbrev pub set_current : V → Target V → Target V
    set_current v t = record t { current_value = v }

    unfoldable pub rolled_up : List (Target V) → Target V → V
    unfolding total_progress
    rolled_up targets parent =
        let children = filter_by (λ t. same_key t.parent_target_id (some parent.id)) targets in
        let average = over (total_progress nil children) (from_count (length children)) in
        round_cents (times average parent.target_value)

    -- `rollupParent` on fuel: the parent's value, then that of its parent.
    unfoldable pub rollup_parent : ℕ → List (Target V) → Option Key → Result Fault (List (Target V))
    rollup_parent fuel targets none = ok targets
    rollup_parent zero targets (some k) = err internal_error climb_unfinished
    rollup_parent (suc fuel) targets (some k) = elim (find_by (λ t. t.id == k) targets) [
      | none ↦ err internal_error foreign_key
      | some parent ↦
          rollup_parent fuel
            (update_by (λ t. t.id == k) (set_current (rolled_up targets parent)) targets)
            (truthy parent.parent_target_id)
    ]

    -- A link leads to a higher kind of target, so a chain has at most two.
    unfoldable pub refresh :
        List (Target V) → List (TargetEntry V) → Key → Option Key → Result Fault (List (Target V))
    unfolding rollup_parent rolled_up total_of
    refresh targets entries k parent =
        rollup_parent 2 (update_by (λ t. t.id == k) (set_current (total_of entries k)) targets)
          (truthy parent)

    unfoldable pub new_entry : Key → Key → Key → CreateEntryDto V → Option EntryFile → TargetEntry V
    new_entry new_id k user dto file = record {
      id = new_id;
      target_id = k;
      user_id = user;
      value = dto.value;
      note = dto.note;
      attachment_url = file_url file;
      attachment_name = file_name_of file;
    }

    unfoldable pub add_entry :
        Key
        → Key
        → Key
        → Key
        → Option Role
        → CreateEntryDto V
        → Option EntryFile
        → TargetDb V
        → Answer V (TargetEntry V × V)
    unfolding new_entry
    add_entry new_id org k user role dto file db = do
      target ← check_add org k user role db
      let entry = new_entry new_id k user dto file
      let entries = db.entries ++ entry ∷ []
      targets ← refresh db.targets entries k target.parent_target_id
      ok (
        (entry, total_of entries k),
        record db {
          targets = targets;
          entries = entries;
          outbox = db.outbox ++ emit org (target_entry_added k entry (total_of entries k)) ∷ [];
        },
      )

    abbrev pub file_deletion : Option String → List (Effect (TargetMessage V))
    file_deletion none = []
    file_deletion (some String.[]) = []
    file_deletion (some (String.◌∷◌ c s)) = delete_file (String.◌∷◌ c s) ∷ []

    abbrev find_entry : TargetDb V → Key → Key → Option (TargetEntry V)
    find_entry db k entry_id = find_by (λ e. e.id == entry_id && e.target_id == k) db.entries

    unfoldable pub check_delete :
        Key → Key → Key → Key → Option Role → TargetDb V → Result Fault (TargetEntry V × Target V)
    check_delete org k entry_id user role db = do
      entry ← or_throw (find_entry db k entry_id) bad_request entry_missing
      target ← or_throw (find_by (λ t. t.id == k) db.targets) internal_error foreign_key
      throw_if (not (target.organization_id == org)) forbidden entry_of_other_organization
      throw_if
          (not (
            entry.user_id == user
            || outranks role (some (role_or_member (find_member db.members org entry.user_id)))))
          forbidden may_not_delete
      ok (entry, target)

    unfoldable pub delete_entry :
        Key → Key → Key → Key → Option Role → TargetDb V → Answer V (Unit {0})
    delete_entry org k entry_id user role db = do
      found ← check_delete org k entry_id user role db
      let entries = delete_by (λ e. e.id == entry_id) db.entries
      targets ← refresh db.targets entries k found.1.parent_target_id
      ok (
        tt,
        record db {
          targets = targets;
          entries = entries;
          outbox =
              db.outbox
              ++ (file_deletion found.0.attachment_url
                  ++ emit org (target_entry_deleted entry_id) ∷ []);
        },
      )
