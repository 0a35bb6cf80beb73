-- ===== src/Target/Tests.antt =====
-- Runs of the target service on a small store, and its theorems at that store.
use teamos_backend.Prelude.{
  All, err, forbidden, ℕ, ◌<◌, ◌≡◌, ◌↔◌, refl, Option, none, some, [], ◌∷◌, ◌++◌, Key, arith, ok,
  find_by, delete_by, ◌==◌, map,
}
use teamos_backend.Roles.{member, admin}
use teamos_backend.Directory.{active}
use teamos_backend.Amounts.{whole}
use teamos_backend.Target.Model.{
  not_your_team, TargetType, company, team, individual, on_track, Target, TargetEntry, TargetDb,
  UpdateTargetDto,
}
use teamos_backend.Target.Alignment.{find_target, validate_alignment}
use teamos_backend.Target.Entries.{
  CreateEntryDto, check_add, may_log, refresh, total_of, new_entry, add_entry, check_delete,
  delete_entry,
}
use teamos_backend.Target.Hierarchy.{level, kind_at, IsAligned}
use teamos_backend.Target.Alignments.{validate_alignment_exact}
use teamos_backend.Target.Service.{adds_entry, updates, handle_target}
use teamos_backend.Target.Queries.{QueryTargetsDto, in_view, passes, find_all, find_one}
use teamos_backend.Target.Visibility.{find_all-find_one}
use teamos_backend.Target.Upkeep.{handle_target-IsAligned, add_entry-total, delete_entry-total}

abbrev target : Key → TargetType → Option Key → Option Key → Target ℕ
target id kind parent assignee = record {
  id = id;
  organization_id = 1;
  title = "t";
  description = none;
  kind = kind;
  parent_target_id = parent;
  target_value = 10;
  current_value = 0;
  status = on_track;
  period = none;
  deadline = 9;
  assigned_to_id = assignee;
  created_by_id = 11;
  department_id = some 31;
}

abbrev entry : Key → Key → Key → ℕ → TargetEntry ℕ
entry id k user value = record {
  id = id;
  target_id = k;
  user_id = user;
  value = value;
  note = none;
  attachment_url = none;
  attachment_name = none;
}

-- The company's target 41, the team's 42 under it, and the member's 43 under that.
abbrev db : TargetDb ℕ
db = record {
  members =
      record { id = 1; organization_id = 1; user_id = 11; role = admin }
      ∷ record { id = 3; organization_id = 1; user_id = 13; role = member }
      ∷ [];
  profiles =
      record {
        user_id = 13;
        organization_id = 1;
        department_id = some 31;
        supervisor_id = none;
        status = active;
      }
      ∷ [];
  departments = [];
  targets =
      target 41 company none none
      ∷ target 42 team (some 41) none
      ∷ target 43 individual (some 42) (some 13)
      ∷ [];
  entries = entry 61 43 13 4 ∷ [];
  outbox = [];
}

db-IsAligned : IsAligned db.targets
unfolding kind_at
db-IsAligned = record { keys = omega arith; ids = omega arith; links = omega arith }

abbrev dto : CreateEntryDto ℕ
dto = record { value = 6; note = none }

-- The entry fills the member's target, and with it the two above.
values_after :
    map
      (λ t. t.current_value)
      (handle_target whole (adds_entry 62 1 43 13 (some member) dto none) db).targets
    ≡ 10 ∷ 10 ∷ 10 ∷ []
unfolding handle_target add_entry check_add may_log refresh
values_after = refl

abbrev under : Key → UpdateTargetDto ℕ
under k = record {
  title = none;
  description = none;
  status = none;
  target_value = none;
  deadline = none;
  parent_target_id = some (some k);
  assigned_to_id = none;
  department_id = none;
  period = none;
}

handle_target-IsAligned_example :
    IsAligned (handle_target whole (updates 1 43 11 (some admin) (under 41)) db).targets
handle_target-IsAligned_example =
    handle_target-IsAligned whole (updates 1 43 11 (some admin) (under 41)) db tt db-IsAligned

validate_alignment_exact_example :
    (validate_alignment db.targets 1 41 individual (some 43) ≡ ok tt)
    ↔ ((q : Target ℕ) × (find_target db.targets 1 41 ≡ some q) × (level individual < level q.kind))
validate_alignment_exact_example =
    validate_alignment_exact db.targets 1 41 individual (some 43) db-IsAligned
      (unfold kind_at in λ k e. ground arith)

abbrev own : Target ℕ
own = target 43 individual (some 42) (some 13)

own-checked : check_add 1 43 13 (some member) db ≡ ok own
unfolding check_add may_log
own-checked = refl

own-deletable : check_delete whole 1 43 61 13 (some member) db ≡ ok (entry 61 43 13 4, own)
unfolding check_delete
own-deletable = refl

add_entry-total_example :
    (new : TargetDb ℕ) × (add_entry whole 62 1 43 13 (some member) dto none db
      ≡ ok ((new_entry whole 62 43 13 dto none, total_of whole new.entries 43), new))
    × (new.entries ≡ db.entries ++ new_entry whole 62 43 13 dto none ∷ [])
    × IsAligned new.targets
    × (find_by (λ x. x.id == 43) new.targets
        ≡ some (record own { current_value = total_of whole new.entries 43 }))
add_entry-total_example =
    add_entry-total whole 62 1 43 13 (some member) dto none db db-IsAligned own-checked

delete_entry-total_example :
    (new : TargetDb ℕ) × (delete_entry whole 1 43 61 13 (some member) db ≡ ok (tt, new))
    × (new.entries ≡ delete_by (λ e. e.id == 61) db.entries)
    × IsAligned new.targets
    × (find_by (λ x. x.id == 43) new.targets
        ≡ some (record own { current_value = total_of whole new.entries 43 }))
delete_entry-total_example =
    delete_entry-total whole 1 43 61 13 (some member) db db-IsAligned own-deletable

abbrev all_targets : QueryTargetsDto
all_targets = record {
  kind = none;
  status = none;
  department_id = none;
  assigned_to_id = none;
  period = none;
}

listed : find_all 1 13 all_targets db ≡ ok db.targets
unfolding find_all in_view passes
listed = refl

find_all-find_one_example : All (λ t. find_one 1 t.id 13 (some member) db ≡ ok t) db.targets
find_all-find_one_example =
    find_all-find_one 1 13 all_targets db
      (record { id = 3; organization_id = 1; user_id = 13; role = member })
      (record {
        user_id = 13;
        organization_id = 1;
        department_id = some 31;
        supervisor_id = none;
        status = active;
      })
      db-IsAligned.keys refl refl listed

-- A member without a profile is shown a team's target that the single view refuses.
shown_but_refused :
    (find_all 1 13 all_targets (record db { profiles = [] }) ≡ ok db.targets)
    × (find_one 1 42 13 (some member) (record db { profiles = [] }) ≡ err forbidden not_your_team)
unfolding find_all in_view passes find_one
shown_but_refused = (refl, refl)
