-- ===== src/Complaint/Tests.antt =====
-- Runs of the complaint service on a small store, and its theorems at that store.
use teamos_backend.Prelude.{
  ℕ, map, ◌+◌, ◌≤◌, any_by, ◌≡◌, ◌⊎◌, ◌↔◌, refl, true, none, some, [], ◌∷◌, Key, arith, ◌==◌,
  find_by, ok, err, count_by, forbidden,
}
use teamos_backend.Rows.{AreRelated, IsCount}
use teamos_backend.Roles.{supervisor, admin}
use teamos_backend.Directory.{active}
use teamos_backend.Outbox.{medium}
use teamos_backend.Complaint.Model.{
  ComplaintStatus, opened, in_review, late, resolved, Complaint, ComplaintDb, bug, owned_by,
  UpdateComplaintStatusDto, no_access, same_status,
}
use teamos_backend.Complaint.Handling.{
  check_status, set_status, update_status, mark_late_complaints, delete, check_delete,
}
use teamos_backend.Complaint.Listing.{is_visible, find_one, get_stats, find_all, ComplaintQueryDto}
use teamos_backend.Complaint.Service.{updates_status, deletes, handle_complaint}
use teamos_backend.Complaint.Transitions.{Transition, Moves, MayAsk, update_status_exact}
use teamos_backend.Complaint.Closing.{IsOrderly, handle_complaint-IsOrderly, handle_complaint-Moves}
use teamos_backend.Complaint.Lateness.{IsAged, mark_late_complaints_exact}
use teamos_backend.Complaint.Visibility.{IsShown, complaint_stats_exact}
use teamos_backend.Complaint.Isolation.{complaints_of_others, handle_complaint-others}
use teamos_backend.Complaint.Listed.{Passes, find_all_exact}

abbrev row : Key → Key → ComplaintStatus → ℕ → Complaint
row id user status created_at = record {
  id = id;
  organization_id = 1;
  title = "c";
  description = "d";
  category = bug;
  priority = medium;
  status = status;
  resolution = none;
  resolved_at = none;
  user_id = user;
  resolved_by_id = none;
  created_at = created_at;
  updated_at = created_at;
}

-- The member 13, whose supervisor is 12, has filed a complaint that names 14; another one is in
-- review.
abbrev db : ComplaintDb
db = record {
  members = record { id = 1; organization_id = 1; user_id = 11; role = admin } ∷ [];
  profiles =
      record {
        user_id = 13;
        organization_id = 1;
        department_id = none;
        supervisor_id = some 12;
        status = active;
      }
      ∷ [];
  complaints = row 41 13 opened 5 ∷ row 42 13 in_review 8000000 ∷ [];
  targets = record { id = 51; complaint_id = 41; user_id = 14 } ∷ [];
  outbox = [];
}

db-IsOrderly : IsOrderly db.complaints
db-IsOrderly = record { keys = omega arith; closed = ((refl, refl), ((refl, refl), tt)) }

abbrev closing : UpdateComplaintStatusDto
closing = record { status = resolved; resolution = none }

-- The supervisor of the submitter is shown a complaint that the single view refuses.
shown_but_refused :
    (is_visible db 1 12 supervisor (row 41 13 opened 5) ≡ true)
    × (find_one 1 41 12 supervisor db ≡ err forbidden no_access)
unfolding is_visible find_one
shown_but_refused = (refl, refl)

update_status_exact_example :
    ((a : Complaint × ComplaintDb) × (update_status 9 1 42 11 admin closing none db ≡ ok a)) ↔ (
      (c : Complaint) × (find_by (owned_by 1 42) db.complaints ≡ some c)
      × Transition c.status resolved
      × MayAsk db 42 11 admin resolved)
update_status_exact_example = update_status_exact 9 1 42 11 admin closing none db

handle_complaint-IsOrderly_example :
    IsOrderly (handle_complaint (updates_status 9 1 42 11 admin closing none) db).complaints
handle_complaint-IsOrderly_example =
    handle_complaint-IsOrderly (updates_status 9 1 42 11 admin closing none) db tt db-IsOrderly

closed_row :
    find_by
      (λ x. x.id == 42)
      (handle_complaint (updates_status 9 1 42 11 admin closing none) db).complaints
    ≡ some (set_status 9 11 closing (row 42 13 in_review 8000000))
unfolding handle_complaint update_status check_status
closed_row = refl

handle_complaint-Moves_example :
    (set_status 9 11 closing (row 42 13 in_review 8000000) ≡ row 42 13 in_review 8000000)
    ⊎ Moves in_review (set_status 9 11 closing (row 42 13 in_review 8000000)).status
handle_complaint-Moves_example =
    handle_complaint-Moves (updates_status 9 1 42 11 admin closing none) db 42
      (row 42 13 in_review 8000000) (set_status 9 11 closing (row 42 13 in_review 8000000)) tt
      db-IsOrderly refl closed_row

mark_late_complaints_exact_example :
    let after = mark_late_complaints 9000000 db in
    AreRelated (IsAged 9000000) db.complaints after.1.complaints
    × (count_by (λ c. same_status c.status late) after.1.complaints
        ≡ count_by (λ c. same_status c.status late) db.complaints + after.0)
mark_late_complaints_exact_example = mark_late_complaints_exact 9000000 db

abbrev of_bugs : ComplaintQueryDto
of_bugs = record {
  status = none;
  category = some bug;
  priority = none;
  page = none;
  limit = some 5;
}

-- The supervisor's list holds both complaints.
listed : (find_all 1 12 supervisor of_bugs db).total ≡ 2
unfolding find_all
listed = refl

find_all_exact_example :
    let answer = find_all 1 12 supervisor of_bugs db in
    (any_by (λ d. d.id == 41) answer.items ≡ true
      → IsShown db 1 12 supervisor (row 41 13 opened 5) × Passes of_bugs (row 41 13 opened 5))
    × (answer.page ≡ 1
        → answer.total ≤ answer.limit
        → IsShown db 1 12 supervisor (row 41 13 opened 5) × Passes of_bugs (row 41 13 opened 5)
        → any_by (λ d. d.id == 41) answer.items ≡ true)
find_all_exact_example = find_all_exact 1 41 12 supervisor of_bugs db db-IsOrderly.keys refl

counted : (get_stats 1 12 supervisor db).in_review ≡ 1
unfolding get_stats
counted = refl

complaint_stats_exact_example :
    IsCount
      (λ c. IsShown db 1 12 supervisor c × (c.status ≡ in_review))
      db.complaints
      (get_stats 1 12 supervisor db).in_review
complaint_stats_exact_example =
    complaint_stats_exact 1 12 supervisor (some in_review) db db-IsOrderly.keys

-- A complaint of another organization is there as well.
abbrev shared : ComplaintDb
shared = record db {
  complaints =
      row 41 13 opened 5
      ∷ row 42 13 in_review 8000000
      ∷ record (row 43 15 opened 5) { organization_id = 2 }
      ∷ [];
}

shared-IsOrderly : IsOrderly shared.complaints
shared-IsOrderly = record {
  keys = omega arith;
  closed = ((refl, refl), ((refl, refl), ((refl, refl), tt)));
}

one_less :
    map (λ c. c.id) (handle_complaint (deletes 1 41 11 admin) shared).complaints ≡ 42 ∷ 43 ∷ []
unfolding handle_complaint delete check_delete
one_less = refl

handle_complaint-others_example :
    complaints_of_others 1 (handle_complaint (deletes 1 41 11 admin) shared).complaints
    ≡ complaints_of_others 1 shared.complaints
handle_complaint-others_example =
    handle_complaint-others (deletes 1 41 11 admin) shared 1 refl shared-IsOrderly
