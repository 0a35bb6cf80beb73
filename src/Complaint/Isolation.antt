-- ===== src/Complaint/Isolation.antt =====
-- Requests on complaints are kept to one organization.
use teamos_backend.Prelude.{
  ◌≡◌, refl, some, none, Option, List, Key, arith, find_by, ok, some-eq, store_after-keeps,
}
use teamos_backend.Rows.{others, others-append, others-update_by, others-delete_by}
use teamos_backend.Complaint.Model.{Complaint, ComplaintDb, UpdateComplaintStatusDto, owned_by}
use teamos_backend.Roles.{Role}
use teamos_backend.Complaint.Filing.{check_create, new_complaint, create}
use teamos_backend.Complaint.Handling.{
  check_status, set_status, update_status, check_delete, delete,
}
use teamos_backend.Complaint.Service.{
  ComplaintRequest, files, updates_status, deletes, marks_late, handle_complaint,
}
use teamos_backend.Complaint.Transitions.{check_status-facts}
use teamos_backend.Complaint.Closing.{IsOrderly}

-- The organization that a request is made for; the scheduled job is for all.
abbrev pub organization_of : ComplaintRequest → Option Key
organization_of (files _ _ _ org _ _) = some org
organization_of (updates_status _ org _ _ _ _ _) = some org
organization_of (deletes org _ _ _) = some org
organization_of (marks_late _) = none

abbrev pub complaints_of_others : Key → List Complaint → List Complaint
complaints_of_others = others (λ c. c.id) (λ c. c.organization_id)

check_delete-found :
    (org k user : Key) (role : Role) (db : ComplaintDb) (c : Complaint)
    → check_delete org k user role db ≡ ok c
    → find_by (owned_by org k) db.complaints ≡ some c
unfolding check_delete
check_delete-found org k user role db c h = ground arith

set_status-organization :
    (now user : _) (dto : UpdateComplaintStatusDto) (c : Complaint)
    → (set_status now user dto c).organization_id ≡ c.organization_id
unfolding set_status
set_status-organization now user dto c = ground arith

-- A request made for one organization leaves the complaints of all others as they were, if the
-- identifiers of complaints are distinct.
pub handle_complaint-others :
    (q : ComplaintRequest) (db : ComplaintDb) (org : Key)
    → organization_of q ≡ some org
    → IsOrderly db.complaints
    → complaints_of_others org (handle_complaint q db).complaints
      ≡ complaints_of_others org db.complaints
unfolding handle_complaint create update_status delete new_complaint
handle_complaint-others (files k ids now o user dto) db org mine orderly =
    let same = some-eq mine in
    rw (← same) (
      store_after-keeps
        (λ d. complaints_of_others o d.complaints ≡ complaints_of_others o db.complaints) db
        (check_create o user dto db) _ refl
        (λ u e.
          others-append (λ c. c.id) (λ c. c.organization_id) o db.complaints
            (new_complaint k now o user dto) refl))
handle_complaint-others (updates_status now o k user role dto ip) db org mine orderly =
    let same = some-eq mine in
    rw (← same) (
      store_after-keeps
        (λ d. complaints_of_others o d.complaints ≡ complaints_of_others o db.complaints) db
        (check_status o k user role dto.status db) _ refl
        (λ c e.
          others-update_by (λ c. c.id) (λ c. c.organization_id) k o (set_status now user dto)
            db.complaints {x = c} (set_status-organization now user dto) orderly.keys
            (check_status-facts o k user role dto.status db e).0))
handle_complaint-others (deletes o k user role) db org mine orderly =
    let same = some-eq mine in
    rw (← same) (
      store_after-keeps
        (λ d. complaints_of_others o d.complaints ≡ complaints_of_others o db.complaints) db
        (check_delete o k user role db) _ refl
        (λ c e.
          others-delete_by (λ c. c.id) (λ c. c.organization_id) k o db.complaints {x = c}
            orderly.keys (check_delete-found o k user role db c e)))
handle_complaint-others (marks_late now) db org mine orderly = absurd (ground arith)
