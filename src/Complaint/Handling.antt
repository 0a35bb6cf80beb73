-- ===== src/Complaint/Handling.antt =====
-- `ComplaintService.updateStatus`, `delete` and `markLateComplaints`
use Prim.Native.String.{String}
use teamos_backend.Prelude.{
  ℕ, ◌+◌, Bool, true, false, Option, some, List, [], ◌∷◌, ◌++◌, Key, truthy_text, find_by,
  filter_by, update_by, delete_by, count_by, map, Result, ok, bad_request, forbidden, not_found,
  or_throw, throw_if, ◌>>=◌, ◌>>◌, ◌==◌, ◌&&◌, ◌||◌, not, leb, ltb, if◌then◌else◌,
}
use teamos_backend.Roles.{Role, admin, rank}
use teamos_backend.Outbox.{
  Effect, emit, notify, audit, severity, complaint_status_changed, complaint_resolved,
  complaint_dismissed,
}
use teamos_backend.Complaint.Model.{
  ComplaintStatus, opened, in_review, late, resolved, dismissed, Complaint, ComplaintMessage,
  complaint_deleted, complaint_late, ComplaintDb, Fault, Answer, UpdateComplaintStatusDto, owned_by,
  target_users, is_targeted, same_status, complaint_missing, no_transition, only_targeted_or_admin,
  only_admin, own_not_open, may_not_delete,
}

-- `VALID_TRANSITIONS[from]`, no entry alike to an empty one.
unfoldable pub valid_transitions : ComplaintStatus → List ComplaintStatus
valid_transitions opened = in_review ∷ []
valid_transitions in_review = resolved ∷ dismissed ∷ []
valid_transitions late = in_review ∷ resolved ∷ dismissed ∷ []
valid_transitions resolved = []
valid_transitions dismissed = []

-- `allowedStatuses.includes(status)`
abbrev pub includes_status : List ComplaintStatus → ComplaintStatus → Bool
includes_status [] s = false
includes_status (x ∷ xs) s = same_status x s || includes_status xs s

-- `ROLE_RANK[userRole] >= ROLE_RANK['admin']`
abbrev pub is_admin_or_owner : Role → Bool
is_admin_or_owner role = leb (rank admin) (rank role)

-- The check of the caller, by the status that is asked for.
unfoldable pub check_caller : Bool → Role → ComplaintStatus → Result Fault (Unit {0})
check_caller targeted role in_review =
    throw_if (not targeted && not (is_admin_or_owner role)) forbidden only_targeted_or_admin
check_caller targeted role _ = throw_if (not (is_admin_or_owner role)) forbidden only_admin

unfoldable pub check_status :
    Key → Key → Key → Role → ComplaintStatus → ComplaintDb → Result Fault Complaint
unfolding check_caller valid_transitions
check_status org k user role status db = do
  complaint ← or_throw (find_by (owned_by org k) db.complaints) not_found complaint_missing
  throw_if (not (includes_status (valid_transitions complaint.status) status)) bad_request
      no_transition
  check_caller (is_targeted db.targets k user) role status
  ok complaint

abbrev pub is_final : ComplaintStatus → Bool
is_final resolved = true
is_final dismissed = true
is_final _ = false

-- `updateData`, and the `updatedAt` of the schema.
unfoldable pub set_status : ℕ → Key → UpdateComplaintStatusDto → Complaint → Complaint
set_status now user dto c =
    if is_final dto.status
    then record c {
      status = dto.status;
      resolution = truthy_text dto.resolution;
      resolved_at = some now;
      resolved_by_id = some user;
      updated_at = now;
    }
    else record c { status = dto.status; updated_at = now }

unfoldable pub closing_entry :
    Key → Key → Key → Option String → ComplaintStatus → List (Effect ComplaintMessage)
closing_entry org k user ip resolved =
    audit (record {
      org_id = org;
      user_id = user;
      action = complaint_resolved;
      target_id = k;
      ip_address = ip;
    })
    ∷ []
closing_entry org k user ip dismissed =
    audit (record {
      org_id = org;
      user_id = user;
      action = complaint_dismissed;
      target_id = k;
      ip_address = ip;
    })
    ∷ []
closing_entry org k user ip _ = []

unfoldable pub status_notices : Key → Key → List Key → List (Effect ComplaintMessage)
status_notices org k = map (λ u. notify (record {
  org_id = org;
  user_id = u;
  kind = complaint_status_changed;
  level = severity complaint_status_changed;
  related_id = some k;
}))

unfoldable pub update_status :
    ℕ
    → Key
    → Key
    → Key
    → Role
    → UpdateComplaintStatusDto
    → Option String
    → ComplaintDb
    → Answer Complaint
unfolding set_status closing_entry status_notices
update_status now org k user role dto ip db = do
  complaint ← check_status org k user role dto.status db
  let updated = set_status now user dto complaint
  ok (
    updated,
    record db {
      complaints = update_by (λ c. c.id == k) (set_status now user dto) db.complaints;
      outbox =
          db.outbox
          ++ (closing_entry org k user ip dto.status
              ++ emit org (
                  ComplaintMessage.complaint_status_changed updated.id updated.status
                    updated.resolved_by_id)
                ∷ status_notices org k (target_users db.targets k));
    },
  )

-- The check of the caller, by whether the complaint is their own.
unfoldable pub check_deleter : Bool → Role → ComplaintStatus → Result Fault (Unit {0})
check_deleter true role status = throw_if (not (same_status status opened)) forbidden own_not_open
check_deleter false role status = throw_if (not (is_admin_or_owner role)) forbidden may_not_delete

unfoldable pub check_delete : Key → Key → Key → Role → ComplaintDb → Result Fault Complaint
unfolding check_deleter
check_delete org k user role db = do
  complaint ← or_throw (find_by (owned_by org k) db.complaints) not_found complaint_missing
  check_deleter (complaint.user_id == user) role complaint.status
  ok complaint

-- The schema deletes a complaint's targets with it (`onDelete: Cascade`).
unfoldable pub delete : Key → Key → Key → Role → ComplaintDb → Answer (Unit {0})
delete org k user role db = do
  check_delete org k user role db
  ok (
    tt,
    record db {
      complaints = delete_by (λ c. c.id == k) db.complaints;
      targets = delete_by (λ t. t.complaint_id == k) db.targets;
      outbox = db.outbox ++ emit org (complaint_deleted k) ∷ [];
    },
  )

-- Two hours and six minutes, in milliseconds.
abbrev pub two_hours : ℕ
two_hours = 7200000

abbrev pub six_minutes : ℕ
six_minutes = 360000

-- `status: { in: [OPEN, IN_REVIEW] }, createdAt: { lt: twoHoursAgo }`
unfoldable pub is_neglected : ℕ → Complaint → Bool
is_neglected now c =
    (same_status c.status opened || same_status c.status in_review)
    && ltb (c.created_at + two_hours) now

-- What the second query reads back: `updatedAt: { gte: … }` stands for the rows just written.
unfoldable pub is_just_late : ℕ → Complaint → Bool
is_just_late now c =
    same_status c.status late
    && (ltb (c.created_at + two_hours) now && leb now (c.updated_at + six_minutes))

abbrev pub mark_late : ℕ → Complaint → Complaint
mark_late now c = record c { status = late; updated_at = now }

unfoldable pub late_messages : ℕ → List Complaint → List (Effect ComplaintMessage)
unfolding is_just_late
late_messages now complaints =
    map (λ c. emit c.organization_id (complaint_late c.id c.title))
      (filter_by (is_just_late now) complaints)

-- `now` stands for both readings of the clock.
unfoldable pub mark_late_complaints : ℕ → ComplaintDb → ℕ × ComplaintDb
unfolding is_neglected late_messages
mark_late_complaints now db =
    let count = count_by (is_neglected now) db.complaints in
    let complaints = update_by (is_neglected now) (mark_late now) db.complaints in
    (
      count,
      record db {
        complaints = complaints;
        outbox = db.outbox ++ (if ltb 0 count then late_messages now complaints else []);
      },
    )
