-- ===== src/Complaint/Service.antt =====
-- The requests of `ComplaintService` that write, and its scheduled job, as one type, and the store
-- that each one leaves.
use Prim.Native.String.{String}
use teamos_backend.Prelude.{ℕ, Option, Key, store_after}
use teamos_backend.Roles.{Role}
use teamos_backend.Complaint.Model.{ComplaintDb, CreateComplaintDto, UpdateComplaintStatusDto}
use teamos_backend.Complaint.Filing.{create}
use teamos_backend.Complaint.Handling.{update_status, delete, mark_late_complaints}

-- Each with its method's arguments; `new_id`, `ids` and `now` are what the database makes up.
pub data ComplaintRequest : Type 0 where
  files :
      (new_id : Key) (ids : ℕ → Key) (now : ℕ) (org user : Key) (dto : CreateComplaintDto)
      → ComplaintRequest
  updates_status :
      (now : ℕ) (org complaint_id user : Key) (role : Role) (dto : UpdateComplaintStatusDto)
      (ip : Option String)
      → ComplaintRequest
  deletes : (org complaint_id user : Key) (role : Role) → ComplaintRequest
  marks_late : (now : ℕ) → ComplaintRequest

unfoldable pub handle_complaint : ComplaintRequest → ComplaintDb → ComplaintDb
handle_complaint (files new_id ids now org user dto) db =
    store_after db (create new_id ids now org user dto db)
handle_complaint (updates_status now org complaint_id user role dto ip) db =
    store_after db (update_status now org complaint_id user role dto ip db)
handle_complaint (deletes org complaint_id user role) db =
    store_after db (delete org complaint_id user role db)
handle_complaint (marks_late now) db = (mark_late_complaints now db).1
