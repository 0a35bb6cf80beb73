-- ===== src/Review/Service.antt =====
-- The requests of `ReviewService` that write, as one type, and the store that each one leaves.
use Prim.Native.String.{String}
use teamos_backend.Prelude.{ℕ, Option, List, Key, store_after}
use teamos_backend.Amounts.{Amounts}
use teamos_backend.Review.Model.{
  ReviewResponse, ReviewDb, CreateReviewTemplateDto, UpdateReviewTemplateDto, CreateReviewCycleDto,
  UpdateReviewCycleDto, AdjustCalibrationDto,
}
use teamos_backend.Review.Templates.{create_template, update_template, remove_template}
use teamos_backend.Review.Cycles.{
  create_cycle, update_cycle, remove_cycle, transition_to_calibrating,
}
use teamos_backend.Review.Activation.{activate_cycle}
use teamos_backend.Review.Submission.{submit_review}
use teamos_backend.Review.Deadlines.{mark_overdue_reviews}
use teamos_backend.Review.Nominations.{
  create_nominations, approve_nomination, reject_nomination, bulk_approve_nominations,
}
use teamos_backend.Review.Calibration.{create_calibration_session, adjust_score, finalize_session}
use teamos_backend.Review.Closing.{complete_cycle}

-- Each with its method's arguments; `new_id`, `ids` and `now` are what the database makes up.
pub data ReviewRequest (V : Type 0) : Type 0 where
  creates_template : (new_id org user : Key) (dto : CreateReviewTemplateDto) → ReviewRequest V
  updates_template : (org k : Key) (dto : UpdateReviewTemplateDto) → ReviewRequest V
  removes_template : (org k : Key) → ReviewRequest V
  creates_cycle : (new_id org user : Key) (dto : CreateReviewCycleDto) → ReviewRequest V
  updates_cycle : (org k : Key) (dto : UpdateReviewCycleDto) → ReviewRequest V
  removes_cycle : (org k : Key) → ReviewRequest V
  activates :
      (ids : ℕ → Key) (org k : Key) (actor : Option Key) (ip : Option String) → ReviewRequest V
  starts_calibration : (org k : Key) (actor : Option Key) (ip : Option String) → ReviewRequest V
  completes :
      (ids : Key → Key) (org k : Key) (actor : Option Key) (ip : Option String) → ReviewRequest V
  submits : (now : ℕ) (org user k : Key) (responses : List (ReviewResponse V)) → ReviewRequest V
  marks_overdue : (now : ℕ) → ReviewRequest V
  nominates : (ids : ℕ → Key) (org user k : Key) (nominees : List Key) → ReviewRequest V
  approves : (new_id org user k : Key) → ReviewRequest V
  rejects : (org user k : Key) → ReviewRequest V
  approves_all : (ids : Key → Key) (org user k : Key) → ReviewRequest V
  opens_session : (new_id org user k : Key) (department : Option Key) → ReviewRequest V
  adjusts : (org user k : Key) (dto : AdjustCalibrationDto V) → ReviewRequest V
  finalizes : (now : ℕ) (ids : Key → Key) (org user k : Key) (ip : Option String) → ReviewRequest V

unfoldable pub handle_review : {V : Type 0} → Amounts V → ReviewRequest V → ReviewDb V → ReviewDb V
handle_review num (creates_template new_id org user dto) db =
    store_after db (create_template new_id org user dto db)
handle_review num (updates_template org k dto) db = store_after db (update_template org k dto db)
handle_review num (removes_template org k) db = store_after db (remove_template org k db)
handle_review num (creates_cycle new_id org user dto) db =
    store_after db (create_cycle new_id org user dto db)
handle_review num (updates_cycle org k dto) db = store_after db (update_cycle org k dto db)
handle_review num (removes_cycle org k) db = store_after db (remove_cycle org k db)
handle_review num (activates ids org k actor ip) db =
    store_after db (activate_cycle ids org k actor ip db)
handle_review num (starts_calibration org k actor ip) db =
    store_after db (transition_to_calibrating org k actor ip db)
handle_review num (completes ids org k actor ip) db =
    store_after db (complete_cycle num ids org k actor ip db)
handle_review num (submits now org user k responses) db =
    store_after db (submit_review num now org user k responses db)
handle_review num (marks_overdue now) db = (mark_overdue_reviews now db).1
handle_review num (nominates ids org user k nominees) db =
    store_after db (create_nominations ids org user k nominees db)
handle_review num (approves new_id org user k) db =
    store_after db (approve_nomination new_id org user k db)
handle_review num (rejects org user k) db = store_after db (reject_nomination org user k db)
handle_review num (approves_all ids org user k) db = (bulk_approve_nominations ids org user k db).1
handle_review num (opens_session new_id org user k department) db =
    store_after db (create_calibration_session num new_id org user k department db)
handle_review num (adjusts org user k dto) db = store_after db (adjust_score org user k dto db)
handle_review num (finalizes now ids org user k ip) db =
    store_after db (finalize_session num now ids org user k ip db)
