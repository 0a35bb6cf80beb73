-- ===== src/Review/Calibration.antt =====
-- `ReviewService.createCalibrationSession`, `adjustScore` and `finalizeSession`
use Prim.Native.String.{String}
use teamos_backend.Prelude.{
  ℕ, Bool, true, false, Option, none, some, List, [], ◌∷◌, ◌++◌, Key, truthy, truthy_text, same_key,
  is_some, contains, filter_by, update_by, any_by, Result, ok, bad_request, forbidden,
  internal_error, conflict, not_found, throw_if, ◌>>=◌, ◌>>◌, ◌==◌, ◌&&◌, ◌||◌, not, if◌then◌else◌,
}
use teamos_backend.Amounts.{Amounts}
use teamos_backend.Roles.{owner, same_role}
use teamos_backend.Directory.{UserProfile}
use teamos_backend.Outbox.{emit, audit, AuditAction}
use teamos_backend.Performance.{Performance, upsert, blank}
use teamos_backend.Review.Model.{
  calibrating, submitted, ReviewCycle, PerformanceReview, AdjustedScore, CalibrationSession,
  calibration_completed, ReviewDb, Fault, Answer, AdjustCalibrationDto, not_calibrating,
  not_facilitator, session_closed, user_not_in_session, foreign_key, scores_missing,
  same_cycle_status, same_review_status,
}
use teamos_backend.Review.Lookup.{validate_cycle, get_calibration_session}
use teamos_backend.Review.Submission.{mean}

module _ {V : Type 0} where
  -- `membership` with the role of owner.
  abbrev pub is_owner : ReviewDb V → Key → Key → Bool
  is_owner db org user =
      any_by (λ m. m.organization_id == org && (m.user_id == user && same_role m.role owner))
        db.members

  abbrev pub may_calibrate : ReviewDb V → Key → Key → CalibrationSession V → Bool
  may_calibrate db org user session = session.facilitator_id == user || is_owner db org user

  -- `revieweeId: { in: revieweeIds }`, for a session of a department.
  abbrev in_scope : List UserProfile → Key → Option Key → PerformanceReview V → Bool
  in_scope profiles org none r = true
  in_scope profiles org (some department) r =
      any_by
        (λ p.
          p.organization_id == org
          && (same_key p.department_id (some department) && p.user_id == r.reviewee_id))
        profiles

  -- `reviews` of `createCalibrationSession`.
  unfoldable pub submitted_reviews :
      Key → Key → Option Key → ReviewDb V → List (PerformanceReview V)
  submitted_reviews org cycle_id department db =
      filter_by
        (λ r.
          r.review_cycle_id == cycle_id
          && (r.organization_id == org
              && (same_review_status r.status submitted && in_scope db.profiles org department r)))
        db.reviews

  -- `scoreMap`: the users who have a score, in the order of their first, and the scores of one.
  unfoldable pub scored_users : List Key → List (PerformanceReview V) → List Key
  scored_users users [] = users
  scored_users users (r ∷ rs) =
      scored_users
        (if not (is_some r.overall_score) || contains users r.reviewee_id
          then users
          else users ++ r.reviewee_id ∷ [])
        rs

  abbrev put_score : Option V → List V → List V
  put_score none vs = vs
  put_score (some v) vs = v ∷ vs

  unfoldable pub scores_of : Key → List (PerformanceReview V) → List V
  scores_of user [] = []
  scores_of user (r ∷ rs) =
      let rest = scores_of user rs in
      if r.reviewee_id == user then put_score r.overall_score rest else rest

  -- `scores[dto.userId].calibratedScore = …; scores[dto.userId].note = …`
  abbrev pub adjust : AdjustCalibrationDto V → AdjustedScore V → AdjustedScore V
  adjust dto s = record s { calibrated_score = some dto.calibration_score; note = dto.note }

  abbrev pub set_scores :
      (List (AdjustedScore V) → List (AdjustedScore V))
      → CalibrationSession V
      → CalibrationSession V
  set_scores f s = record s { adjusted_scores = f s.adjusted_scores }

  unfoldable pub check_adjust :
      Key → Key → Key → AdjustCalibrationDto V → ReviewDb V → Result Fault (CalibrationSession V)
  check_adjust org user k dto db = do
    session ← get_calibration_session db org k
    throw_if (not (may_calibrate db org user session)) forbidden not_facilitator
    throw_if session.is_finalized conflict session_closed
    throw_if (not (any_by (λ s. s.user_id == dto.user_id) session.adjusted_scores)) not_found
        user_not_in_session
    ok session

  unfoldable pub adjust_scores :
      AdjustCalibrationDto V → CalibrationSession V → CalibrationSession V
  adjust_scores dto = set_scores (update_by (λ s. s.user_id == dto.user_id) (adjust dto))

  unfoldable pub adjust_score :
      Key → Key → Key → AdjustCalibrationDto V → ReviewDb V → Answer V (CalibrationSession V)
  unfolding adjust_scores
  adjust_score org user k dto db = do
    session ← check_adjust org user k dto db
    ok (
      adjust_scores dto session,
      record db { sessions = update_by (λ s. s.id == k) (adjust_scores dto) db.sessions },
    )

  -- An entry without a score or without a note.
  abbrev pub is_incomplete : AdjustedScore V → Bool
  is_incomplete s = not (is_some s.calibrated_score) || not (is_some (truthy_text s.note))

  unfoldable pub check_finalize : Key → Key → Key → ReviewDb V → Result Fault (CalibrationSession V)
  check_finalize org user k db = do
    session ← get_calibration_session db org k
    throw_if (not (may_calibrate db org user session)) forbidden not_facilitator
    throw_if session.is_finalized conflict session_closed
    throw_if (any_by is_incomplete session.adjusted_scores) bad_request scores_missing
    ok session

  abbrev pub finalize : ℕ → CalibrationSession V → CalibrationSession V
  finalize now s = record s { is_finalized = true; finalized_at = some now }

  abbrev pub set_review_score : Option V → Key → Performance V → Performance V
  set_review_score score cycle p = record p {
    review_score = score;
    last_review_cycle_id = some cycle;
  }

  module _ (num : Amounts V) where
    unfoldable pub new_scores : List (PerformanceReview V) → List Key → List (AdjustedScore V)
    new_scores reviews [] = []
    new_scores reviews (u ∷ us) =
        record {
          user_id = u;
          original_score = mean num (scores_of u reviews);
          calibrated_score = none;
          note = none;
        }
        ∷ new_scores reviews us

    unfoldable pub new_session :
        Key → Key → Key → Key → Option Key → List (PerformanceReview V) → CalibrationSession V
    unfolding new_scores
    new_session new_id org user cycle_id department reviews = record {
      id = new_id;
      review_cycle_id = cycle_id;
      organization_id = org;
      department_id = department;
      facilitator_id = user;
      adjusted_scores = new_scores reviews (scored_users [] reviews);
      is_finalized = false;
      finalized_at = none;
    }

    -- The empty string is no department's id, and the foreign key refuses it.
    unfoldable pub check_create_session :
        Key → Key → Option Key → ReviewDb V → Result Fault ReviewCycle
    check_create_session org cycle_id department db = do
      cycle ← validate_cycle db org cycle_id
      throw_if (not (same_cycle_status cycle.status calibrating)) conflict not_calibrating
      throw_if (is_some department && not (is_some (truthy department))) internal_error foreign_key
      ok cycle

    unfoldable pub create_calibration_session :
        Key → Key → Key → Key → Option Key → ReviewDb V → Answer V (CalibrationSession V)
    unfolding new_session
    create_calibration_session new_id org user cycle_id department db = do
      check_create_session org cycle_id department db
      let session =
          new_session new_id org user cycle_id department
            (submitted_reviews org cycle_id (truthy department) db)
      ok (session, record db { sessions = db.sessions ++ session ∷ [] })

    -- The loop of upserts over `Object.entries(scores)`; `ids` are the identifiers of new rows, by
    -- user.
    unfoldable pub record_scores :
        (Key → Key)
        → Key
        → Key
        → List (AdjustedScore V)
        → List (Performance V)
        → List (Performance V)
    record_scores ids org cycle [] rows = rows
    record_scores ids org cycle (s ∷ ss) rows =
        let set = set_review_score s.calibrated_score cycle in
        record_scores ids org cycle ss
          (upsert org s.user_id set (set (blank num (ids s.user_id) org s.user_id)) rows)

    unfoldable pub finalize_session :
        ℕ
        → (Key → Key)
        → Key
        → Key
        → Key
        → Option String
        → ReviewDb V
        → Answer V (CalibrationSession V)
    unfolding record_scores
    finalize_session now ids org user k ip db = do
      session ← check_finalize org user k db
      ok (
        finalize now session,
        record db {
          performances =
              record_scores ids org session.review_cycle_id session.adjusted_scores db.performances;
          sessions = update_by (λ s. s.id == k) (finalize now) db.sessions;
          outbox =
              db.outbox
              ++ emit org (calibration_completed k session.review_cycle_id session.department_id)
                ∷ audit (record {
                  org_id = org;
                  user_id = user;
                  action = AuditAction.calibration_finalized;
                  target_id = k;
                  ip_address = ip;
                })
                ∷ [];
        },
      )
