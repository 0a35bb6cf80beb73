-- ===== src/Review/Lookup.antt =====
-- The reads that several methods of `ReviewService` begin with.
use Prim.Native.String.{String}
use teamos_backend.Prelude.{
  Option, none, some, List, [], ◌∷◌, Key, find_by, is_some, Result, not_found, or_throw, throw_if,
  not, ◌==◌, ◌&&◌,
}
use teamos_backend.Directory.{find_member}
use teamos_backend.Outbox.{Effect, audit, AuditAction}
use teamos_backend.Review.Model.{
  ReviewTemplate, ReviewCycle, PerformanceReview, CalibrationSession, ReviewMessage, ReviewDb,
  Fault, not_org_member, template_missing, cycle_missing, review_missing, session_missing,
}

module _ {V : Type 0} where
  -- `if (!member) throw new NotFoundException(…)`
  abbrev pub check_member : ReviewDb V → Key → Key → Result Fault (Unit {0})
  check_member db org user =
      throw_if (not (is_some (find_member db.members org user))) not_found not_org_member

  -- `findOneTemplate`
  abbrev pub find_one_template : ReviewDb V → Key → Key → Result Fault ReviewTemplate
  find_one_template db org k =
      or_throw (find_by (λ t. t.id == k && t.organization_id == org) db.templates) not_found
        template_missing

  -- `validateCycle`
  abbrev pub validate_cycle : ReviewDb V → Key → Key → Result Fault ReviewCycle
  validate_cycle db org k =
      or_throw (find_by (λ c. c.id == k && c.organization_id == org) db.cycles) not_found
        cycle_missing

  -- `validateReview`
  abbrev pub validate_review : ReviewDb V → Key → Key → Result Fault (PerformanceReview V)
  validate_review db org k =
      or_throw (find_by (λ r. r.id == k && r.organization_id == org) db.reviews) not_found
        review_missing

  -- `getCalibrationSession`
  abbrev pub get_calibration_session : ReviewDb V → Key → Key → Result Fault (CalibrationSession V)
  get_calibration_session db org k =
      or_throw (find_by (λ s. s.id == k && s.organization_id == org) db.sessions) not_found
        session_missing

-- `if (actorId) await this.auditLog.log(…)`
abbrev pub audit_entry :
    Option Key → Key → AuditAction → Key → Option String → List (Effect ReviewMessage)
audit_entry none org action target ip = []
audit_entry (some user) org action target ip =
    audit (record {
      org_id = org;
      user_id = user;
      action = action;
      target_id = target;
      ip_address = ip;
    })
    ∷ []
