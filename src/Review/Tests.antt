-- ===== src/Review/Tests.antt =====
-- Runs of the review service on a small store, and its theorems at that store.
use teamos_backend.Prelude.{
  ℕ, ◌+◌, ◌≡◌, refl, true, false, Option, none, some, List, [], ◌∷◌, Key, arith, All, any_by, ok,
  find_by, store_after, ◌==◌, ◌||◌,
}
use teamos_backend.Amounts.{whole}
use teamos_backend.Roles.{admin, supervisor, member}
use teamos_backend.Directory.{Member, UserProfile, UserStatus}
use teamos_backend.Review.Model.{
  draft, active, calibrating, TemplateSection, ReviewTemplate, ReviewCycle, AdjustedScore,
  CalibrationSession, ReviewDb, ReviewCycleStatus,
}
use teamos_backend.Review.Activation.{
  has_review, takers, check_activate, activate_cycle, activate, new_reviews, deduped,
}
use teamos_backend.Review.Calibration.{check_finalize, finalize_session}
use teamos_backend.Review.Service.{
  ReviewRequest, handle_review, activates, creates_cycle, nominates, finalizes,
}
use teamos_backend.Review.Pairs.{is_due}
use teamos_backend.Review.Assigned.{activate_cycle-exact}
use teamos_backend.Review.Records.{AreReviews, handle_review-AreReviews}
use teamos_backend.Review.Lifecycle.{
  AreCycles, IsNewCycle, handle_review-AreCycles, handle_review-CycleStep, Fate,
}
use teamos_backend.Review.Peers.{IsFairlyNominated, handle_review-IsFairlyNominated}
use teamos_backend.Review.Sessions.{AreSessions, handle_review-AreSessions}
use teamos_backend.Review.Scores.{IsRecorded, finalize_session-IsRecorded}

-- Organization 1: an admin 11, a supervisor 12 and a member 13 of theirs.
abbrev members : List Member
members =
    record { id = 1; organization_id = 1; user_id = 11; role = admin }
    ∷ record { id = 2; organization_id = 1; user_id = 12; role = supervisor }
    ∷ record { id = 3; organization_id = 1; user_id = 13; role = member }
    ∷ []

abbrev profile : Key → Option Key → UserProfile
profile user boss = record {
  user_id = user;
  organization_id = 1;
  department_id = none;
  supervisor_id = boss;
  status = UserStatus.active;
}

abbrev template : ReviewTemplate
template = record {
  id = 41;
  organization_id = 1;
  title = "Yearly";
  description = none;
  sections = [];
  is_default = true;
  created_by_id = 11;
}

abbrev cycle : Key → ReviewCycleStatus → Option (List TemplateSection) → ReviewCycle
cycle k status sections = record {
  id = k;
  organization_id = 1;
  template_id = 41;
  name = "2024";
  start_date = 0;
  end_date = 100;
  status = status;
  template_snapshot = sections;
  excluded_user_ids = [];
  created_by_id = 11;
}

abbrev entry : AdjustedScore ℕ
entry = record { user_id = 13; original_score = 3; calibrated_score = some 4; note = some "steady" }

abbrev session : CalibrationSession ℕ
session = record {
  id = 71;
  review_cycle_id = 53;
  organization_id = 1;
  department_id = none;
  facilitator_id = 11;
  adjusted_scores = entry ∷ [];
  is_finalized = false;
  finalized_at = none;
}

-- A draft cycle 51, an active one 52 and one in calibration 53, with a session.
abbrev db : ReviewDb ℕ
db = record {
  members = members;
  profiles = profile 12 none ∷ profile 13 (some 12) ∷ [];
  templates = template ∷ [];
  cycles = cycle 51 draft none ∷ cycle 52 active (some []) ∷ cycle 53 calibrating (some []) ∷ [];
  reviews = [];
  nominations = [];
  sessions = session ∷ [];
  performances = [];
  outbox = [];
}

abbrev ids : ℕ → Key
ids i = 100 + i

activatable : check_activate 1 51 db ≡ ok (cycle 51 draft none, template)
unfolding check_activate deduped
activatable = refl

-- Four reviews: each user's own, and one of the two in either direction.
four_reviews :
    (store_after db (activate_cycle ids 1 51 (some 11) none db)).reviews
    ≡ new_reviews ids 0 51 1 (deduped 1 (cycle 51 draft none) db)
unfolding activate_cycle check_activate deduped
four_reviews = refl

activate_cycle-exact_example :
    has_review (store_after db (activate_cycle ids 1 51 (some 11) none db)).reviews 51 13 12
    ≡ (has_review db.reviews 51 13 12 || any_by (is_due 13 12) (takers 1 (cycle 51 draft none) db))
activate_cycle-exact_example =
    activate_cycle-exact ids 1 51 (some 11) none db (cycle 51 draft none) template 13 12 activatable

abbrev activation : ReviewRequest ℕ
activation = activates ids 1 51 (some 11) none

handle_review-AreReviews_example : AreReviews (handle_review whole activation db).reviews
handle_review-AreReviews_example =
    handle_review-AreReviews whole activation db (record { unique = tt; submissions = tt })

db-AreCycles : AreCycles db.cycles
db-AreCycles = record {
  keys = (
    ((λ h. absurd (ground arith)), ((λ h. absurd (ground arith)), tt)),
    (((λ h. absurd (ground arith)), tt), (tt, tt)),
  );
  snapshots = (refl, (refl, (refl, tt)));
}

activated :
    find_by (λ x. x.id == 51) (handle_review whole activation db).cycles
    ≡ some (activate [] (cycle 51 draft none))
unfolding handle_review activate_cycle check_activate deduped
activated = refl

handle_review-CycleStep_example :
    Fate 51 (handle_review whole activation db).cycles (cycle 51 draft none)
handle_review-CycleStep_example =
    handle_review-CycleStep whole activation db 51 (cycle 51 draft none) db-AreCycles refl

abbrev creation : ReviewRequest ℕ
creation = creates_cycle 54 1 11 (record {
  name = "2025";
  template_id = 41;
  start_date = 100;
  end_date = 200;
  excluded_user_ids = none;
})

creation-IsNewCycle : IsNewCycle creation db
creation-IsNewCycle k e =
    (λ h. absurd (ground arith), (λ h. absurd (ground arith), (λ h. absurd (ground arith), tt)))

handle_review-AreCycles_example : AreCycles (handle_review whole creation db).cycles
handle_review-AreCycles_example =
    handle_review-AreCycles whole creation db creation-IsNewCycle db-AreCycles

abbrev nomination : ReviewRequest ℕ
nomination = nominates ids 1 13 52 (11 ∷ [])

handle_review-IsFairlyNominated_example :
    IsFairlyNominated (handle_review whole nomination db).nominations
handle_review-IsFairlyNominated_example =
    handle_review-IsFairlyNominated whole nomination db
      (record { at_most_three = λ c u. omega arith; not_self = tt })

db-AreSessions : AreSessions db.sessions
db-AreSessions = record {
  keys = (tt, tt);
  each = (record { users = (tt, tt); closed = refl; complete = refl }, tt);
}

abbrev finalization : ReviewRequest ℕ
finalization = finalizes 9 (λ u. 200 + u) 1 11 71 none

handle_review-AreSessions_example : AreSessions (handle_review whole finalization db).sessions
handle_review-AreSessions_example =
    handle_review-AreSessions whole finalization db (λ k e. absurd e) db-AreSessions

finalizable : check_finalize 1 11 71 db ≡ ok session
unfolding check_finalize
finalizable = refl

finalize_session-IsRecorded_example :
    All
      (IsRecorded whole 1 53
        (store_after db (finalize_session whole 9 (λ u. 200 + u) 1 11 71 none db)).performances)
      (entry ∷ [])
finalize_session-IsRecorded_example =
    finalize_session-IsRecorded whole 9 (λ u. 200 + u) 1 11 71 none db session db-AreSessions
      finalizable
