-- ===== src/Review/Model.antt =====
-- The rows that `ReviewService` keeps (prisma/schema.prisma) and what its requests carry
-- (src/modules/review/dto).
use Prim.Native.String.{String}
use teamos_backend.Prelude.{ℕ, Bool, true, false, Option, List, Key, Result}
use teamos_backend.Directory.{Member, UserProfile}
use teamos_backend.Outbox.{Effect}
use teamos_backend.Performance.{Performance}

pub data ReviewCycleStatus : Type 0 where
  draft active calibrating completed : ReviewCycleStatus

pub data ReviewType : Type 0 where
  self manager peer upward : ReviewType

pub data ReviewSubmissionStatus : Type 0 where
  pending submitted overdue : ReviewSubmissionStatus

pub data NominationStatus : Type 0 where
  waiting approved rejected : NominationStatus

pub data QuestionType : Type 0 where
  rating_scale text multiple_choice : QuestionType

pub record TemplateQuestion : Type 0 where
  pub id : Key
  pub text : String
  pub kind : QuestionType
  pub options : List String

pub record TemplateSection : Type 0 where
  pub name : String
  pub questions : List TemplateQuestion

pub record ReviewTemplate : Type 0 where
  pub id : Key
  pub organization_id : Key
  pub title : String
  pub description : Option String
  pub sections : List TemplateSection
  pub is_default : Bool
  pub created_by_id : Key

pub record ReviewCycle : Type 0 where
  pub id : Key
  pub organization_id : Key
  pub template_id : Key
  pub name : String
  pub start_date : ℕ
  pub end_date : ℕ
  pub status : ReviewCycleStatus
  pub template_snapshot : Option (List TemplateSection)
  pub excluded_user_ids : List Key
  pub created_by_id : Key

-- `{ value: number | string }`
pub data ResponseValue (V : Type 0) : Type 0 where
  number : V → ResponseValue V
  words : String → ResponseValue V

-- An entry of `responses`: the question's id, and its answer. The `type` that an answer carries is
-- what the client calls it; `none` is a word that is no type.
pub record ReviewResponse (V : Type 0) : Type 0 where
  pub question_id : Key
  pub value : ResponseValue V
  pub kind : Option QuestionType

pub record PerformanceReview (V : Type 0) : Type 0 where
  pub id : Key
  pub review_cycle_id : Key
  pub organization_id : Key
  pub reviewee_id : Key
  pub reviewer_id : Key
  pub kind : ReviewType
  pub responses : Option (List (ReviewResponse V))
  pub overall_score : Option V
  pub status : ReviewSubmissionStatus
  pub submitted_at : Option ℕ

pub record PeerNomination : Type 0 where
  pub id : Key
  pub review_cycle_id : Key
  pub organization_id : Key
  pub nominator_id : Key
  pub nominee_id : Key
  pub status : NominationStatus
  pub reviewed_by_id : Option Key

-- An entry of `adjustedScores`, which is keyed by the user's id.
pub record AdjustedScore (V : Type 0) : Type 0 where
  pub user_id : Key
  pub original_score : V
  pub calibrated_score : Option V
  pub note : Option String

pub record CalibrationSession (V : Type 0) : Type 0 where
  pub id : Key
  pub review_cycle_id : Key
  pub organization_id : Key
  pub department_id : Option Key
  pub facilitator_id : Key
  pub adjusted_scores : List (AdjustedScore V)
  pub is_finalized : Bool
  pub finalized_at : Option ℕ

-- The messages of `TaskGateway` on reviews.
pub data ReviewMessage : Type 0 where
  review_assigned : Key → String → ℕ → ReviewMessage
  review_submitted : (review_id cycle_id reviewee_id : Key) → ReviewType → ReviewMessage
  calibration_completed : (session_id cycle_id : Key) → Option Key → ReviewMessage
  review_overdue : Key → ℕ → ReviewMessage

pub record ReviewDb (V : Type 0) : Type 0 where
  pub members : List Member
  pub profiles : List UserProfile
  pub templates : List ReviewTemplate
  pub cycles : List ReviewCycle
  pub reviews : List (PerformanceReview V)
  pub nominations : List PeerNomination
  pub sessions : List (CalibrationSession V)
  pub performances : List (Performance V)
  pub outbox : List (Effect ReviewMessage)

-- The messages of the exceptions that the service throws, and the database's refusals.
pub data Fault : Type 0 where
  not_org_member template_missing template_in_use template_referenced end_before_start cycle_missing
        not_draft_update not_draft_delete not_draft not_active not_calibrating session_unfinalized
        foreign_key unique_review unique_nomination review_missing not_your_review cycle_not_active
        already_submitted numeric_answer_required rating_out_of_range nominates_self
        too_many_nominees already_nominated nomination_missing not_pending session_missing
        not_facilitator session_closed user_not_in_session scores_missing feedback_not_open :
      Fault

-- A request answers with a value and the new store, or is refused and leaves the store.
abbrev pub Answer : Type 0 → Type 0 → Type 0
Answer V A = Result Fault (A × ReviewDb V)

pub record CreateReviewTemplateDto : Type 0 where
  pub name : String
  pub description : Option String
  pub sections : List TemplateSection
  pub is_default : Option Bool

pub record UpdateReviewTemplateDto : Type 0 where
  pub name : Option String
  pub description : Option (Option String)
  pub sections : Option (List TemplateSection)
  pub is_default : Option Bool

pub record CreateReviewCycleDto : Type 0 where
  pub name : String
  pub template_id : Key
  pub start_date : ℕ
  pub end_date : ℕ
  pub excluded_user_ids : Option (List Key)

pub record UpdateReviewCycleDto : Type 0 where
  pub name : Option String
  pub template_id : Option Key
  pub start_date : Option ℕ
  pub end_date : Option ℕ
  pub excluded_user_ids : Option (List Key)

pub record AdjustCalibrationDto (V : Type 0) : Type 0 where
  pub user_id : Key
  pub calibration_score : V
  pub note : Option String

-- `a === b` on statuses and types.
abbrev pub same_cycle_status : ReviewCycleStatus → ReviewCycleStatus → Bool
same_cycle_status draft draft = true
same_cycle_status active active = true
same_cycle_status calibrating calibrating = true
same_cycle_status completed completed = true
same_cycle_status _ _ = false

abbrev pub same_review_status : ReviewSubmissionStatus → ReviewSubmissionStatus → Bool
same_review_status pending pending = true
same_review_status submitted submitted = true
same_review_status overdue overdue = true
same_review_status _ _ = false

abbrev pub same_nomination_status : NominationStatus → NominationStatus → Bool
same_nomination_status waiting waiting = true
same_nomination_status approved approved = true
same_nomination_status rejected rejected = true
same_nomination_status _ _ = false
