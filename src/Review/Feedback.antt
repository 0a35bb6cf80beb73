-- ===== src/Review/Feedback.antt =====
-- `ReviewService.getMyReviews`, `getMyFeedback` and `getAdminReviews`. What the answers include of
-- users, and their order, are not modelled.
use teamos_backend.Prelude.{
  ℕ, Bool, true, false, Option, none, some, List, [], ◌∷◌, Key, truthy, same_key, contains,
  filter_by, map, length, Result, ok, forbidden, throw_if, ◌>>=◌, ◌>>◌, ◌==◌, ◌&&◌, not,
  if◌then◌else◌,
}
use teamos_backend.Amounts.{Amounts}
use teamos_backend.Roles.{Role, supervisor}
use teamos_backend.Directory.{UserProfile}
use teamos_backend.Review.Model.{
  calibrating, completed, ReviewType, self, manager, peer, upward, ReviewSubmissionStatus,
  submitted, ReviewResponse, PerformanceReview, ReviewDb, Fault, feedback_not_open,
  same_cycle_status, same_review_status,
}
use teamos_backend.Review.Lookup.{validate_cycle}
use teamos_backend.Review.Submission.{mean, sum_from, count_of}

abbrev pub same_type : ReviewType → ReviewType → Bool
same_type self self = true
same_type manager manager = true
same_type peer peer = true
same_type upward upward = true
same_type _ _ = false

-- `teamProfiles.map(p => p.userId)`
unfoldable pub supervised : List UserProfile → Key → Key → List Key
supervised profiles org user =
    map (λ p. p.user_id)
      (filter_by (λ p. p.organization_id == org && same_key p.supervisor_id (some user)) profiles)

abbrev feedback_users : List UserProfile → Key → Key → Option Role → List Key
feedback_users profiles org user (some supervisor) = supervised profiles org user
feedback_users profiles org user _ = user ∷ []

-- `{ averageScore, responseCount, responses }`
pub record Feedback (V : Type 0) : Type 0 where
  pub average_score : Option V
  pub response_count : ℕ
  pub responses : List (List (ReviewResponse V))

abbrev put_some : {A : Type 0} → Option A → List A → List A
put_some none xs = xs
put_some (some x) xs = x ∷ xs

module _ {V : Type 0} where
  unfoldable pub get_my_reviews :
      Key → Key → Key → ReviewDb V → Result Fault (List (PerformanceReview V))
  get_my_reviews org user cycle_id db = do
    validate_cycle db org cycle_id
    ok (
        filter_by
          (λ r.
            r.review_cycle_id == cycle_id && (r.organization_id == org && r.reviewer_id == user))
          db.reviews)

  unfoldable pub get_admin_reviews :
      Key
      → Key
      → Option Key
      → Option ReviewType
      → Option ReviewSubmissionStatus
      → ReviewDb V
      → List (PerformanceReview V)
  get_admin_reviews org cycle_id reviewee kind status db =
      filter_by
        (λ r.
          r.review_cycle_id == cycle_id
          && (r.organization_id == org
              && ((elim (truthy reviewee) [ none ↦ true | some u ↦ r.reviewee_id == u ])
                  && ((elim kind [ none ↦ true | some k ↦ same_type r.kind k ])
                      && (elim status [ none ↦ true | some s ↦ same_review_status r.status s ])))))
        db.reviews

  unfoldable pub scores_in : List (PerformanceReview V) → List V
  scores_in [] = []
  scores_in (r ∷ rs) = put_some r.overall_score (scores_in rs)

  unfoldable pub responses_in : List (PerformanceReview V) → List (List (ReviewResponse V))
  responses_in [] = []
  responses_in (r ∷ rs) = put_some r.responses (responses_in rs)

  -- `reviews`, of which each entry of the answer is a group.
  unfoldable pub feedback_reviews : Key → Key → List Key → ReviewDb V → List (PerformanceReview V)
  feedback_reviews org cycle_id users db =
      filter_by
        (λ r.
          r.review_cycle_id == cycle_id
          && (r.organization_id == org
              && (contains users r.reviewee_id && same_review_status r.status submitted)))
        db.reviews

  module _ (num : Amounts V) where
    open num use {nil, over, from_count, is_nil}

    -- `data.scores.length > 0 ? … : null`, and then `avg ? … : null`, for which 0 is false.
    abbrev average : List V → Option V
    average [] = none
    average (v ∷ vs) =
        if is_nil (over (sum_from num nil (v ∷ vs)) (from_count (count_of num (v ∷ vs))))
        then none
        else some (mean num (v ∷ vs))

    -- `result[revieweeId][type]`: no entry where there is no review.
    abbrev entry_of : List (PerformanceReview V) → Option (Feedback V)
    entry_of [] = none
    entry_of (r ∷ rs) = some (record {
      average_score = average (scores_in (r ∷ rs));
      response_count = length (responses_in (r ∷ rs));
      responses = responses_in (r ∷ rs);
    })

    -- The answer, as the function that it is read by.
    unfoldable pub get_my_feedback :
        Key
        → Key
        → Key
        → Option Role
        → ReviewDb V
        → Result Fault (Key → ReviewType → Option (Feedback V))
    unfolding feedback_reviews
    get_my_feedback org user cycle_id role db = do
      cycle ← validate_cycle db org cycle_id
      throw_if
          (not (same_cycle_status cycle.status calibrating)
            && not (same_cycle_status cycle.status completed))
          forbidden feedback_not_open
      let reviews = feedback_reviews org cycle_id (feedback_users db.profiles org user role) db
      ok (λ reviewee kind.
          entry_of (filter_by (λ r. r.reviewee_id == reviewee && same_type r.kind kind) reviews))
