-- ===== src/Review/Submission.antt =====
-- `ReviewService.submitReview`
use teamos_backend.Prelude.{
  ℕ, suc, Bool, true, false, Option, none, some, List, [], ◌∷◌, ◌++◌, Key, find_by, update_by,
  Result, ok, err, bad_request, forbidden, conflict, internal_error, or_throw, throw_if, ◌>>=◌,
  ◌>>◌, ◌==◌, ◌&&◌, not, if◌then◌else◌,
}
use teamos_backend.Amounts.{Amounts}
use teamos_backend.Outbox.{emit}
use teamos_backend.Review.Model.{
  active, submitted, QuestionType, rating_scale, TemplateQuestion, TemplateSection, number, words,
  ReviewResponse, PerformanceReview, review_submitted, ReviewDb, Fault, Answer, foreign_key,
  not_your_review, cycle_not_active, already_submitted, numeric_answer_required,
  rating_out_of_range, same_cycle_status, same_review_status,
}
use teamos_backend.Review.Lookup.{validate_review}

abbrev pub is_rating_scale : QuestionType → Bool
is_rating_scale rating_scale = true
is_rating_scale _ = false

-- `response.type === 'rating_scale'`
abbrev pub calls_itself_rating : Option QuestionType → Bool
calls_itself_rating (some rating_scale) = true
calls_itself_rating _ = false

module _ {V : Type 0} where
  -- `dto.responses[question.id]`
  abbrev pub response_to : List (ReviewResponse V) → Key → Option (ReviewResponse V)
  response_to responses question = find_by (λ r. r.question_id == question) responses

  module _ (num : Amounts V) where
    open num use {nil, plus, over, from_count, lt, is_integer, round_cents}

    -- `Number.isInteger(value) && !(value < 1) && !(value > 5)`
    abbrev pub is_in_range : V → Bool
    is_in_range v = is_integer v && (not (lt v (from_count 1)) && not (lt (from_count 5) v))

    unfoldable pub check_answer : Option (ReviewResponse V) → Result Fault (Unit {0})
    check_answer none = err bad_request numeric_answer_required
    check_answer (some r) = elim r.value [
      | words w ↦ err bad_request numeric_answer_required
      | number v ↦ throw_if (not (is_in_range v)) bad_request rating_out_of_range
    ]

    unfoldable pub check_questions :
        List (ReviewResponse V) → List TemplateQuestion → Result Fault (Unit {0})
    unfolding check_answer
    check_questions responses [] = ok tt
    check_questions responses (q ∷ qs) = do
      if is_rating_scale q.kind then check_answer (response_to responses q.id) else ok tt
      check_questions responses qs

    unfoldable pub check_sections :
        List (ReviewResponse V) → List TemplateSection → Result Fault (Unit {0})
    unfolding check_questions
    check_sections responses [] = ok tt
    check_sections responses (s ∷ ss) = do
      check_questions responses s.questions
      check_sections responses ss

    -- `if (templateSnapshot)`
    abbrev pub check_responses :
        List (ReviewResponse V) → Option (List TemplateSection) → Result Fault (Unit {0})
    check_responses responses none = ok tt
    check_responses responses (some sections) = check_sections responses sections

    abbrev pub number_of : ReviewResponse V → Option V
    number_of r = elim r.value [ number v ↦ some v | words w ↦ none ]

    abbrev put_number : Option V → List V → List V
    put_number none vs = vs
    put_number (some v) vs = v ∷ vs

    -- `ratingValues`
    unfoldable pub rating_values : List (ReviewResponse V) → List V
    rating_values [] = []
    rating_values (r ∷ rs) =
        let rest = rating_values rs in
        if calls_itself_rating r.kind then put_number (number_of r) rest else rest

    abbrev pub sum_from : V → List V → V
    sum_from acc [] = acc
    sum_from acc (v ∷ vs) = sum_from (plus acc v) vs

    abbrev pub count_of : List V → ℕ
    count_of [] = 0
    count_of (v ∷ vs) = suc (count_of vs)

    -- `Math.round((sum / n) * 100) / 100`
    unfoldable pub mean : List V → V
    mean vs = round_cents (over (sum_from nil vs) (from_count (count_of vs)))

    abbrev mean_of : List V → Option V
    mean_of [] = none
    mean_of (v ∷ vs) = some (mean (v ∷ vs))

    unfoldable pub overall_score : List (ReviewResponse V) → Option V
    unfolding mean rating_values
    overall_score responses = mean_of (rating_values responses)

    unfoldable pub check_submit :
        Key → Key → Key → List (ReviewResponse V) → ReviewDb V → Result Fault (PerformanceReview V)
    unfolding check_sections
    check_submit org user k responses db = do
      review ← validate_review db org k
      cycle ←
          or_throw (find_by (λ c. c.id == review.review_cycle_id) db.cycles) internal_error
            foreign_key
      throw_if (not (review.reviewer_id == user)) forbidden not_your_review
      throw_if (not (same_cycle_status cycle.status active)) conflict cycle_not_active
      throw_if (same_review_status review.status submitted) conflict already_submitted
      check_responses responses cycle.template_snapshot
      ok review

    unfoldable pub submit : ℕ → List (ReviewResponse V) → PerformanceReview V → PerformanceReview V
    submit now responses r = record r {
      responses = some responses;
      overall_score = overall_score responses;
      status = submitted;
      submitted_at = some now;
    }

    unfoldable pub submit_review :
        ℕ → Key → Key → Key → List (ReviewResponse V) → ReviewDb V → Answer V (PerformanceReview V)
    unfolding submit
    submit_review now org user k responses db = do
      review ← check_submit org user k responses db
      ok (
        submit now responses review,
        record db {
          reviews = update_by (λ r. r.id == k) (submit now responses) db.reviews;
          outbox =
              db.outbox
              ++ emit org (review_submitted k review.review_cycle_id review.reviewee_id review.kind)
                ∷ [];
        },
      )
