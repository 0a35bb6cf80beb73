-- ===== src/Review/Records.antt =====
-- What holds of the reviews at all times.
use teamos_backend.Prelude.{
  ℕ, suc, ◌≡◌, refl, Bool, true, false, List, [], ◌∷◌, ◌++◌, Key, arith, ◌==◌, any_by, update_by,
  All, is_some, not, ok, store_after, store_after-keeps,
}
use teamos_backend.Amounts.{Amounts}
use teamos_backend.Rows.{All-update_by, All-filter_by}
use teamos_backend.Review.Model.{
  submitted, peer, same_review_status, ReviewCycle, ReviewTemplate, ReviewResponse,
  PerformanceReview, PeerNomination, ReviewDb,
}
use teamos_backend.Review.Activation.{
  Assignment, assignment, new_reviews, is_taken, deduped, check_activate,
}
use teamos_backend.Review.Submission.{submit}
use teamos_backend.Review.Deadlines.{is_pending_in, mark_overdue, mark_cycles}
use teamos_backend.Review.Nominations.{check_approve, approve_nomination}
use teamos_backend.Review.Service.{ReviewRequest, handle_review}
use teamos_backend.Review.Writes.{
  keeps, drops, assigns, submitted_by, ages, confirms, confirms_each,
}
use teamos_backend.Review.Frame.{handle_review-Frame, approve_each-keeps}
use teamos_backend.Review.Pairs.{NoPairTwice, dedupe-NoPairTwice}
use teamos_backend.Review.Unique.{
  AreUnique, KeepsPair, AreUnique-append, AreUnique-new, apart, AreUnique-delete, AreUnique-update,
}

module _ {V : Type 0} where
  -- A review has the time of its submission exactly when it is submitted.
  abbrev pub IsSubmittedRight : PerformanceReview V → Type 0
  IsSubmittedRight r = is_some r.submitted_at ≡ same_review_status r.status submitted

module _ (V : Type 0) where
  pending_right :
      (ids : ℕ → Key) (i k org : Key) (asked : List Assignment)
      → All IsSubmittedRight (new_reviews {V = V} ids i k org asked)
  unfolding new_reviews
  pending_right ids i k org [] = tt
  pending_right ids i k org (a ∷ rest) = (refl, pending_right ids (suc i) k org rest)

module _ {V : Type 0} where
  pub record AreReviews (rs : List (PerformanceReview V)) : Type 0 where
    pub unique : AreUnique rs
    pub submissions : All IsSubmittedRight rs

  update-AreReviews :
      (q : PerformanceReview V → Bool) (f : PerformanceReview V → PerformanceReview V)
      (rs : List (PerformanceReview V))
      → KeepsPair f
      → ((x : PerformanceReview V) → q x ≡ true → IsSubmittedRight x → IsSubmittedRight (f x))
      → AreReviews rs
      → AreReviews (update_by q f rs)
  update-AreReviews q f rs same step right = record {
    unique = AreUnique-update q f rs same right.unique;
    submissions = All-update_by IsSubmittedRight q f rs step right.submissions;
  }

  mark_cycles-AreReviews :
      (cycles : List ReviewCycle) (rs : List (PerformanceReview V))
      → AreReviews rs
      → AreReviews (mark_cycles cycles rs).0
  unfolding mark_cycles
  mark_cycles-AreReviews [] rs right = right
  mark_cycles-AreReviews (c ∷ cs) rs right =
      mark_cycles-AreReviews cs (update_by (is_pending_in c.id) mark_overdue rs) (
        update-AreReviews (is_pending_in c.id) mark_overdue rs (λ x. (refl, refl, refl))
          (λ x p h. ground arith) right)

  All-append_both :
      (P : PerformanceReview V → Type 0) (xs ys : List (PerformanceReview V))
      → All P xs
      → All P ys
      → All P (xs ++ ys)
  All-append_both P [] ys a b = b
  All-append_both P (x ∷ xs) ys a b = (a.0, All-append_both P xs ys a.1 b)

  add-AreReviews :
      (ids : ℕ → Key) (k org : Key) (asked : List Assignment) (rs : List (PerformanceReview V))
      → NoPairTwice asked
      → any_by (is_taken rs k) asked ≡ false
      → AreReviews rs
      → AreReviews (rs ++ new_reviews ids 0 k org asked)
  add-AreReviews ids k org asked rs once free right =
      let made = new_reviews ids 0 k org asked in
      record {
        unique =
            AreUnique-append rs made right.unique (AreUnique-new V ids 0 k org asked once)
              (apart ids 0 k org asked rs free);
        submissions =
            All-append_both IsSubmittedRight rs made right.submissions
              (pending_right V ids 0 k org asked);
      }

  abbrev RightReviews : ReviewDb V → Type 0
  RightReviews db = AreReviews db.reviews

  check_approve-free :
      (org k : Key) (db : ReviewDb V) (n : PeerNomination)
      → check_approve org k db ≡ ok n
      → any_by
          (is_taken db.reviews n.review_cycle_id)
          (assignment n.nominator_id n.nominee_id peer ∷ [])
        ≡ false
  unfolding check_approve
  check_approve-free org k db n h = ground arith

  approve-AreReviews :
      (org user k new_id : Key) (db : ReviewDb V)
      → AreReviews db.reviews
      → AreReviews (store_after db (approve_nomination new_id org user k db)).reviews
  unfolding approve_nomination
  approve-AreReviews org user k new_id db right =
      store_after-keeps RightReviews db (check_approve org k db) _ right (λ n e.
        unfold new_reviews in
        add-AreReviews (λ i. new_id) n.review_cycle_id org
          (assignment n.nominator_id n.nominee_id peer ∷ []) db.reviews (refl, tt)
          (check_approve-free org k db n e) right)

  pub check_activate-free :
      (org k : Key) (db : ReviewDb V) (c : ReviewCycle) (t : ReviewTemplate)
      → check_activate org k db ≡ ok (c, t)
      → any_by (is_taken db.reviews k) (deduped org c db) ≡ false
  unfolding check_activate
  check_activate-free org k db c t h = ground arith

  deduped-NoPairTwice :
      (org : Key) (c : ReviewCycle) (db : ReviewDb V) → NoPairTwice (deduped org c db)
  unfolding deduped
  deduped-NoPairTwice org c db = dedupe-NoPairTwice [] _

  submit-AreReviews :
      (num : Amounts V) (now k : ℕ) (responses : List (ReviewResponse V))
      (rs : List (PerformanceReview V))
      → AreReviews rs
      → AreReviews (update_by (λ r. r.id == k) (submit num now responses) rs)
  unfolding submit
  submit-AreReviews num now k responses rs right =
      update-AreReviews (λ r. r.id == k) (submit num now responses) rs (λ x. (refl, refl, refl))
        (λ x p h. refl) right

  -- Whatever a request asks for, after it no user has two reviews of another in one cycle, and a
  -- review has the time of its submission exactly when it is submitted, if that was so before.
  pub handle_review-AreReviews :
      (num : Amounts V) (q : ReviewRequest V) (db : ReviewDb V)
      → AreReviews db.reviews
      → AreReviews (handle_review num q db).reviews
  handle_review-AreReviews num q db right = elim ((handle_review-Frame num q db).reviews) [
    | keeps e ↦ rw e right
    | drops k e ↦ rw e (record {
      unique = AreUnique-delete (λ r. r.review_cycle_id == k) db.reviews right.unique;
      submissions =
          All-filter_by IsSubmittedRight (λ r. not (r.review_cycle_id == k)) db.reviews
            right.submissions;
    })
    | assigns ids org k c t checked e ↦ rw e (
        add-AreReviews ids k org (deduped org c db) db.reviews (deduped-NoPairTwice org c db)
          (check_activate-free org k db c t checked) right)
    | submitted_by now org user k responses r checked e ↦
        rw e (submit-AreReviews num now k responses db.reviews right)
    | ages cycles e ↦ rw e (mark_cycles-AreReviews cycles db.reviews right)
    | confirms new_id org user k e ↦ rw e (approve-AreReviews org user k new_id db right)
    | confirms_each ids org user ns e ↦ rw e (
        approve_each-keeps RightReviews ids org user (λ j i d. approve-AreReviews org user j i d) ns
          0 db right)
  ]
