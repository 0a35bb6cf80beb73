-- ===== src/Review/Assigned.antt =====
-- Which reviews `activateCycle` makes.
use teamos_backend.Prelude.{ℕ, ◌≡◌, ◌∙◌, Option, Key, ◌||◌, any_by, ok, store_after}
use Prim.Native.String.{String}
use teamos_backend.Review.Model.{ReviewTemplate, ReviewCycle, self, ReviewDb}
use teamos_backend.Review.Activation.{
  assignment, new_reviews, has_review, takers, deduped, check_activate, activate_cycle,
  reviews_to_create,
}
use teamos_backend.Review.Pairs.{is_seen-dedupe, is_due, is_seen-reviews_to_create}
use teamos_backend.Review.Unique.{has_review-append, has_review-new}

module _ {V : Type 0} where
  -- Where a draft cycle is activated, a user reviews another in it afterwards exactly when a review of
  -- the two was stored before, or the two are due to be paired by the profile of someone who takes part.
  pub activate_cycle-exact :
      (ids : ℕ → Key) (org k : Key) (actor : Option Key) (ip : Option String) (db : ReviewDb V)
      (c : ReviewCycle) (t : ReviewTemplate) (e r : Key)
      → check_activate org k db ≡ ok (c, t)
      → has_review (store_after db (activate_cycle ids org k actor ip db)).reviews k e r
        ≡ (has_review db.reviews k e r || any_by (is_due e r) (takers org c db))
  unfolding activate_cycle deduped
  activate_cycle-exact ids org k actor ip db c t e r h = rw h (
      has_review-append db.reviews (new_reviews ids 0 k org (deduped org c db)) k e r
      ∙ rw (
        has_review-new V ids 0 k org (deduped org c db) (assignment e r self),
        is_seen-dedupe (reviews_to_create (takers org c db)) (assignment e r self),
        is_seen-reviews_to_create (takers org c db) (assignment e r self),
      ))
