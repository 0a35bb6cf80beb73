-- ===== src/Review/Deadlines.antt =====
-- `ReviewService.markOverdueReviews` and `sendDeadlineReminders`
use teamos_backend.Prelude.{
  ℕ, ◌+◌, Bool, List, [], ◌∷◌, ◌++◌, Key, filter_by, update_by, count_by, ◌&&◌, ltb, leb,
  if◌then◌else◌,
}
use teamos_backend.Outbox.{Effect, emit}
use teamos_backend.Review.Model.{
  active, pending, overdue, ReviewCycle, PerformanceReview, ReviewMessage, review_overdue, ReviewDb,
  same_cycle_status, same_review_status,
}
use teamos_backend.Review.Cycles.{of_cycle}

-- `where: { status: 'ACTIVE', endDate: { lt: now } }`
abbrev pub is_expired : ℕ → ReviewCycle → Bool
is_expired now c = same_cycle_status c.status active && ltb c.end_date now

-- 48 hours, in milliseconds.
abbrev two_days : ℕ
two_days = 172800000

module _ {V : Type 0} where
  abbrev pub is_pending_in : Key → PerformanceReview V → Bool
  is_pending_in cycle r = of_cycle cycle r && same_review_status r.status pending

  abbrev pub mark_overdue : PerformanceReview V → PerformanceReview V
  mark_overdue r = record r { status = overdue }

  -- The loop over the expired cycles: the reviews, the number marked, and the messages.
  unfoldable pub mark_cycles :
      List ReviewCycle
      → List (PerformanceReview V)
      → List (PerformanceReview V) × ℕ × List (Effect ReviewMessage)
  mark_cycles [] reviews = (reviews, 0, [])
  mark_cycles (c ∷ cs) reviews =
      let count = count_by (is_pending_in c.id) reviews in
      let (marked, total, messages) =
        mark_cycles cs (update_by (is_pending_in c.id) mark_overdue reviews) in
      (
        marked,
        count + total,
        (if ltb 0 count then emit c.organization_id (review_overdue c.id count) ∷ [] else [])
            ++ messages,
      )

  unfoldable pub mark_overdue_reviews : ℕ → ReviewDb V → ℕ × ReviewDb V
  unfolding mark_cycles
  mark_overdue_reviews now db =
      let (reviews, total, messages) =
        mark_cycles (filter_by (is_expired now) db.cycles) db.reviews in
      (total, record db { reviews = reviews; outbox = db.outbox ++ messages })

  -- What the reminders answer with: they are only logged.
  unfoldable pub send_deadline_reminders : ℕ → ReviewDb V → ℕ
  send_deadline_reminders now db =
      count_by
        (λ c.
          same_cycle_status c.status active
          && (ltb now c.end_date && leb c.end_date (now + two_days)))
        db.cycles
