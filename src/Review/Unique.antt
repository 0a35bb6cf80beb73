-- ===== src/Review/Unique.antt =====
-- The reviews of a cycle have distinct pairs of users.
use teamos_backend.Prelude.{
  ℕ, suc, ◌≡◌, inl, inr, refl, ◌∙◌, Bool, false, List, [], ◌∷◌, ◌++◌, Key, arith, ◌==◌, ◌&&◌, ◌||◌,
  Bool-cases, any_by, update_by, delete_by, All,
}
use teamos_backend.Rows.{All-map2}
use teamos_backend.Review.Model.{PerformanceReview}
use teamos_backend.Review.Activation.{Assignment, is_seen, new_reviews, has_review, is_taken}
use teamos_backend.Review.Pairs.{NoPairTwice}

module _ {V : Type 0} where
  abbrev pub has_pair_of : List (PerformanceReview V) → PerformanceReview V → Bool
  has_pair_of rs r = has_review rs r.review_cycle_id r.reviewee_id r.reviewer_id

  -- `@@unique([reviewCycleId, revieweeId, reviewerId])`
  abbrev pub AreUnique : List (PerformanceReview V) → Type 0
  AreUnique [] = Unit
  AreUnique (r ∷ rs) = (has_pair_of rs r ≡ false) × AreUnique rs

  pub has_review-append :
      (xs ys : List (PerformanceReview V)) (c e r : Key)
      → has_review (xs ++ ys) c e r ≡ (has_review xs c e r || has_review ys c e r)
  has_review-append [] ys c e r = refl
  has_review-append (x ∷ xs) ys c e r = ground (arith, has_review-append xs ys c e r)

  pub AreUnique-append :
      (xs ys : List (PerformanceReview V))
      → AreUnique xs
      → AreUnique ys
      → All (λ x. has_pair_of ys x ≡ false) xs
      → AreUnique (xs ++ ys)
  AreUnique-append [] ys u v apart = v
  AreUnique-append (x ∷ xs) ys u v apart = (
    rw (has_review-append xs ys x.review_cycle_id x.reviewee_id x.reviewer_id, u.0, apart.0),
    AreUnique-append xs ys u.1 v apart.1,
  )

module _ (V : Type 0) where
  pub has_review-new :
      (ids : ℕ → Key) (i k org : Key) (asked : List Assignment) (a : Assignment)
      → has_review (new_reviews {V = V} ids i k org asked) k a.reviewee_id a.reviewer_id
        ≡ is_seen asked a
  unfolding new_reviews
  has_review-new ids i k org [] a = refl
  has_review-new ids i k org (b ∷ bs) a = ground (arith, has_review-new ids (suc i) k org bs a)

  pub has_review-new_other :
      (ids : ℕ → Key) (i k org c e r : Key) (asked : List Assignment)
      → (k == c) ≡ false
      → has_review (new_reviews {V = V} ids i k org asked) c e r ≡ false
  unfolding new_reviews
  has_review-new_other ids i k org c e r [] h = refl
  has_review-new_other ids i k org c e r (b ∷ bs) h =
      ground (arith, has_review-new_other ids (suc i) k org c e r bs h)

  pub AreUnique-new :
      (ids : ℕ → Key) (i k org : Key) (asked : List Assignment)
      → NoPairTwice asked
      → AreUnique (new_reviews {V = V} ids i k org asked)
  unfolding new_reviews
  AreUnique-new ids i k org [] once = tt
  AreUnique-new ids i k org (a ∷ rest) once = (
    has_review-new ids (suc i) k org rest a ∙ once.0,
    AreUnique-new ids (suc i) k org rest once.1,
  )

module _ {V : Type 0} where
  -- A row that does not have the pair of an assignment.
  abbrev Differs : Key → Assignment → PerformanceReview V → Type 0
  Differs k a x =
      (k == x.review_cycle_id && (a.reviewee_id == x.reviewee_id && a.reviewer_id == x.reviewer_id))
      ≡ false

  not_taken :
      (k : Key) (a : Assignment) (xs : List (PerformanceReview V))
      → is_taken xs k a ≡ false
      → All (Differs k a) xs
  not_taken k a [] h = tt
  not_taken k a (x ∷ xs) h = (ground arith, not_taken k a xs (ground arith))

  none_paired : (xs : List (PerformanceReview V)) → All (λ x. has_pair_of [] x ≡ false) xs
  none_paired [] = tt
  none_paired (x ∷ xs) = (refl, none_paired xs)

  pub apart :
      (ids : ℕ → Key) (i k org : Key) (asked : List Assignment) (xs : List (PerformanceReview V))
      → any_by (is_taken xs k) asked ≡ false
      → All (λ x. has_pair_of (new_reviews ids i k org asked) x ≡ false) xs
  unfolding new_reviews
  apart ids i k org [] xs h = none_paired xs
  apart ids i k org (a ∷ rest) xs h =
      All-map2 (Differs k a) (λ x. has_pair_of (new_reviews ids (suc i) k org rest) x ≡ false)
        (λ x. has_pair_of (new_reviews ids i k org (a ∷ rest)) x ≡ false) xs (λ x d o. rw (d, o))
        (not_taken k a xs (ground arith)) (apart ids (suc i) k org rest xs (ground arith))

  has_review-delete :
      (q : PerformanceReview V → Bool) (rs : List (PerformanceReview V)) (c e r : Key)
      → has_review rs c e r ≡ false
      → has_review (delete_by q rs) c e r ≡ false
  has_review-delete q [] c e r h = refl
  has_review-delete q (x ∷ rs) c e r h = ground (arith, has_review-delete q rs c e r)

  pub AreUnique-delete :
      (q : PerformanceReview V → Bool) (rs : List (PerformanceReview V))
      → AreUnique rs
      → AreUnique (delete_by q rs)
  AreUnique-delete q [] u = tt
  AreUnique-delete q (x ∷ rs) u = elim (Bool-cases (q x)) [
    | inl e ↦ rw e (AreUnique-delete q rs u.1)
    | inr e ↦ rw e (
      has_review-delete q rs x.review_cycle_id x.reviewee_id x.reviewer_id u.0,
      AreUnique-delete q rs u.1,
    )
  ]

  -- Writes that leave the pair alone.
  abbrev pub KeepsPair : (PerformanceReview V → PerformanceReview V) → Type 0
  KeepsPair f =
      (x : PerformanceReview V)
      → ((f x).review_cycle_id ≡ x.review_cycle_id)
        × ((f x).reviewee_id ≡ x.reviewee_id)
        × ((f x).reviewer_id ≡ x.reviewer_id)

  has_review-update :
      (q : PerformanceReview V → Bool) (f : PerformanceReview V → PerformanceReview V)
      (rs : List (PerformanceReview V)) (c e r : Key)
      → KeepsPair f
      → has_review (update_by q f rs) c e r ≡ has_review rs c e r
  has_review-update q f [] c e r same = refl
  has_review-update q f (x ∷ rs) c e r same =
      ground (arith, same x, has_review-update q f rs c e r same)

  pub AreUnique-update :
      (q : PerformanceReview V → Bool) (f : PerformanceReview V → PerformanceReview V)
      (rs : List (PerformanceReview V))
      → KeepsPair f
      → AreUnique rs
      → AreUnique (update_by q f rs)
  AreUnique-update q f [] same u = tt
  AreUnique-update q f (x ∷ rs) same u = elim (Bool-cases (q x)) [
    | inl e ↦ rw e (
      rw
          (
            (same x).0,
            (same x).1,
            (same x).2,
            has_review-update q f rs x.review_cycle_id x.reviewee_id x.reviewer_id same,
          )
          u.0,
      AreUnique-update q f rs same u.1,
    )
    | inr e ↦ rw e (
      rw (has_review-update q f rs x.review_cycle_id x.reviewee_id x.reviewer_id same) u.0,
      AreUnique-update q f rs same u.1,
    )
  ]
