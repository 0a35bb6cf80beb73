-- ===== src/Performance/Ranking.antt =====
-- The numbers of `getOrgStats`.
use teamos_backend.Prelude.{
  ℕ, ◌≤◌, ◌⊎◌, ◌++◌, ◌==◌, ◌&&◌, ap, length, filter_by, zero, suc, ◌+◌, ◌≡◌, ◌∙◌, refl, inl, inr,
  Bool, true, false, Bool-cases, none, List, [], ◌∷◌, Key, arith, All, count_by, if◌then◌else◌,
}
use teamos_backend.Amounts.{Amounts, IsOrdered}
use teamos_backend.Rows.{All-map}
use teamos_backend.Performance.Model.{Rating, Performance}
use teamos_backend.Performance.Store.{PerformanceDb}
use teamos_backend.Performance.Views.{
  same_rating, RatingCount, count_rating, rows_of, is_in_scope, by_score, insert_by_score, slice,
  rating_distribution, get_org_stats, stats_of,
}
use teamos_backend.Performance.Visibility.{All-insert_by_score}

-- What `ratingDistribution` holds for a rating, 0 if it has no entry.
unfoldable pub counted : List RatingCount → Rating → ℕ
counted [] r = 0
counted (x ∷ xs) r = if same_rating x.rating r then x.count else counted xs r

counted-count_rating :
    (s r : Rating) (xs : List RatingCount)
    → counted (count_rating s xs) r ≡ counted xs r + (if same_rating s r then 1 else 0)
unfolding counted count_rating
counted-count_rating s r [] = ground arith
counted-count_rating s r (x ∷ xs) = ground (arith, counted-count_rating s r xs)

module _ {V : Type 0} (num : Amounts V) where
  counted-distribution :
      (r : Rating) (counts : List RatingCount) (ps : List (Performance V))
      → counted (rating_distribution num counts ps) r
        ≡ counted counts r + count_by (λ p. same_rating p.rating r) ps
  unfolding rating_distribution
  counted-distribution r counts [] = omega arith
  counted-distribution r counts (p ∷ ps) =
      let step = counted-count_rating p.rating r counts in
      let ih = counted-distribution r (count_rating p.rating counts) ps in ground (arith, step, ih)

  count_by-insert :
      (q : Performance V → Bool) (p : Performance V) (ps : List (Performance V))
      → count_by q (insert_by_score num p ps) ≡ count_by q (p ∷ ps)
  unfolding insert_by_score
  count_by-insert q p [] = refl
  count_by-insert q p (x ∷ ps) = ground (arith, count_by-insert q p ps)

  count_by-by_score :
      (q : Performance V → Bool) (ps : List (Performance V))
      → count_by q (by_score num ps) ≡ count_by q ps
  unfolding by_score
  count_by-by_score q [] = refl
  count_by-by_score q (p ∷ ps) = count_by-insert q p (by_score num ps) ∙ rw (count_by-by_score q ps)

  stats_of-distribution :
      (r : Rating) (ps : List (Performance V))
      → counted (stats_of num ps).distribution r ≡ count_by (λ p. same_rating p.rating r) ps
  unfolding counted stats_of
  stats_of-distribution r [] = refl
  stats_of-distribution r (p ∷ ps) = counted-distribution r [] (p ∷ ps) ∙ omega arith

  abbrev is_above : Performance V → Performance V → Bool
  is_above p q = num.lt p.performance_score q.performance_score

  -- No row has a better one behind it.
  abbrev pub IsRanked : List (Performance V) → Type 0
  IsRanked [] = Unit
  IsRanked (p ∷ ps) = All (λ q. is_above p q ≡ false) ps × IsRanked ps

  -- The rows after the first `n`.
  behind : ℕ → List (Performance V) → List (Performance V)
  behind zero ps = ps
  behind (suc n) [] = []
  behind (suc n) (p ∷ ps) = behind n ps

  slice-behind : (n : ℕ) (ps : List (Performance V)) → slice num n ps ++ behind n ps ≡ ps
  unfolding behind
  slice-behind zero ps = refl
  slice-behind (suc n) [] = refl
  slice-behind (suc n) (p ∷ ps) = ap (λ qs. p ∷ qs) (slice-behind n ps)

  length-slice :
      (n : ℕ) (ps : List (Performance V))
      → (length (slice num n ps) ≤ n) × ((length (slice num n ps) ≡ n) ⊎ (behind n ps ≡ []))
  unfolding behind
  length-slice zero ps = (omega arith, inl refl)
  length-slice (suc n) [] = (omega arith, inr refl)
  length-slice (suc n) (p ∷ ps) =
      let (few, full) = length-slice n ps in
      (omega arith, elim full [ inl e ↦ inl (ap suc e) | inr e ↦ inr e ])

  stats_of-top : (ps : List (Performance V)) → (stats_of num ps).top_performers ≡ slice num 5 ps
  unfolding stats_of
  stats_of-top [] = refl
  stats_of-top (p ∷ ps) = refl

  -- The organization's rows, however they are sorted.
  count_by-rows_of :
      (org : Key) (q : Performance V → Bool) (ps : List (Performance V))
      → count_by q (filter_by (λ p. p.organization_id == org && is_in_scope none p.user_id) ps)
        ≡ count_by (λ p. p.organization_id == org && q p) ps
  count_by-rows_of org q [] = refl
  count_by-rows_of org q (p ∷ ps) = ground (arith, count_by-rows_of org q ps)

  -- The top performers come first among some rows that hold the organization's and no others, each
  -- as often as the table does, with no better one behind a worse one; they are five or all.
  pub record AreTop (org : Key) (rows top rest : List (Performance V)) : Type 0 where
    pub few : length top ≤ 5
    pub full : (length top ≡ 5) ⊎ (rest ≡ [])
    pub ranked : IsRanked (top ++ rest)
    pub counts :
        (q : Performance V → Bool)
        → count_by q (top ++ rest) ≡ count_by (λ p. p.organization_id == org && q p) rows

  module _ (ordered : IsOrdered num) where
    not_below :
        (p q x : Performance V) → is_above p q ≡ false → is_above q x ≡ false → is_above p x ≡ false
    not_below p q x h k = elim (Bool-cases (is_above p x)) [
      | inl e ↦ let bad : is_above q x ≡ true = ordered.le_lt_trans _ _ _ e h in cc
      | inr e ↦ e
    ]

    not_both : (p q : Performance V) → is_above p q ≡ true → is_above q p ≡ false
    not_both p q h = elim (Bool-cases (is_above q p)) [
      | inl e ↦
          let bad : is_above p p ≡ true = ordered.lt_trans _ _ _ h e in
          let good = ordered.lt_irrefl p.performance_score in cc
      | inr e ↦ e
    ]

    insert-IsRanked :
        (p : Performance V) (qs : List (Performance V))
        → IsRanked qs
        → IsRanked (insert_by_score num p qs)
    unfolding insert_by_score
    insert-IsRanked p [] r = (tt, tt)
    insert-IsRanked p (q ∷ qs) r = elim (Bool-cases (is_above p q)) [
      | inl e ↦ rw e (
        All-insert_by_score num (λ x. is_above q x ≡ false) p qs (not_both p q e) r.0,
        insert-IsRanked p qs r.1,
      )
      | inr e ↦ rw e (
        (
          e,
          All-map (λ x. is_above q x ≡ false) (λ x. is_above p x ≡ false) qs
              (λ x k. not_below p q x e k) r.0,
        ),
        r,
      )
    ]

    by_score-IsRanked : (ps : List (Performance V)) → IsRanked (by_score num ps)
    unfolding by_score
    by_score-IsRanked [] = tt
    by_score-IsRanked (p ∷ ps) = insert-IsRanked p (by_score num ps) (by_score-IsRanked ps)

    -- Where numbers are ordered, the top performers are five rows of the organization, or all of
    -- them, and the organization's other rows can be put behind them so that no row stands behind
    -- a worse one; and the distribution counts for each rating the organization's rows that have
    -- it.
    pub get_org_stats_exact :
        (org : Key) (r : Rating) (db : PerformanceDb V)
        → let s = get_org_stats num org db in
          ((rest : List (Performance V)) × AreTop org db.performances s.top_performers rest)
          × (counted s.distribution r
              ≡ count_by (λ p. p.organization_id == org && same_rating p.rating r) db.performances)
    unfolding get_org_stats
    get_org_stats_exact org r db =
        let rows = rows_of num org none db in
        let sorted = by_score num rows in
        let whole_list = slice-behind 5 sorted in
        (
          (
            behind 5 sorted,
            rw (stats_of-top sorted) (record {
              few = (length-slice 5 sorted).0;
              full = (length-slice 5 sorted).1;
              ranked = rw whole_list (by_score-IsRanked rows);
              counts = λ q.
                  rw whole_list (count_by-by_score q rows ∙ count_by-rows_of org q db.performances);
            }),
          ),
          stats_of-distribution r sorted
              ∙ count_by-by_score (λ p. same_rating p.rating r) rows
              ∙ count_by-rows_of org (λ p. same_rating p.rating r) db.performances,
        )
