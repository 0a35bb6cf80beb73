-- ===== src/Performance/Views.antt =====
-- The reads of `PerformanceService`, and who may make them. The profile's department stands for
-- `department.staff`.
use teamos_backend.Prelude.{
  ℕ, suc, Bool, true, false, not, Option, none, some, List, [], ◌∷◌, Key, truthy, same_key,
  contains, filter_by, any_by, map, length, sort_by, Result, ok, forbidden, not_found, throw_if,
  or_throw, ◌>>◌, ◌==◌, ◌&&◌, leb, if◌then◌else◌,
}
use teamos_backend.Amounts.{Amounts}
use teamos_backend.Roles.{Role, member, supervisor, admin, owner}
use teamos_backend.Directory.{UserProfile, Department, find_department, team_of}
use teamos_backend.Performance.Model.{
  Rating, excellent, good, average, needs_improvement, Performance, PerformanceSnapshot,
  find_performance,
}
use teamos_backend.Performance.Store.{
  PerformanceDb, Fault, members_view_own, supervisors_view_team, no_performance,
}

-- `a === b` on ratings.
abbrev pub same_rating : Rating → Rating → Bool
same_rating excellent excellent = true
same_rating good good = true
same_rating average average = true
same_rating needs_improvement needs_improvement = true
same_rating _ _ = false

-- An entry of `ratingDistribution`.
pub record RatingCount : Type 0 where
  pub rating : Rating
  pub count : ℕ

-- `ratingDistribution[r] = (ratingDistribution[r] || 0) + 1`
unfoldable pub count_rating : Rating → List RatingCount → List RatingCount
count_rating r [] = record { rating = r; count = 1 } ∷ []
count_rating r (x ∷ xs) =
    let rest = count_rating r xs in
    if same_rating x.rating r then record x { count = suc x.count } ∷ xs else x ∷ rest

-- `users` of the filter: everyone, or those that the caller may see.
abbrev pub is_in_scope : Option (List Key) → Key → Bool
is_in_scope none user = true
is_in_scope (some users) user = contains users user

-- `where.userId` for a role.
abbrev pub scope_of : List UserProfile → Key → Key → Role → Option (List Key)
scope_of profiles org user member = some (user ∷ [])
scope_of profiles org user supervisor = some (team_of profiles org user)
scope_of profiles org user admin = none
scope_of profiles org user owner = none

-- The users of `department.staff`, `[]` for a department that is not the organization's.
unfoldable pub staff_of : List Department → List UserProfile → Key → Key → List Key
staff_of departments profiles org department = elim (find_department departments org department) [
  | none ↦ []
  | some d ↦ map (λ p. p.user_id) (filter_by (λ p. same_key p.department_id (some d.id)) profiles)
]

-- The filter by department narrows the scope.
abbrev pub narrow : Option (List Key) → List Key → List Key
narrow none staff = staff
narrow (some users) staff = filter_by (contains staff) users

-- The number of days that a trend goes back; `'all'` is `none`.
pub data TrendPeriod : Type 0 where
  week month quarter year all : TrendPeriod

abbrev pub trend_days : TrendPeriod → Option ℕ
trend_days week = some 7
trend_days month = some 30
trend_days quarter = some 90
trend_days year = some 365
trend_days all = none

-- `where: { period: { gte: from, lte: to } }`, each bound only if it is given.
abbrev pub is_between : Option ℕ → Option ℕ → ℕ → Bool
is_between from to day =
    (elim from [ none ↦ true | some f ↦ leb f day ])
    && (elim to [ none ↦ true | some t ↦ leb day t ])

module _ {V : Type 0} where
  unfoldable pub check_view_access :
      Key → Key → Key → Role → PerformanceDb V → Result Fault (Unit {0})
  check_view_access org target user admin db = ok tt
  check_view_access org target user owner db = ok tt
  check_view_access org target user member db =
      throw_if (not (target == user)) forbidden members_view_own
  check_view_access org target user supervisor db =
      let on_team =
        any_by
          (λ p.
            p.user_id == target
            && (same_key p.supervisor_id (some user) && p.organization_id == org))
          db.profiles in
      throw_if (not (target == user) && not on_team) forbidden supervisors_view_team

  unfoldable pub find_one : Key → Key → Key → Role → PerformanceDb V → Result Fault (Performance V)
  unfolding check_view_access
  find_one org target user role db = do
    check_view_access org target user role db
    or_throw (find_performance db.performances org target) not_found no_performance

  -- `orderBy: { createdAt: 'desc' }`
  unfoldable pub insert_newest :
      PerformanceSnapshot V → List (PerformanceSnapshot V) → List (PerformanceSnapshot V)
  insert_newest s [] = s ∷ []
  insert_newest s (x ∷ xs) =
      let rest = insert_newest s xs in
      if leb x.created_at s.created_at then s ∷ x ∷ xs else x ∷ rest

  unfoldable pub newest_first : List (PerformanceSnapshot V) → List (PerformanceSnapshot V)
  unfolding insert_newest
  newest_first [] = []
  newest_first (s ∷ ss) = insert_newest s (newest_first ss)

  unfoldable pub get_history :
      Key
      → Key
      → Key
      → Role
      → Option ℕ
      → Option ℕ
      → PerformanceDb V
      → Result Fault (List (PerformanceSnapshot V))
  unfolding check_view_access newest_first
  get_history org target user role from to db = do
    check_view_access org target user role db
    ok (
        newest_first (
          filter_by
            (λ s. s.organization_id == org && (s.user_id == target && is_between from to s.period))
            db.snapshots))

  -- `cutoff` is the time so many days ago, which `Date.setDate` computes.
  unfoldable pub get_performance_trend :
      (ℕ → ℕ)
      → Key
      → Key
      → Key
      → Role
      → TrendPeriod
      → PerformanceDb V
      → Result Fault (List (PerformanceSnapshot V))
  unfolding check_view_access
  get_performance_trend cutoff org target user role period db = do
    check_view_access org target user role db
    ok (
        sort_by (λ s. s.created_at)
          (filter_by
            (λ s.
              s.organization_id == org
              && (s.user_id == target && (elim (trend_days period) [
                | none ↦ true
                | some d ↦ leb (cutoff d) s.created_at
              ])))
            db.snapshots))

  module _ (num : Amounts V) where
    -- `orderBy: { performanceScore: 'desc' }`; rows that tie keep the table's order.
    unfoldable pub insert_by_score : Performance V → List (Performance V) → List (Performance V)
    insert_by_score p [] = p ∷ []
    insert_by_score p (q ∷ qs) =
        let rest = insert_by_score p qs in
        if num.lt p.performance_score q.performance_score then q ∷ rest else p ∷ q ∷ qs

    unfoldable pub by_score : List (Performance V) → List (Performance V)
    unfolding insert_by_score
    by_score [] = []
    by_score (p ∷ ps) = insert_by_score p (by_score ps)

    abbrev pub rows_of : Key → Option (List Key) → PerformanceDb V → List (Performance V)
    rows_of org users db =
        filter_by (λ p. p.organization_id == org && is_in_scope users p.user_id) db.performances

    unfoldable pub find_all :
        Key → Key → Role → Option Key → List Department → PerformanceDb V → List (Performance V)
    unfolding staff_of by_score
    find_all org user role department departments db =
        let scope = scope_of db.profiles org user role in
        elim (truthy department) [
          | none ↦ by_score (rows_of org scope db)
          | some d ↦
              by_score
                (rows_of org (some (narrow scope (staff_of departments db.profiles org d))) db)
        ]

    -- `slice(0, n)`
    abbrev pub slice : ℕ → List (Performance V) → List (Performance V)
    slice ℕ.zero ps = []
    slice (suc n) [] = []
    slice (suc n) (p ∷ ps) = p ∷ slice n ps

    unfoldable pub sum_scores : V → List (Performance V) → V
    sum_scores acc [] = acc
    sum_scores acc (p ∷ ps) = sum_scores (num.plus acc p.performance_score) ps

    unfoldable pub rating_distribution : List RatingCount → List (Performance V) → List RatingCount
    unfolding count_rating
    rating_distribution counts [] = counts
    rating_distribution counts (p ∷ ps) = rating_distribution (count_rating p.rating counts) ps

    -- `avgScore`, `ratingDistribution` and `topPerformers`
    pub record OrgStats : Type 0 where
      pub avg_score : V
      pub distribution : List RatingCount
      pub top_performers : List (Performance V)

    unfoldable pub stats_of : List (Performance V) → OrgStats
    unfolding sum_scores rating_distribution
    stats_of [] = record { avg_score = num.nil; distribution = []; top_performers = [] }
    stats_of (p ∷ ps) = record {
      avg_score =
          num.round_cents
            (num.over (sum_scores num.nil (p ∷ ps)) (num.from_count (length (p ∷ ps))));
      distribution = rating_distribution [] (p ∷ ps);
      top_performers = slice 5 (p ∷ ps);
    }

    unfoldable pub get_org_stats : Key → PerformanceDb V → OrgStats
    unfolding by_score stats_of
    get_org_stats org db = stats_of (by_score (rows_of org none db))
