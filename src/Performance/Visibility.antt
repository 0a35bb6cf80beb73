-- ===== src/Performance/Visibility.antt =====
-- Which rows of performance a caller is shown, and how the list and the single view agree.
use teamos_backend.Prelude.{
  ◌≡◌, ◌∙◌, ◌↔◌, refl, inl, inr, true, Bool-cases, some, List, [], ◌∷◌, ◌++◌, Key, arith, All,
  same_key, any_by, contains, filter_by, map, ok, ◌==◌, ◌&&◌, ◌||◌,
}
use teamos_backend.Amounts.{Amounts}
use teamos_backend.Roles.{Role, member, supervisor, admin, owner}
use teamos_backend.Directory.{UserProfile, team_of}
use teamos_backend.Performance.Model.{Performance}
use teamos_backend.Performance.Store.{PerformanceDb}
use teamos_backend.Performance.Views.{
  is_in_scope, scope_of, check_view_access, by_score, insert_by_score,
}

contains-append :
    (xs : List Key) (u k : Key) → contains (xs ++ u ∷ []) k ≡ (contains xs k || k == u)
contains-append [] u k = ground arith
contains-append (x ∷ xs) u k = ground (arith, contains-append xs u k)

supervised :
    (profiles : List UserProfile) (org user target : Key)
    → contains
        (map
          (λ p. p.user_id)
          (filter_by
            (λ p. same_key p.supervisor_id (some user) && p.organization_id == org)
            profiles))
        target
      ≡ any_by
          (λ p.
            p.user_id == target
            && (same_key p.supervisor_id (some user) && p.organization_id == org))
          profiles
supervised [] org user target = refl
supervised (p ∷ ps) org user target = ground (arith, supervised ps org user target)

contains-team_of :
    (profiles : List UserProfile) (org user target : Key)
    → contains (team_of profiles org user) target ≡ (
        any_by
          (λ p.
            p.user_id == target
            && (same_key p.supervisor_id (some user) && p.organization_id == org))
          profiles
        || target == user)
unfolding team_of
contains-team_of profiles org user target =
    contains-append _ user target ∙ rw (supervised profiles org user target)

module _ {V : Type 0} where
  -- The single view lets a caller see a user exactly when the list has the user in its scope.
  pub check_view_access_iff :
      (org target user : Key) (role : Role) (db : PerformanceDb V)
      → (check_view_access org target user role db ≡ ok tt)
        ↔ (is_in_scope (scope_of db.profiles org user role) target ≡ true)
  unfolding check_view_access
  check_view_access_iff org target user member db = ground arith
  check_view_access_iff org target user supervisor db =
      let team = contains-team_of db.profiles org user target in ground (arith, team)
  check_view_access_iff org target user admin db = ground arith
  check_view_access_iff org target user owner db = ground arith

module _ {V : Type 0} (num : Amounts V) where
  pub All-insert_by_score :
      (P : Performance V → Type 0) (p : Performance V) (ps : List (Performance V))
      → P p
      → All P ps
      → All P (insert_by_score num p ps)
  unfolding insert_by_score
  All-insert_by_score P p [] h a = (h, tt)
  All-insert_by_score P p (q ∷ qs) h a =
      elim (Bool-cases (num.lt p.performance_score q.performance_score)) [
        | inl e ↦ rw e (a.0, All-insert_by_score P p qs h a.1)
        | inr e ↦ rw e (h, a)
      ]

  pub All-by_score :
      (P : Performance V → Type 0) (ps : List (Performance V)) → All P ps → All P (by_score num ps)
  unfolding by_score
  All-by_score P [] a = tt
  All-by_score P (p ∷ ps) a = All-insert_by_score P p (by_score num ps) a.0 (All-by_score P ps a.1)

  -- A row that the caller may see alone.
  abbrev pub IsViewable : Key → Key → Role → PerformanceDb V → Performance V → Type 0
  IsViewable org user role db p =
      (p.organization_id ≡ org) × (check_view_access org p.user_id user role db ≡ ok tt)
