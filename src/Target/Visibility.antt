-- ===== src/Target/Visibility.antt =====
-- The list of targets against the single view.
use teamos_backend.Prelude.{
  ◌≡◌, true, some, List, Key, arith, ◌==◌, ◌&&◌, find_by, filter_by, All, Bool, Result, ok, ==_iff,
}
use teamos_backend.Rows.{HasKeys, All-found, All-filter_where, All-map, owned-find_by}
use teamos_backend.Roles.{Role}
use teamos_backend.Directory.{Member, UserProfile, find_member, find_profile}
use teamos_backend.Target.Model.{Target, TargetDb, Fault}
use teamos_backend.Target.Alignment.{find_target}
use teamos_backend.Target.Queries.{QueryTargetsDto, in_view, passes, find_all, find_one}

first_and_last : (a b c : Bool) → (a && (b && c)) ≡ true → (a ≡ true) × (c ≡ true)
first_and_last a b c h = ground arith

module _ {V : Type 0} where
  same_answer :
      {xs ys : List (Target V)} → ◌≡◌ {A = Result Fault (List (Target V))} (ok xs) (ok ys) → xs ≡ ys
  same_answer h = cc

  view_allows :
      (db : TargetDb V) (org user : Key) (role : Role) (p : UserProfile) (t : Target V)
      → find_profile db.profiles org user ≡ some p
      → find_target db.targets org t.id ≡ some t
      → in_view db.profiles org user role t ≡ true
      → find_one org t.id user (some role) db ≡ ok t
  unfolding find_one in_view
  view_allows db org user role p t profile found seen = ground arith

  -- Whatever the filters, a caller who has a profile may open every target that the list answers
  -- with, by their role in the organization.
  pub find_all-find_one :
      (org user : Key) (query : QueryTargetsDto) (db : TargetDb V) (caller : Member)
      (p : UserProfile) {ts : List (Target V)}
      → HasKeys (λ t. t.id) db.targets
      → find_member db.members org user ≡ some caller
      → find_profile db.profiles org user ≡ some p
      → find_all org user query db ≡ ok ts
      → All (λ t. find_one org t.id user (some caller.role) db ≡ ok t) ts
  unfolding find_all
  find_all-find_one org user query db caller p {ts} keys who profile h =
      let test : Target V → Bool = λ t.
        t.organization_id == org
        && (passes query t && in_view db.profiles org user caller.role t) in
      let answer : filter_by test db.targets ≡ ts = same_answer (rw who at h) in
      rw (← answer) (
        All-map (λ t. (find_by (λ x. x.id == t.id) db.targets ≡ some t) × (test t ≡ true))
          (λ t. find_one org t.id user (some caller.role) db ≡ ok t) (filter_by test db.targets)
          (λ t h.
            let seen =
              first_and_last (t.organization_id == org) (passes query t)
                (in_view db.profiles org user caller.role t) h.1 in
            view_allows db org user caller.role p t profile
              (owned-find_by (λ x. x.id) (λ x. x.organization_id) t.id org db.targets
                ((==_iff t.organization_id org).0 seen.0) h.0)
              seen.1)
          (All-filter_where (λ t. t.id) (λ t. find_by (λ x. x.id == t.id) db.targets ≡ some t) test
            db.targets (All-found (λ t. t.id) db.targets keys)))
