-- ===== src/Review/Cycles.antt =====
-- `ReviewService.createCycle`, `updateCycle`, `removeCycle`, `transitionToCalibrating`,
-- `findAllCycles` and `findOneCycle`
use Prim.Native.String.{String}
use mathlib.Core.Option.{get_or}
use teamos_backend.Prelude.{
  ℕ, zero, suc, ◌+◌, Bool, true, false, Option, none, some, List, [], ◌∷◌, ◌++◌, Key, truthy,
  same_key, filter_by, update_by, delete_by, count_by, map, Result, ok, err, bad_request, forbidden,
  conflict, internal_error, throw_if, ◌>>=◌, ◌>>◌, ◌==◌, ◌&&◌, not, leb, if◌then◌else◌,
}
use teamos_backend.Directory.{UserProfile, find_profile}
use teamos_backend.Outbox.{AuditAction}
use teamos_backend.Performance.{Performance}
use teamos_backend.Review.Model.{
  ReviewCycleStatus, draft, active, calibrating, submitted, overdue, ReviewTemplate, ReviewCycle,
  PerformanceReview, ReviewDb, Fault, Answer, CreateReviewCycleDto, UpdateReviewCycleDto,
  end_before_start, not_draft_update, not_draft_delete, not_active, foreign_key, same_cycle_status,
  same_review_status,
}
use teamos_backend.Review.Lookup.{check_member, find_one_template, validate_cycle, audit_entry}

unfoldable pub new_cycle : Key → Key → Key → CreateReviewCycleDto → ReviewCycle
new_cycle new_id org user dto = record {
  id = new_id;
  organization_id = org;
  template_id = dto.template_id;
  name = dto.name;
  start_date = dto.start_date;
  end_date = dto.end_date;
  status = draft;
  template_snapshot = none;
  excluded_user_ids = get_or dto.excluded_user_ids [];
  created_by_id = user;
}

-- `dto.endDate && dto.startDate && new Date(dto.endDate) <= new Date(dto.startDate)`
abbrev pub ends_early : Option ℕ → Option ℕ → Bool
ends_early (some start) (some end) = leb end start
ends_early _ _ = false

unfoldable pub patch_cycle : UpdateReviewCycleDto → ReviewCycle → ReviewCycle
patch_cycle dto c = record c {
  name = get_or dto.name c.name;
  template_id = get_or dto.template_id c.template_id;
  start_date = get_or dto.start_date c.start_date;
  end_date = get_or dto.end_date c.end_date;
  excluded_user_ids = get_or dto.excluded_user_ids c.excluded_user_ids;
}

abbrev pub set_cycle_status : ReviewCycleStatus → ReviewCycle → ReviewCycle
set_cycle_status status c = record c { status = status }

-- `linkedPerformances`: a row's link to a cycle that is deleted is cleared.
abbrev unlink : {V : Type 0} → Key → Performance V → Performance V
unlink k p =
    if same_key p.last_review_cycle_id (some k) then record p { last_review_cycle_id = none } else p

module _ {V : Type 0} where
  unfoldable pub check_create_cycle :
      Key → Key → CreateReviewCycleDto → ReviewDb V → Result Fault ReviewTemplate
  check_create_cycle org user dto db = do
    check_member db org user
    throw_if (leb dto.end_date dto.start_date) bad_request end_before_start
    find_one_template db org dto.template_id

  unfoldable pub create_cycle :
      Key → Key → Key → CreateReviewCycleDto → ReviewDb V → Answer V ReviewCycle
  unfolding new_cycle
  create_cycle new_id org user dto db = do
    check_create_cycle org user dto db
    let cycle = new_cycle new_id org user dto
    ok (cycle, record db { cycles = db.cycles ++ cycle ∷ [] })

  -- `if (dto.templateId) await this.findOneTemplate(…)`; the empty string is no template's id, and
  -- the foreign key refuses it.
  abbrev check_template : ReviewDb V → Key → Option Key → Result Fault (Unit {0})
  check_template db org none = ok tt
  check_template db org (some zero) = err internal_error foreign_key
  check_template db org (some (suc k)) = find_one_template db org (suc k) >>= λ _. ok tt

  unfoldable pub check_update_cycle :
      Key → Key → UpdateReviewCycleDto → ReviewDb V → Result Fault ReviewCycle
  check_update_cycle org k dto db = do
    cycle ← validate_cycle db org k
    throw_if (not (same_cycle_status cycle.status draft)) forbidden not_draft_update
    throw_if (ends_early dto.start_date dto.end_date) bad_request end_before_start
    check_template db org dto.template_id
    ok cycle

  unfoldable pub update_cycle : Key → Key → UpdateReviewCycleDto → ReviewDb V → Answer V ReviewCycle
  unfolding patch_cycle
  update_cycle org k dto db = do
    cycle ← check_update_cycle org k dto db
    ok (
      patch_cycle dto cycle,
      record db { cycles = update_by (λ c. c.id == k) (patch_cycle dto) db.cycles },
    )

  unfoldable pub check_remove_cycle : Key → Key → ReviewDb V → Result Fault ReviewCycle
  check_remove_cycle org k db = do
    cycle ← validate_cycle db org k
    throw_if (not (same_cycle_status cycle.status draft)) forbidden not_draft_delete
    ok cycle

  -- The schema deletes a cycle's reviews, nominations and sessions with it.
  unfoldable pub remove_cycle : Key → Key → ReviewDb V → Answer V ReviewCycle
  remove_cycle org k db = do
    cycle ← check_remove_cycle org k db
    ok (
      cycle,
      record db {
        cycles = delete_by (λ c. c.id == k) db.cycles;
        reviews = delete_by (λ r. r.review_cycle_id == k) db.reviews;
        nominations = delete_by (λ n. n.review_cycle_id == k) db.nominations;
        sessions = delete_by (λ s. s.review_cycle_id == k) db.sessions;
        performances = map (unlink k) db.performances;
      },
    )

  unfoldable pub check_transition : Key → Key → ReviewDb V → Result Fault ReviewCycle
  check_transition org k db = do
    cycle ← validate_cycle db org k
    throw_if (not (same_cycle_status cycle.status active)) conflict not_active
    ok cycle

  unfoldable pub transition_to_calibrating :
      Key → Key → Option Key → Option String → ReviewDb V → Answer V ReviewCycle
  transition_to_calibrating org k actor ip db = do
    cycle ← check_transition org k db
    ok (
      set_cycle_status calibrating cycle,
      record db {
        cycles = update_by (λ c. c.id == k) (set_cycle_status calibrating) db.cycles;
        outbox =
            db.outbox ++ audit_entry (truthy actor) org AuditAction.review_cycle_calibrating k ip;
      },
    )

  abbrev pub of_cycle : Key → PerformanceReview V → Bool
  of_cycle k r = r.review_cycle_id == k

  -- `submissionStats` of the list: the cycle, its number of reviews, and of submitted ones.
  unfoldable pub find_all_cycles :
      Key → Option ReviewCycleStatus → ReviewDb V → List (ReviewCycle × ℕ × ℕ)
  find_all_cycles org status db =
      map
        (λ c. (
          c,
          count_by (of_cycle c.id) db.reviews,
          count_by (λ r. of_cycle c.id r && same_review_status r.status submitted) db.reviews,
        ))
        (filter_by
          (λ c.
            c.organization_id == org
            && (elim status [ none ↦ true | some s ↦ same_cycle_status c.status s ]))
          db.cycles)

-- `deptStats`: the entries of the departments, in the order in which they were made; `none` stands
-- for 'unassigned'.
pub record DepartmentStats : Type 0 where
  pub department_id : Option Key
  pub total : ℕ
  pub submitted : ℕ

pub record CycleStats : Type 0 where
  pub total : ℕ
  pub submitted : ℕ
  pub overdue : ℕ
  pub departments : List DepartmentStats

abbrev one_if : Bool → ℕ
one_if true = 1
one_if false = 0

unfoldable pub tally : Option Key → Bool → List DepartmentStats → List DepartmentStats
tally dept done [] = record { department_id = dept; total = 1; submitted = one_if done } ∷ []
tally dept done (d ∷ ds) =
    let rest = tally dept done ds in
    if same_key d.department_id dept
    then record d { total = d.total + 1; submitted = d.submitted + one_if done } ∷ ds
    else d ∷ rest

abbrev department_of : Option UserProfile → Option Key
department_of none = none
department_of (some p) = p.department_id

module _ {V : Type 0} where
  -- `userDeptMap.get(review.revieweeId) ?? 'unassigned'`
  abbrev pub department_of_reviewee : ReviewDb V → Key → PerformanceReview V → Option Key
  department_of_reviewee db org r = department_of (find_profile db.profiles org r.reviewee_id)

  unfoldable pub department_stats :
      ReviewDb V → Key → List DepartmentStats → List (PerformanceReview V) → List DepartmentStats
  unfolding tally
  department_stats db org stats [] = stats
  department_stats db org stats (r ∷ rs) =
      department_stats db org
        (tally (department_of_reviewee db org r) (same_review_status r.status submitted) stats) rs

  unfoldable pub find_one_cycle : Key → Key → ReviewDb V → Result Fault (ReviewCycle × CycleStats)
  unfolding department_stats
  find_one_cycle org k db = do
    cycle ← validate_cycle db org k
    let reviews = filter_by (of_cycle k) db.reviews
    ok (
      cycle,
      record {
        total = count_by (of_cycle k) db.reviews;
        submitted = count_by (λ r. same_review_status r.status submitted) reviews;
        overdue = count_by (λ r. same_review_status r.status overdue) reviews;
        departments = department_stats db org [] reviews;
      },
    )
