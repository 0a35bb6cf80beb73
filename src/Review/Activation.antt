-- ===== src/Review/Activation.antt =====
-- `ReviewService.activateCycle`
use Prim.Native.String.{String}
use teamos_backend.Prelude.{
  ℕ, suc, Bool, Option, none, some, List, [], ◌∷◌, ◌++◌, Key, truthy, contains, filter_by,
  update_by, any_by, length, map, Result, ok, conflict, internal_error, throw_if, ◌>>=◌, ◌>>◌, ◌==◌,
  ◌&&◌, not, if◌then◌else◌,
}
use teamos_backend.Directory.{Member, UserProfile, is_active}
use teamos_backend.Outbox.{Effect, emit, notify, severity, NotificationType, AuditAction}
use teamos_backend.Review.Model.{
  draft, active, ReviewType, self, manager, upward, pending, TemplateSection, ReviewTemplate,
  ReviewCycle, PerformanceReview, ReviewMessage, review_assigned, ReviewDb, Fault, Answer,
  not_draft, unique_review, same_cycle_status,
}
use teamos_backend.Review.Lookup.{find_one_template, validate_cycle, audit_entry}

-- `member.findMany({ where: { organizationId, userId: { notIn: excludedUserIds } } })`
unfoldable pub invited : List Member → Key → List Key → List Key
invited members org excluded =
    map (λ m. m.user_id)
      (filter_by (λ m. m.organization_id == org && not (contains excluded m.user_id)) members)

-- The active profiles of those users: whoever takes part, with their supervisors.
unfoldable pub eligible : List Member → List UserProfile → Key → List Key → List UserProfile
unfolding invited
eligible members profiles org excluded =
    filter_by
      (λ p.
        p.organization_id == org
        && (contains (invited members org excluded) p.user_id && is_active p.status))
      profiles

-- An entry of `reviewsToCreate`.
pub record Assignment : Type 0 where
  pub reviewee_id : Key
  pub reviewer_id : Key
  pub kind : ReviewType

abbrev pub assignment : Key → Key → ReviewType → Assignment
assignment reviewee reviewer kind = record {
  reviewee_id = reviewee;
  reviewer_id = reviewer;
  kind = kind;
}

-- The reviews of one user: their own, and with a supervisor one in each direction.
abbrev pub assignments_of : Key → Option Key → List Assignment
assignments_of user none = assignment user user self ∷ []
assignments_of user (some supervisor) =
    assignment user user self
    ∷ assignment user supervisor manager
    ∷ assignment supervisor user upward
    ∷ []

unfoldable pub reviews_to_create : List UserProfile → List Assignment
reviews_to_create [] = []
reviews_to_create (p ∷ ps) =
    assignments_of p.user_id (truthy p.supervisor_id) ++ reviews_to_create ps

-- `uniqueKey`, in one cycle.
abbrev pub same_pair : Assignment → Assignment → Bool
same_pair a b = a.reviewee_id == b.reviewee_id && a.reviewer_id == b.reviewer_id

abbrev pub is_seen : List Assignment → Assignment → Bool
is_seen seen a = any_by (same_pair a) seen

-- `filter` with the set `seen`: of the reviews with one key the first is kept.
unfoldable pub dedupe : List Assignment → List Assignment → List Assignment
dedupe seen [] = []
dedupe seen (a ∷ rest) =
    let kept = a ∷ dedupe (a ∷ seen) rest in
    let skipped = dedupe seen rest in if is_seen seen a then skipped else kept

abbrev pub activate : List TemplateSection → ReviewCycle → ReviewCycle
activate sections c = record c { status = active; template_snapshot = some sections }

unfoldable pub assigned_notices : Key → Key → List Key → List (Effect ReviewMessage)
assigned_notices org k = map (λ u. notify (record {
  org_id = org;
  user_id = u;
  kind = NotificationType.review_assigned;
  level = severity NotificationType.review_assigned;
  related_id = some k;
}))

module _ {V : Type 0} where
  -- The row that `createMany` inserts for an assignment.
  abbrev pub new_review : Key → Key → Key → Assignment → PerformanceReview V
  new_review new_id cycle org a = record {
    id = new_id;
    review_cycle_id = cycle;
    organization_id = org;
    reviewee_id = a.reviewee_id;
    reviewer_id = a.reviewer_id;
    kind = a.kind;
    responses = none;
    overall_score = none;
    status = pending;
    submitted_at = none;
  }

  unfoldable pub new_reviews :
      (ℕ → Key) → ℕ → Key → Key → List Assignment → List (PerformanceReview V)
  new_reviews ids i cycle org [] = []
  new_reviews ids i cycle org (a ∷ rest) =
      new_review (ids i) cycle org a ∷ new_reviews ids (suc i) cycle org rest

  -- `@@unique([reviewCycleId, revieweeId, reviewerId])`: a stored review with the key.
  abbrev pub has_review : List (PerformanceReview V) → Key → Key → Key → Bool
  has_review reviews cycle reviewee reviewer =
      any_by
        (λ r.
          r.review_cycle_id == cycle && (r.reviewee_id == reviewee && r.reviewer_id == reviewer))
        reviews

  abbrev pub is_taken : List (PerformanceReview V) → Key → Assignment → Bool
  is_taken reviews cycle a = has_review reviews cycle a.reviewee_id a.reviewer_id

  unfoldable pub takers : Key → ReviewCycle → ReviewDb V → List UserProfile
  unfolding eligible
  takers org cycle db = eligible db.members db.profiles org cycle.excluded_user_ids

  unfoldable pub deduped : Key → ReviewCycle → ReviewDb V → List Assignment
  unfolding takers reviews_to_create dedupe
  deduped org cycle db = dedupe [] (reviews_to_create (takers org cycle db))

  unfoldable pub check_activate :
      Key → Key → ReviewDb V → Result Fault (ReviewCycle × ReviewTemplate)
  check_activate org k db = do
    cycle ← validate_cycle db org k
    throw_if (not (same_cycle_status cycle.status draft)) conflict not_draft
    template ← find_one_template db org cycle.template_id
    throw_if (any_by (is_taken db.reviews k) (deduped org cycle db)) internal_error unique_review
    ok (cycle, template)

  -- `ids` are the identifiers that the database makes up.
  unfoldable pub activate_cycle :
      (ℕ → Key) → Key → Key → Option Key → Option String → ReviewDb V → Answer V ReviewCycle
  unfolding assigned_notices new_reviews
  activate_cycle ids org k actor ip db = do
    found ← check_activate org k db
    let rows = deduped org found.0 db
    let users = map (λ p. p.user_id) (takers org found.0 db)
    ok (
      activate found.1.sections found.0,
      record db {
        reviews = db.reviews ++ new_reviews ids 0 k org rows;
        cycles = update_by (λ c. c.id == k) (activate found.1.sections) db.cycles;
        outbox =
            db.outbox
            ++ (emit org (review_assigned k found.0.name (length rows))
                ∷ (assigned_notices org k users
                    ++ audit_entry (truthy actor) org AuditAction.review_cycle_activated k ip));
      },
    )
