-- ===== src/Complaint/Listing.antt =====
-- `ComplaintService.findAll`, `findOne`, `getStats`, `buildVisibilityFilter` and `canAccess`. What
-- the answers include of users is not modelled.
use mathlib.Core.Option.{get_or}
use teamos_backend.Prelude.{
  ℕ, zero, suc, ◌+◌, ◌-◌, ◌*◌, ◌/◌, Bool, true, false, Option, none, some, List, [], ◌∷◌, Key,
  same_key, any_by, find_by, filter_by, count_by, Result, ok, not_found, forbidden, or_throw,
  throw_if, ◌>>=◌, ◌>>◌, ◌==◌, ◌&&◌, ◌||◌, not, leb, if◌then◌else◌,
}
use teamos_backend.Roles.{Role, supervisor, same_role}
use teamos_backend.Directory.{UserProfile}
use teamos_backend.Outbox.{Priority, same_priority}
use teamos_backend.Complaint.Model.{
  ComplaintStatus, opened, in_review, late, resolved, dismissed, ComplaintCategory, bug, complaint,
  suggestion, error, other, Complaint, ComplaintDb, Fault, owned_by, is_targeted, same_status,
  complaint_missing, no_access,
}
use teamos_backend.Complaint.Handling.{is_admin_or_owner}

-- `submittedBy: { profiles: { some: { organizationId: orgId, supervisorId: userId } } }`
unfoldable pub supervises : List UserProfile → Key → Key → Key → Bool
supervises profiles org user submitter =
    any_by
      (λ p.
        p.user_id == submitter
        && (p.organization_id == org && same_key p.supervisor_id (some user)))
      profiles

-- `buildVisibilityFilter`, as the test that it makes on a complaint.
unfoldable pub is_visible : ComplaintDb → Key → Key → Role → Complaint → Bool
unfolding supervises
is_visible db org user role c =
    c.organization_id == org
    && (is_admin_or_owner role
        || (c.user_id == user
            || (is_targeted db.targets c.id user
                || (same_role role supervisor && supervises db.profiles org user c.user_id))))

-- `canAccess`
unfoldable pub can_access : ComplaintDb → Key → Role → Complaint → Bool
can_access db user role c =
    is_admin_or_owner role || (c.user_id == user || is_targeted db.targets c.id user)

abbrev pub same_category : ComplaintCategory → ComplaintCategory → Bool
same_category bug bug = true
same_category complaint complaint = true
same_category suggestion suggestion = true
same_category error error = true
same_category other other = true
same_category _ _ = false

pub record ComplaintQueryDto : Type 0 where
  pub status : Option ComplaintStatus
  pub category : Option ComplaintCategory
  pub priority : Option Priority
  pub page : Option ℕ
  pub limit : Option ℕ

unfoldable pub passes : ComplaintQueryDto → Complaint → Bool
passes query c =
    (elim query.status [ none ↦ true | some s ↦ same_status c.status s ])
    && ((elim query.category [ none ↦ true | some s ↦ same_category c.category s ])
        && (elim query.priority [ none ↦ true | some s ↦ same_priority c.priority s ]))

-- `orderBy: { createdAt: 'desc' }`; of rows that tie, the later one of the table comes first.
abbrev pub insert_newest : Complaint → List Complaint → List Complaint
insert_newest c [] = c ∷ []
insert_newest c (d ∷ ds) =
    let rest = insert_newest c ds in if leb d.created_at c.created_at then c ∷ d ∷ ds else d ∷ rest

abbrev pub newest_first : List Complaint → List Complaint → List Complaint
newest_first sorted [] = sorted
newest_first sorted (c ∷ cs) = newest_first (insert_newest c sorted) cs

-- `skip` and `take`
abbrev pub skip : ℕ → List Complaint → List Complaint
skip zero cs = cs
skip (suc n) [] = []
skip (suc n) (_ ∷ cs) = skip n cs

abbrev pub take : ℕ → List Complaint → List Complaint
take zero cs = []
take (suc n) [] = []
take (suc n) (c ∷ cs) = c ∷ take n cs

pub record ComplaintPage : Type 0 where
  pub items : List Complaint
  pub total : ℕ
  pub page : ℕ
  pub limit : ℕ
  pub total_pages : ℕ

-- The DTO admits a `page` and a `limit` from 1 on. `Math.ceil(total / limit)` is a division that
-- is rounded up.
unfoldable pub find_all : Key → Key → Role → ComplaintQueryDto → ComplaintDb → ComplaintPage
unfolding is_visible passes
find_all org user role query db =
    let page = get_or query.page 1 in
    let limit = get_or query.limit 20 in
    let wanted : Complaint → Bool = λ c. is_visible db org user role c && passes query c in
    let total = count_by wanted db.complaints in
    record {
      items =
          take limit (skip ((page - 1) * limit) (newest_first [] (filter_by wanted db.complaints)));
      total = total;
      page = page;
      limit = limit;
      total_pages = (total + (limit - 1)) / limit;
    }

unfoldable pub find_one : Key → Key → Key → Role → ComplaintDb → Result Fault Complaint
unfolding can_access
find_one org k user role db = do
  row ← or_throw (find_by (owned_by org k) db.complaints) not_found complaint_missing
  throw_if (not (can_access db user role row)) forbidden no_access
  ok row

pub record ComplaintStats : Type 0 where
  pub total : ℕ
  pub opened : ℕ
  pub in_review : ℕ
  pub late : ℕ
  pub resolved : ℕ
  pub dismissed : ℕ

unfoldable pub count_visible : Key → Key → Role → ComplaintStatus → ComplaintDb → ℕ
unfolding is_visible
count_visible org user role status db =
    count_by (λ c. is_visible db org user role c && same_status c.status status) db.complaints

unfoldable pub get_stats : Key → Key → Role → ComplaintDb → ComplaintStats
unfolding is_visible count_visible
get_stats org user role db = record {
  total = count_by (λ c. is_visible db org user role c) db.complaints;
  opened = count_visible org user role opened db;
  in_review = count_visible org user role in_review db;
  late = count_visible org user role late db;
  resolved = count_visible org user role resolved db;
  dismissed = count_visible org user role dismissed db;
}
