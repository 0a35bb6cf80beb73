-- ===== src/Complaint/Filing.antt =====
-- `ComplaintService.create`
use mathlib.Core.Option.{get_or}
use teamos_backend.Prelude.{
  ℕ, suc, Bool, true, false, none, some, List, [], ◌∷◌, ◌++◌, Key, is_some, contains, filter_by,
  map, Result, ok, bad_request, internal_error, throw_if, ◌>>◌, ◌==◌, ◌&&◌, ◌||◌, not, leb,
}
use teamos_backend.Roles.{admin, rank}
use teamos_backend.Directory.{Member, UserProfile, find_profile}
use teamos_backend.Outbox.{Effect, emit, notify, severity, complaint_created, medium}
use teamos_backend.Complaint.Model.{
  Complaint, ComplaintTarget, ComplaintMessage, ComplaintDb, Fault, Answer, CreateComplaintDto,
  opened, bug, targets_self, users_missing, unique_target,
}

-- `dto.targetUserIds`, missing or empty alike.
abbrev pub named_users : CreateComplaintDto → List Key
named_users dto = get_or dto.target_user_ids []

-- `missing.length === 0`
abbrev pub all_found : List UserProfile → Key → List Key → Bool
all_found profiles org [] = true
all_found profiles org (u ∷ us) = is_some (find_profile profiles org u) && all_found profiles org us

-- `@@unique([complaintId, userId])`
abbrev pub has_twice : List Key → Bool
has_twice [] = false
has_twice (u ∷ us) = contains us u || has_twice us

unfoldable pub check_create : Key → Key → CreateComplaintDto → ComplaintDb → Result Fault (Unit {0})
check_create org user dto db = do
  throw_if (contains (named_users dto) user) bad_request targets_self
  throw_if (not (all_found db.profiles org (named_users dto))) bad_request users_missing
  throw_if (has_twice (named_users dto)) internal_error unique_target

-- The row that `tx.complaint.create` inserts, with the defaults of the schema.
unfoldable pub new_complaint : Key → ℕ → Key → Key → CreateComplaintDto → Complaint
new_complaint new_id now org user dto = record {
  id = new_id;
  organization_id = org;
  title = dto.title;
  description = dto.description;
  category = get_or dto.category bug;
  priority = get_or dto.priority medium;
  status = opened;
  resolution = none;
  resolved_at = none;
  user_id = user;
  resolved_by_id = none;
  created_at = now;
  updated_at = now;
}

unfoldable pub new_targets : (ℕ → Key) → Key → ℕ → List Key → List ComplaintTarget
new_targets ids k i [] = []
new_targets ids k i (u ∷ us) =
    record { id = ids i; complaint_id = k; user_id = u } ∷ new_targets ids k (suc i) us

-- `findMany({ where: { organizationId: orgId, role: { in: ['admin', 'owner'] } } })`, less the
-- submitter.
unfoldable pub admins_of : List Member → Key → Key → List Key
admins_of members org user =
    filter_by (λ u. not (u == user))
      (map (λ m. m.user_id)
        (filter_by (λ m. m.organization_id == org && leb (rank admin) (rank m.role)) members))

unfoldable pub creation_notices : Key → Key → List Key → List (Effect ComplaintMessage)
creation_notices org k = map (λ u. notify (record {
  org_id = org;
  user_id = u;
  kind = complaint_created;
  level = severity complaint_created;
  related_id = some k;
}))

-- `new_id`, `ids` and `now` are the identifiers and the time that the database makes up.
unfoldable pub create :
    Key → (ℕ → Key) → ℕ → Key → Key → CreateComplaintDto → ComplaintDb → Answer Complaint
unfolding new_complaint creation_notices
create new_id ids now org user dto db = do
  check_create org user dto db
  let row = new_complaint new_id now org user dto
  ok (
    row,
    record db {
      complaints = db.complaints ++ row ∷ [];
      targets = db.targets ++ new_targets ids new_id 0 (named_users dto);
      outbox =
          db.outbox
          ++ emit org (ComplaintMessage.complaint_created row (named_users dto))
            ∷ (creation_notices org new_id (named_users dto)
                ++ creation_notices org new_id (admins_of db.members org user));
    },
  )
