-- ===== src/Complaint/Visibility.antt =====
-- Which complaints a caller is shown, and how the list, the single view and the numbers agree.
use teamos_backend.Prelude.{
  ℕ, ◌≡◌, ◌⊎◌, ◌↔◌, inl, inr, true, Option, none, some, Key, arith, ◌==◌, ◌&&◌, find_by, same_key,
  ok, Option-cases,
}
use teamos_backend.Rows.{
  HasKeys, find_by-holds, owned-find_by, All-found, All-map, Any, any_by-Any, IsCount,
  count_by-IsCount,
}
use teamos_backend.Directory.{UserProfile}
use teamos_backend.Roles.{Role, supervisor}
use teamos_backend.Complaint.Model.{
  ComplaintStatus, opened, in_review, late, resolved, dismissed, Complaint, ComplaintDb,
  same_status, owned_by,
}
use teamos_backend.Complaint.Listing.{
  is_visible, supervises, can_access, find_one, ComplaintStats, get_stats, count_visible,
}

-- A profile in the organization names the user as the supervisor of the one who has filed it.
abbrev pub IsSupervised : ComplaintDb → Key → Key → Complaint → Type 0
IsSupervised db org user c =
    Any (λ p. (p.user_id ≡ c.user_id) × (p.organization_id ≡ org) × (p.supervisor_id ≡ some user))
      db.profiles

-- The caller may open the complaint, or is a supervisor of who has filed it in the organization.
-- (The single view refuses the supervisor.)
abbrev pub IsShown : ComplaintDb → Key → Key → Role → Complaint → Type 0
IsShown db org user role c =
    (find_one org c.id user role db ≡ ok c)
    ⊎ ((c.organization_id ≡ org) × (role ≡ supervisor) × IsSupervised db org user c)

find_one_iff :
    (org k user : Key) (role : Role) (db : ComplaintDb) (c : Complaint)
    → (find_one org k user role db ≡ ok c)
      ↔ ((find_by (owned_by org k) db.complaints ≡ some c) × (can_access db user role c ≡ true))
unfolding find_one
find_one_iff org k user role db c = ground arith

profile_iff :
    (org user submitter : Key) (p : UserProfile)
    → ((p.user_id == submitter
          && (p.organization_id == org && same_key p.supervisor_id (some user)))
        ≡ true)
      ↔ ((p.user_id ≡ submitter) × (p.organization_id ≡ org) × (p.supervisor_id ≡ some user))
profile_iff org user submitter p = elim (Option-cases p.supervisor_id) [
  | inl e ↦ ground arith
  | inr (s, e) ↦ ground arith
]

supervises_iff :
    (org user : Key) (db : ComplaintDb) (c : Complaint)
    → (supervises db.profiles org user c.user_id ≡ true) ↔ IsSupervised db org user c
unfolding supervises
supervises_iff org user db c = any_by-Any _ _ db.profiles (profile_iff org user c.user_id)

visible_iff :
    (org user : Key) (role : Role) (db : ComplaintDb) (c : Complaint)
    → (is_visible db org user role c ≡ true) ↔ (
        (c.organization_id ≡ org)
        × ((can_access db user role c ≡ true)
            ⊎ ((role ≡ supervisor) × (supervises db.profiles org user c.user_id ≡ true))))
unfolding is_visible can_access
visible_iff org user role db c = ground arith

-- What the filter of the list and the numbers lets pass.
pub is_visible_iff :
    (org user : Key) (role : Role) (db : ComplaintDb) (c : Complaint)
    → find_by (λ x. x.id == c.id) db.complaints ≡ some c
    → (is_visible db org user role c ≡ true) ↔ IsShown db org user role c
is_visible_iff org user role db c found =
    let shown = visible_iff org user role db c in
    let viewed = find_one_iff org c.id user role db c in
    let team = supervises_iff org user db c in
    (
      λ h.
          let (here, way) = shown.0 h in
          elim way [
            | inl access ↦ inl (
                viewed.1 (
                  owned-find_by (λ x. x.id) (λ x. x.organization_id) c.id org db.complaints here
                      found,
                  access,
                ))
            | inr (r, s) ↦ inr (here, r, team.0 s)
          ],
      λ way. elim way [
        | inl seen ↦
            let held : owned_by org c.id c ≡ true =
              find_by-holds (owned_by org c.id) db.complaints (viewed.0 seen).0 in
            shown.1 (ground arith, inl (viewed.0 seen).1)
        | inr (here, r, s) ↦ shown.1 (here, inr (r, team.1 s))
      ],
    )

abbrev pub HasStatus : Option ComplaintStatus → Complaint → Type 0
HasStatus none c = Unit
HasStatus (some s) c = c.status ≡ s

-- The number that stands for a status, and the total where none is given.
abbrev pub number_of : ComplaintStats → Option ComplaintStatus → ℕ
number_of s none = s.total
number_of s (some opened) = s.opened
number_of s (some in_review) = s.in_review
number_of s (some late) = s.late
number_of s (some resolved) = s.resolved
number_of s (some dismissed) = s.dismissed

counted_iff :
    (org user : Key) (role : Role) (db : ComplaintDb) (s : ComplaintStatus) (c : Complaint)
    → find_by (λ x. x.id == c.id) db.complaints ≡ some c
    → ((is_visible db org user role c && same_status c.status s) ≡ true)
      ↔ (IsShown db org user role c × (c.status ≡ s))
counted_iff org user role db s c found =
    let shown = is_visible_iff org user role db c found in
    (
      λ h. (shown.0 (ground arith), ground arith),
      λ (way, e). let seen = shown.1 way in rw seen (ground arith),
    )

module _ (org user : Key) (role : Role) (db : ComplaintDb)
    (keys : HasKeys (λ c. c.id) db.complaints) where
  count_status :
      (s : ComplaintStatus)
      → IsCount
          (λ c. IsShown db org user role c × (c.status ≡ s))
          db.complaints
          (count_visible org user role s db)
  unfolding count_visible
  count_status s = count_by-IsCount _ _ db.complaints (
      All-map _ _ db.complaints (λ c found. counted_iff org user role db s c found)
        (All-found (λ c. c.id) db.complaints keys))

  count_all :
      IsCount
        (λ c. IsShown db org user role c × Unit)
        db.complaints
        (get_stats org user role db).total
  unfolding get_stats
  count_all = count_by-IsCount _ _ db.complaints (
      All-map _ _ db.complaints
        (λ c found.
          let shown = is_visible_iff org user role db c found in
          (λ h. (shown.0 h, tt), λ h. shown.1 h.0))
        (All-found (λ c. c.id) db.complaints keys))

-- Each of the numbers, for a status or for all, counts the complaints of that status which the
-- caller may open, or whose author they supervise in the organization, if the identifiers of
-- complaints are distinct.
pub complaint_stats_exact :
    (org user : Key) (role : Role) (status : Option ComplaintStatus) (db : ComplaintDb)
    → HasKeys (λ c. c.id) db.complaints
    → IsCount
        (λ c. IsShown db org user role c × HasStatus status c)
        db.complaints
        (number_of (get_stats org user role db) status)
unfolding get_stats
complaint_stats_exact org user role none db keys = count_all org user role db keys
complaint_stats_exact org user role (some opened) db keys =
    count_status org user role db keys opened
complaint_stats_exact org user role (some in_review) db keys =
    count_status org user role db keys in_review
complaint_stats_exact org user role (some late) db keys = count_status org user role db keys late
complaint_stats_exact org user role (some resolved) db keys =
    count_status org user role db keys resolved
complaint_stats_exact org user role (some dismissed) db keys =
    count_status org user role db keys dismissed
