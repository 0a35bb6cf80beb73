-- ===== src/Complaint/Closing.antt =====
-- What holds of the complaints at all times, and how a request moves each of them.
use mathlib.Core.Option
use teamos_backend.Prelude.{
  ℕ, ◌≡◌, ◌≢◌, ◌⊎◌, inl, inr, refl, sym, ◌∙◌, true, false, none, some, List, Key, arith, ◌==◌,
  ==_iff, Bool-cases, find_by, delete_by, All, is_some, not, Result-cases, some-eq, if◌then◌else◌,
}
use teamos_backend.Rows.{
  HasKeys, HasKeys-append, HasKeys-update_by, HasKeys-delete_by, All-append, All-update_by,
  All-update_at, All-filter_by, All-find_by, find_by-owned, find_by-update_by, find_by-update_where,
  find_by-delete_by, find_by-append,
}
use teamos_backend.Complaint.Model.{
  ComplaintStatus, opened, in_review, late, Complaint, ComplaintDb, UpdateComplaintStatusDto,
}
use teamos_backend.Complaint.Filing.{check_create, new_complaint, create}
use teamos_backend.Complaint.Handling.{
  is_final, check_status, set_status, update_status, check_delete, delete, is_neglected, mark_late,
  mark_late_complaints,
}
use teamos_backend.Complaint.Service.{
  ComplaintRequest, files, updates_status, deletes, marks_late, handle_complaint,
}
use teamos_backend.Complaint.Transitions.{
  Transition, reviews_open, reviews_late, resolves_review, resolves_late, dismisses_review,
  dismisses_late, Moves, asked, neglected_open, neglected_review, check_status-facts,
}

-- A complaint has a time and an author of its resolution exactly when it is resolved or dismissed.
abbrev pub IsClosedRight : Complaint → Type 0
IsClosedRight c =
    (is_some c.resolved_at ≡ is_final c.status) × (is_some c.resolved_by_id ≡ is_final c.status)

pub record IsOrderly (complaints : List Complaint) : Type 0 where
  pub keys : HasKeys (λ c. c.id) complaints
  pub closed : All IsClosedRight complaints

-- What the database guarantees of the identifiers that it makes up.
abbrev pub IsNew : ComplaintRequest → ComplaintDb → Type 0
IsNew (files new_id _ _ _ _ _) db = All (λ c. c.id ≢ new_id) db.complaints
IsNew _ db = Unit

Transition-not_final : {s t : ComplaintStatus} → Transition s t → is_final s ≡ false
Transition-not_final reviews_open = refl
Transition-not_final reviews_late = refl
Transition-not_final resolves_review = refl
Transition-not_final resolves_late = refl
Transition-not_final dismisses_review = refl
Transition-not_final dismisses_late = refl

set_status-IsClosedRight :
    (now user : _) (dto : UpdateComplaintStatusDto) (c : Complaint)
    → is_final c.status ≡ false
    → IsClosedRight c
    → IsClosedRight (set_status now user dto c)
unfolding set_status
set_status-IsClosedRight now user dto c alive closed = ground arith

set_status-id :
    (now user : _) (dto : UpdateComplaintStatusDto) (c : Complaint)
    → (set_status now user dto c).id ≡ c.id
unfolding set_status
set_status-id now user dto c = ground arith

set_status-status :
    (now user : _) (dto : UpdateComplaintStatusDto) (c : Complaint)
    → (set_status now user dto c).status ≡ dto.status
unfolding set_status
set_status-status now user dto c = ground arith

mark_late-IsClosedRight :
    (now : ℕ) (c : Complaint)
    → is_neglected now c ≡ true
    → IsClosedRight c
    → IsClosedRight (mark_late now c)
unfolding is_neglected
mark_late-IsClosedRight now c neglected closed = ground arith

-- Whatever a request asks for, after it the complaints have distinct identifiers, and each has the
-- time and the author of its resolution exactly when it is resolved or dismissed, if that was so
-- before and the database makes up an identifier that no complaint has.
pub handle_complaint-IsOrderly :
    (q : ComplaintRequest) (db : ComplaintDb)
    → IsNew q db
    → IsOrderly db.complaints
    → IsOrderly (handle_complaint q db).complaints
unfolding handle_complaint create update_status delete mark_late_complaints new_complaint
handle_complaint-IsOrderly (files k ids now org user dto) db new orderly =
    elim (Result-cases (check_create org user dto db)) [
      | inl (s, r, e) ↦ rw e orderly
      | inr (u, e) ↦ rw e (record {
        keys =
            HasKeys-append (λ c. c.id) db.complaints (new_complaint k now org user dto) orderly.keys
              new;
        closed =
            All-append IsClosedRight db.complaints (new_complaint k now org user dto) orderly.closed
              (refl, refl);
      })
    ]
handle_complaint-IsOrderly (updates_status now org k user role dto ip) db new orderly =
    elim (Result-cases (check_status org k user role dto.status db)) [
      | inl (s, r, e) ↦ rw e orderly
      | inr (c, e) ↦
          let facts = check_status-facts org k user role dto.status db e in
          let found : find_by (λ x. x.id == k) db.complaints ≡ some c =
            find_by-owned (λ x. x.id) (λ x. x.organization_id) k org db.complaints orderly.keys
              facts.0 in
          rw e (record {
            keys =
                HasKeys-update_by (λ x. x.id) (λ x. x.id == k) (set_status now user dto)
                  db.complaints (set_status-id now user dto) orderly.keys;
            closed =
                All-update_at (λ x. x.id) IsClosedRight k (set_status now user dto) db.complaints
                  orderly.keys found
                  (set_status-IsClosedRight now user dto c (Transition-not_final facts.1)
                    (All-find_by IsClosedRight (λ x. x.id == k) db.complaints orderly.closed found))
                  orderly.closed;
          })
    ]
handle_complaint-IsOrderly (deletes org k user role) db new orderly =
    elim (Result-cases (check_delete org k user role db)) [
      | inl (s, r, e) ↦ rw e orderly
      | inr (c, e) ↦ rw e (record {
        keys = HasKeys-delete_by (λ x. x.id) (λ x. x.id == k) db.complaints orderly.keys;
        closed = All-filter_by IsClosedRight (λ x. not (x.id == k)) db.complaints orderly.closed;
      })
    ]
handle_complaint-IsOrderly (marks_late now) db new orderly = record {
  keys =
      HasKeys-update_by (λ x. x.id) (is_neglected now) (mark_late now) db.complaints (λ x. refl)
        orderly.keys;
  closed =
      All-update_by IsClosedRight (is_neglected now) (mark_late now) db.complaints
        (mark_late-IsClosedRight now) orderly.closed;
}

neglected_status :
    (now : ℕ) (c : Complaint)
    → is_neglected now c ≡ true
    → (c.status ≡ opened) ⊎ (c.status ≡ in_review)
unfolding is_neglected
neglected_status now c h = ground arith

neglected-Moves : (now : ℕ) (c : Complaint) → is_neglected now c ≡ true → Moves c.status late
unfolding is_neglected
neglected-Moves now c h = elim (neglected_status now c h) [
  | inl e ↦ rw e neglected_open
  | inr e ↦ rw e neglected_review
]

late-Moves :
    (now : ℕ) (c d : Complaint)
    → Option.map (λ x. if is_neglected now x then mark_late now x else x) (some c) ≡ some d
    → (d ≡ c) ⊎ Moves c.status d.status
late-Moves now c d h = elim (Bool-cases (is_neglected now c)) [
  | inl e ↦
      let made : d ≡ mark_late now c = sym (some-eq (rw e at h)) in
      inr (rw made (neglected-Moves now c e))
  | inr e ↦ inl (sym (some-eq (rw e at h)))
]

set-Moves :
    (now user j k : Key) (dto : UpdateComplaintStatusDto) (complaints : List Complaint)
    (x c d : Complaint)
    → find_by (λ z. z.id == j) complaints ≡ some x
    → Transition x.status dto.status
    → find_by (λ z. z.id == k) complaints ≡ some c
    → (if k == j then Option.map (set_status now user dto) (some c) else some c) ≡ some d
    → (d ≡ c) ⊎ Moves c.status d.status
set-Moves now user j k dto complaints x c d found moves before h = elim (Bool-cases (k == j)) [
  | inl e ↦
      let same : c ≡ x = some-eq (sym before ∙ (rw (← (==_iff k j).0 e) at found)) in
      let made : d ≡ set_status now user dto c = sym (some-eq (rw e at h)) in
      inr (rw (made, set_status-status now user dto c, same) (asked moves))
  | inr e ↦ inl (sym (some-eq (rw e at h)))
]

kept :
    (j k : Key) (complaints : List Complaint) (c d : Complaint)
    → find_by (λ z. z.id == k) complaints ≡ some c
    → find_by (λ z. z.id == k) (delete_by (λ z. z.id == j) complaints) ≡ some d
    → d ≡ c
kept j k complaints c d before after =
    let row : (if k == j then none else some c) ≡ some d =
      rw (find_by-delete_by (λ z. z.id) k j complaints, before) at after in
    ground arith

-- A request leaves a complaint as it is, moves its status along the state machine, or deletes it;
-- so one that is resolved or dismissed is never changed.
pub handle_complaint-Moves :
    (q : ComplaintRequest) (db : ComplaintDb) (k : Key) (c d : Complaint)
    → IsNew q db
    → IsOrderly db.complaints
    → find_by (λ x. x.id == k) db.complaints ≡ some c
    → find_by (λ x. x.id == k) (handle_complaint q db).complaints ≡ some d
    → (d ≡ c) ⊎ Moves c.status d.status
unfolding handle_complaint create update_status delete mark_late_complaints
handle_complaint-Moves (files new_id ids now org user dto) db k c d new orderly before after =
    elim (Result-cases (check_create org user dto db)) [
      | inl (s, r, e) ↦ inl (some-eq (sym (rw e at after) ∙ before))
      | inr (u, e) ↦ inl (
          some-eq (
            sym (rw e at after)
            ∙ find_by-append (λ x. x.id) (λ x. x.id == k) db.complaints
                (new_complaint new_id now org user dto) before))
    ]
handle_complaint-Moves (updates_status now org j user role dto ip) db k c d new orderly before
      after =
    elim (Result-cases (check_status org j user role dto.status db)) [
      | inl (s, r, e) ↦ inl (some-eq (sym (rw e at after) ∙ before))
      | inr (x, e) ↦
          let facts = check_status-facts org j user role dto.status db e in
          let found : find_by (λ z. z.id == j) db.complaints ≡ some x =
            find_by-owned (λ z. z.id) (λ z. z.organization_id) j org db.complaints orderly.keys
              facts.0 in
          let same =
            find_by-update_by (λ z. z.id) k j (set_status now user dto) db.complaints
              (set_status-id now user dto) in
          set-Moves now user j k dto db.complaints x c d found facts.1 before
            (rw (same, before) at (rw e at after))
    ]
handle_complaint-Moves (deletes org j user role) db k c d new orderly before after =
    elim (Result-cases (check_delete org j user role db)) [
      | inl (s, r, e) ↦ inl (some-eq (sym (rw e at after) ∙ before))
      | inr (x, e) ↦ inl (kept j k db.complaints c d before (rw e at after))
    ]
handle_complaint-Moves (marks_late now) db k c d new orderly before after =
    let row : Option.map (λ x. if is_neglected now x then mark_late now x else x) (some c)
        ≡ some d =
      rw
        (
          find_by-update_where (λ x. x.id) k (is_neglected now) (mark_late now) db.complaints
              (λ x. refl),
          before,
        )
        at after in
    late-Moves now c d row
