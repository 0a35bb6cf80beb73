-- ===== src/Complaint/Transitions.antt =====
-- The state machine of a complaint, as relations, and the requests that its checks let pass.
use Prim.Native.String.{String}
use teamos_backend.Prelude.{
  ℕ, ◌≤◌, ◌≡◌, ◌⊎◌, ◌↔◌, inl, inr, refl, true, Option, some, Key, arith, find_by, ok, err, Bool,
  Result, Status, Result-cases, ◌>>=◌,
}
use teamos_backend.Roles.{Role, rank, admin}
use teamos_backend.Complaint.Model.{
  ComplaintStatus, opened, in_review, late, resolved, dismissed, Complaint, ComplaintDb, Answer,
  Fault, UpdateComplaintStatusDto, owned_by, is_targeted,
}
use teamos_backend.Complaint.Handling.{
  valid_transitions, includes_status, check_caller, check_status, update_status,
}

-- What a caller may ask for.
pub data Transition : ComplaintStatus → ComplaintStatus → Type 0 where
  reviews_open : Transition opened in_review
  reviews_late : Transition late in_review
  resolves_review : Transition in_review resolved
  resolves_late : Transition late resolved
  dismisses_review : Transition in_review dismissed
  dismisses_late : Transition late dismissed

-- What may happen to a status: also the lateness that the scheduled job finds.
pub data Moves : ComplaintStatus → ComplaintStatus → Type 0 where
  asked : {s t : ComplaintStatus} → Transition s t → Moves s t
  neglected_open : Moves opened late
  neglected_review : Moves in_review late

pub to_Transition :
    (s t : ComplaintStatus) → includes_status (valid_transitions s) t ≡ true → Transition s t
unfolding valid_transitions
to_Transition opened opened h = absurd (ground arith)
to_Transition opened in_review h = reviews_open
to_Transition opened late h = absurd (ground arith)
to_Transition opened resolved h = absurd (ground arith)
to_Transition opened dismissed h = absurd (ground arith)
to_Transition in_review opened h = absurd (ground arith)
to_Transition in_review in_review h = absurd (ground arith)
to_Transition in_review late h = absurd (ground arith)
to_Transition in_review resolved h = resolves_review
to_Transition in_review dismissed h = dismisses_review
to_Transition late opened h = absurd (ground arith)
to_Transition late in_review h = reviews_late
to_Transition late late h = absurd (ground arith)
to_Transition late resolved h = resolves_late
to_Transition late dismissed h = dismisses_late
to_Transition resolved opened h = absurd (ground arith)
to_Transition resolved in_review h = absurd (ground arith)
to_Transition resolved late h = absurd (ground arith)
to_Transition resolved resolved h = absurd (ground arith)
to_Transition resolved dismissed h = absurd (ground arith)
to_Transition dismissed opened h = absurd (ground arith)
to_Transition dismissed in_review h = absurd (ground arith)
to_Transition dismissed late h = absurd (ground arith)
to_Transition dismissed resolved h = absurd (ground arith)
to_Transition dismissed dismissed h = absurd (ground arith)

from_Transition :
    {s t : ComplaintStatus} → Transition s t → includes_status (valid_transitions s) t ≡ true
unfolding valid_transitions
from_Transition reviews_open = refl
from_Transition reviews_late = refl
from_Transition resolves_review = refl
from_Transition resolves_late = refl
from_Transition dismisses_review = refl
from_Transition dismisses_late = refl

-- Who may ask for a status: admins and owners, and for a review also a user the complaint names.
abbrev pub MayAsk : ComplaintDb → Key → Key → Role → ComplaintStatus → Type 0
MayAsk db k user role status =
    (rank admin ≤ rank role) ⊎ ((status ≡ in_review) × (is_targeted db.targets k user ≡ true))

caller_iff :
    (targeted : Bool) (role : Role) (status : ComplaintStatus)
    → (check_caller targeted role status ≡ ok tt)
      ↔ ((rank admin ≤ rank role) ⊎ ((status ≡ in_review) × (targeted ≡ true)))
unfolding check_caller
caller_iff targeted role status = ground arith

-- What `check_status` lets pass.
pub check_status-facts :
    (org k user : Key) (role : Role) (status : ComplaintStatus) (db : ComplaintDb) {c : Complaint}
    → check_status org k user role status db ≡ ok c
    → (find_by (owned_by org k) db.complaints ≡ some c)
      × Transition c.status status
      × MayAsk db k user role status
unfolding check_status
check_status-facts org k user role status db {c} h =
    let checks : (find_by (owned_by org k) db.complaints ≡ some c)
        × (includes_status (valid_transitions c.status) status ≡ true)
        × (check_caller (is_targeted db.targets k user) role status ≡ ok tt) =
      ground arith in
    (
      checks.0,
      to_Transition c.status status checks.1,
      (caller_iff (is_targeted db.targets k user) role status).0 checks.2,
    )

check_status-passes :
    (org k user : Key) (role : Role) (status : ComplaintStatus) (db : ComplaintDb) {c : Complaint}
    → find_by (owned_by org k) db.complaints ≡ some c
    → Transition c.status status
    → MayAsk db k user role status
    → check_status org k user role status db ≡ ok c
unfolding check_status
check_status-passes org k user role status db found moves may =
    rw
      (found, from_Transition moves, (caller_iff (is_targeted db.targets k user) role status).1 may)

refused_answer :
    {s : Status} {r : Fault} {a : Complaint × ComplaintDb}
    → ¬ ◌≡◌ {A = Answer Complaint} (err s r) (ok a)
refused_answer h = cc

then_answers :
    {A B : Type 0} {m : Result Fault A} {c : A} (f : A → B)
    → m ≡ ok c
    → (b : B) × ((m >>= λ x. ok (f x)) ≡ ok b)
then_answers {c = c} f h = (f c, rw h)

-- A complaint's status can be set exactly when the complaint belongs to the organization, its
-- status may move to the one asked for, and the caller may ask for that.
pub update_status_exact :
    (now : ℕ) (org k user : Key) (role : Role) (dto : UpdateComplaintStatusDto) (ip : Option String)
    (db : ComplaintDb)
    → ((a : Complaint × ComplaintDb) × (update_status now org k user role dto ip db ≡ ok a)) ↔ (
        (c : Complaint) × (find_by (owned_by org k) db.complaints ≡ some c)
        × Transition c.status dto.status
        × MayAsk db k user role dto.status)
unfolding update_status
update_status_exact now org k user role dto ip db = (
  λ (a, h). elim (Result-cases (check_status org k user role dto.status db)) [
    | inl (s, r, e) ↦ absurd (refused_answer (rw e at h))
    | inr (c, e) ↦
        let facts = check_status-facts org k user role dto.status db e in
        (c, facts.0, facts.1, facts.2)
  ],
  λ (c, found, moves, may).
      then_answers _ (check_status-passes org k user role dto.status db found moves may),
)
