-- ===== src/Complaint/Lateness.antt =====
-- What `markLateComplaints` has done when it answers.
use teamos_backend.Prelude.{
  ℕ, ◌+◌, ◌<◌, ◌≡◌, ◌⊎◌, inl, inr, refl, true, false, List, [], ◌∷◌, arith, count_by, update_by,
}
use teamos_backend.Rows.{AreRelated, AreRelated-update_by}
use teamos_backend.Complaint.Model.{opened, in_review, late, Complaint, ComplaintDb, same_status}
use teamos_backend.Complaint.Handling.{is_neglected, mark_late, mark_late_complaints}

-- Open or in review, and filed more than two hours ago, in milliseconds.
abbrev pub IsNeglected : ℕ → Complaint → Type 0
IsNeglected now c = ((c.status ≡ opened) ⊎ (c.status ≡ in_review)) × (c.created_at + 7200000 < now)

-- What the job makes of a complaint.
abbrev pub IsAged : ℕ → Complaint → Complaint → Type 0
IsAged now c d =
    (IsNeglected now c × (d ≡ record c { status = late; updated_at = now }))
    ⊎ ((¬ IsNeglected now c) × (d ≡ c))

neglected : (now : ℕ) (c : Complaint) → is_neglected now c ≡ true → IsNeglected now c
unfolding is_neglected
neglected now c h = ground arith

not-IsNeglected : (now : ℕ) (c : Complaint) → is_neglected now c ≡ false → ¬ IsNeglected now c
unfolding is_neglected
not-IsNeglected now c h n = ground arith

late_count :
    (now : ℕ) (cs : List Complaint)
    → count_by (λ c. same_status c.status late) (update_by (is_neglected now) (mark_late now) cs)
      ≡ count_by (λ c. same_status c.status late) cs + count_by (is_neglected now) cs
unfolding is_neglected
late_count now [] = refl
late_count now (c ∷ cs) = ground (arith, late_count now cs)

-- When the job answers, each complaint that was open or in review and filed over two hours ago is
-- late, with the time of the job, each other one is as it was, and there are as many more late
-- complaints as the answer says.
pub mark_late_complaints_exact :
    (now : ℕ) (db : ComplaintDb)
    → let after = mark_late_complaints now db in
      AreRelated (IsAged now) db.complaints after.1.complaints
      × (count_by (λ c. same_status c.status late) after.1.complaints
          ≡ count_by (λ c. same_status c.status late) db.complaints + after.0)
unfolding mark_late_complaints
mark_late_complaints_exact now db = (
  AreRelated-update_by (IsAged now) (is_neglected now) (mark_late now) db.complaints
      (λ c h. inl (neglected now c h, refl)) (λ c h. inr (not-IsNeglected now c h, refl)),
  late_count now db.complaints,
)
