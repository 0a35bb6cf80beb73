-- ===== src/Review/Frame.antt =====
-- What a request writes to each table of the review service.
use teamos_backend.Prelude.{
  ℕ, ◌≡◌, inl, inr, refl, List, [], ◌∷◌, Key, filter_by, store_after, store_after-keeps, suc,
  Result-cases,
}
use teamos_backend.Amounts.{Amounts}
use teamos_backend.Review.Model.{PeerNomination, ReviewDb}
use teamos_backend.Review.Lookup.{check_member}
use teamos_backend.Review.Templates.{
  check_update_template, check_remove_template, create_template, update_template, remove_template,
}
use teamos_backend.Review.Cycles.{
  check_create_cycle, create_cycle, check_update_cycle, update_cycle, check_remove_cycle,
  remove_cycle, check_transition, transition_to_calibrating,
}
use teamos_backend.Review.Activation.{check_activate, activate_cycle}
use teamos_backend.Review.Submission.{check_submit, submit_review}
use teamos_backend.Review.Deadlines.{is_expired, mark_overdue_reviews}
use teamos_backend.Review.Nominations.{
  is_waiting_in, check_nominations, create_nominations, check_pending, check_approve,
  approve_nomination, reject_nomination, approve_each, bulk_approve_nominations,
}
use teamos_backend.Review.Calibration.{
  check_create_session, create_calibration_session, check_adjust, adjust_score, check_finalize,
  finalize_session,
}
use teamos_backend.Review.Closing.{check_complete, complete_cycle}
use teamos_backend.Review.Service.{
  ReviewRequest, creates_template, updates_template, removes_template, creates_cycle, updates_cycle,
  removes_cycle, activates, starts_calibration, completes, submits, marks_overdue, nominates,
  approves, rejects, approves_all, opens_session, adjusts, finalizes, handle_review,
}
use teamos_backend.Review.Writes.{
  adds, edits, starts, calibrates, closes, assigns, submitted_by, ages, nominated, refuses, opens,
  adjusted, finalized, Frame, keeps, drops, confirms, confirms_each,
}

module _ {V : Type 0} where
  abbrev rests : (num : Amounts V) (q : ReviewRequest V) (db : ReviewDb V) → Frame num q db db
  rests num q db = record {
    cycles = keeps refl;
    reviews = keeps refl;
    nominations = keeps refl;
    sessions = keeps refl;
  }

  -- What each approval keeps, the loop over them keeps.
  pub approve_each-keeps :
      (P : ReviewDb V → Type 0) (ids : Key → Key) (org user : Key)
      → ((k : Key) (new_id : Key) (db : ReviewDb V)
          → P db
          → P (store_after db (approve_nomination new_id org user k db)))
      → (ns : List PeerNomination) (done : ℕ) (db : ReviewDb V) → P db
      → P (approve_each ids org user ns done db).1
  unfolding approve_each
  approve_each-keeps P ids org user step [] done db h = h
  approve_each-keeps P ids org user step (n ∷ ns) done db h =
      elim (Result-cases (approve_nomination (ids n.id) org user n.id db)) [
        | inl (s, r, e) ↦ rw (approve_each, e) h
        | inr ((x, next), e) ↦
            rw (approve_each, e)
              (approve_each-keeps P ids org user step ns (suc done) next
                (rw e at (step n.id (ids n.id) db h)))
      ]

  abbrev IsBeside : ReviewDb V → ReviewDb V → Type 0
  IsBeside db new = (new.cycles ≡ db.cycles) × (new.sessions ≡ db.sessions)

  approve-IsBeside :
      (org user : Key) (start : ReviewDb V) (k new_id : Key) (db : ReviewDb V)
      → IsBeside start db
      → IsBeside start (store_after db (approve_nomination new_id org user k db))
  unfolding approve_nomination
  approve-IsBeside org user start k new_id db h =
      store_after-keeps (IsBeside start) db (check_approve org k db) _ h (λ _ _. h)

  -- Each table after a request, and the check that let the write pass.
  pub handle_review-Frame :
      (num : Amounts V) (q : ReviewRequest V) (db : ReviewDb V)
      → Frame num q db (handle_review num q db)
  unfolding handle_review create_template update_template remove_template create_cycle update_cycle
      remove_cycle activate_cycle transition_to_calibrating complete_cycle submit_review
      mark_overdue_reviews create_nominations reject_nomination bulk_approve_nominations
      create_calibration_session adjust_score finalize_session
  handle_review-Frame num (creates_template i org user dto) db =
      store_after-keeps (Frame num (creates_template i org user dto) db) db
        (check_member db org user) _ (rests num (creates_template i org user dto) db)
        (λ x e. record {
          cycles = keeps refl;
          reviews = keeps refl;
          nominations = keeps refl;
          sessions = keeps refl;
        })
  handle_review-Frame num (updates_template org k dto) db =
      store_after-keeps (Frame num (updates_template org k dto) db) db
        (check_update_template org k db) _ (rests num (updates_template org k dto) db)
        (λ x e. record {
          cycles = keeps refl;
          reviews = keeps refl;
          nominations = keeps refl;
          sessions = keeps refl;
        })
  handle_review-Frame num (removes_template org k) db =
      store_after-keeps (Frame num (removes_template org k) db) db (check_remove_template org k db)
        _ (rests num (removes_template org k) db)
        (λ x e. record {
          cycles = keeps refl;
          reviews = keeps refl;
          nominations = keeps refl;
          sessions = keeps refl;
        })
  handle_review-Frame num (creates_cycle i org user dto) db =
      store_after-keeps (Frame num (creates_cycle i org user dto) db) db
        (check_create_cycle org user dto db) _ (rests num (creates_cycle i org user dto) db)
        (λ x e. record {
          cycles = adds i org user dto refl refl;
          reviews = keeps refl;
          nominations = keeps refl;
          sessions = keeps refl;
        })
  handle_review-Frame num (updates_cycle org k dto) db =
      store_after-keeps (Frame num (updates_cycle org k dto) db) db
        (check_update_cycle org k dto db) _ (rests num (updates_cycle org k dto) db)
        (λ x e. record {
          cycles = edits org k dto x e refl;
          reviews = keeps refl;
          nominations = keeps refl;
          sessions = keeps refl;
        })
  handle_review-Frame num (removes_cycle org k) db =
      store_after-keeps (Frame num (removes_cycle org k) db) db (check_remove_cycle org k db) _
        (rests num (removes_cycle org k) db)
        (λ x e. record {
          cycles = drops org k x e refl;
          reviews = drops k refl;
          nominations = drops k refl;
          sessions = drops k refl;
        })
  handle_review-Frame num (activates ids org k actor ip) db =
      store_after-keeps (Frame num (activates ids org k actor ip) db) db (check_activate org k db) _
        (rests num (activates ids org k actor ip) db)
        (λ x e. record {
          cycles = starts org k x.0 x.1.sections x.1 e refl;
          reviews = assigns ids org k x.0 x.1 e refl;
          nominations = keeps refl;
          sessions = keeps refl;
        })
  handle_review-Frame num (starts_calibration org k actor ip) db =
      store_after-keeps (Frame num (starts_calibration org k actor ip) db) db
        (check_transition org k db) _ (rests num (starts_calibration org k actor ip) db)
        (λ x e. record {
          cycles = calibrates org k x e refl;
          reviews = keeps refl;
          nominations = keeps refl;
          sessions = keeps refl;
        })
  handle_review-Frame num (completes ids org k actor ip) db =
      store_after-keeps (Frame num (completes ids org k actor ip) db) db (check_complete org k db) _
        (rests num (completes ids org k actor ip) db)
        (λ x e. record {
          cycles = closes org k x e refl;
          reviews = keeps refl;
          nominations = keeps refl;
          sessions = keeps refl;
        })
  handle_review-Frame num (submits now org user k answers) db =
      store_after-keeps (Frame num (submits now org user k answers) db) db
        (check_submit num org user k answers db) _ (rests num (submits now org user k answers) db)
        (λ x e. record {
          cycles = keeps refl;
          reviews = submitted_by now org user k answers x e refl;
          nominations = keeps refl;
          sessions = keeps refl;
        })
  handle_review-Frame num (marks_overdue now) db = record {
    cycles = keeps refl;
    reviews = ages (filter_by (is_expired now) db.cycles) refl;
    nominations = keeps refl;
    sessions = keeps refl;
  }
  handle_review-Frame num (nominates ids org user k nominees) db =
      store_after-keeps (Frame num (nominates ids org user k nominees) db) db
        (check_nominations org user k nominees db) _
        (rests num (nominates ids org user k nominees) db)
        (λ x e. record {
          cycles = keeps refl;
          reviews = keeps refl;
          nominations = nominated ids org user k nominees e refl;
          sessions = keeps refl;
        })
  handle_review-Frame num (approves i org user k) db =
      let beside = approve-IsBeside org user db k i db (refl, refl) in
      record {
        cycles = keeps beside.0;
        reviews = confirms i org user k refl;
        nominations = confirms i org user k refl;
        sessions = keeps beside.1;
      }
  handle_review-Frame num (rejects org user k) db =
      store_after-keeps (Frame num (rejects org user k) db) db (check_pending org k db) _
        (rests num (rejects org user k) db)
        (λ x e. record {
          cycles = keeps refl;
          reviews = keeps refl;
          nominations = refuses org user k x e refl;
          sessions = keeps refl;
        })
  handle_review-Frame num (approves_all ids org user k) db =
      let waiting = filter_by (is_waiting_in org k) db.nominations in
      let beside =
        approve_each-keeps (IsBeside db) ids org user (approve-IsBeside org user db) waiting 0 db
          (refl, refl) in
      record {
        cycles = keeps beside.0;
        reviews = confirms_each ids org user waiting refl;
        nominations = confirms_each ids org user waiting refl;
        sessions = keeps beside.1;
      }
  handle_review-Frame num (opens_session i org user k department) db =
      store_after-keeps (Frame num (opens_session i org user k department) db) db
        (check_create_session num org k department db) _
        (rests num (opens_session i org user k department) db)
        (λ x e. record {
          cycles = keeps refl;
          reviews = keeps refl;
          nominations = keeps refl;
          sessions = opens i org user k department refl refl;
        })
  handle_review-Frame num (adjusts org user k dto) db =
      store_after-keeps (Frame num (adjusts org user k dto) db) db (check_adjust org user k dto db)
        _ (rests num (adjusts org user k dto) db)
        (λ x e. record {
          cycles = keeps refl;
          reviews = keeps refl;
          nominations = keeps refl;
          sessions = adjusted org user k dto x e refl;
        })
  handle_review-Frame num (finalizes now ids org user k ip) db =
      store_after-keeps (Frame num (finalizes now ids org user k ip) db) db
        (check_finalize org user k db) _ (rests num (finalizes now ids org user k ip) db)
        (λ x e. record {
          cycles = keeps refl;
          reviews = keeps refl;
          nominations = keeps refl;
          sessions = finalized now org user k x e refl;
        })
