-- ===== src/Review/Writes.antt =====
-- The ways in which a request writes to each table of the review service.
use teamos_backend.Prelude.{
  ℕ, ◌≡◌, Option, List, [], ◌∷◌, ◌++◌, Key, truthy, ◌==◌, update_by, delete_by, store_after, ok,
}
use teamos_backend.Amounts.{Amounts}
use teamos_backend.Review.Model.{
  calibrating, completed, rejected, TemplateSection, ReviewCycle, ReviewResponse, PerformanceReview,
  PeerNomination, CalibrationSession, ReviewDb, CreateReviewCycleDto, UpdateReviewCycleDto,
  AdjustCalibrationDto,
}
use teamos_backend.Review.Cycles.{
  new_cycle, patch_cycle, set_cycle_status, check_update_cycle, check_remove_cycle,
  check_transition,
}
use teamos_backend.Review.Activation.{activate, deduped, new_reviews, check_activate}
use teamos_backend.Review.Submission.{check_submit, submit}
use teamos_backend.Review.Deadlines.{mark_cycles}
use teamos_backend.Review.Nominations.{
  new_nominations, decide, check_nominations, check_pending, approve_nomination, approve_each,
}
use teamos_backend.Review.Calibration.{
  submitted_reviews, new_session, adjust_scores, finalize, check_adjust, check_finalize,
}
use teamos_backend.Review.Closing.{check_complete}
use teamos_backend.Review.Service.{ReviewRequest, creates_cycle, opens_session}

module _ {V : Type 0} where
  -- The identifiers that the database makes up for a request, one for each table.
  abbrev pub MakesCycle : ReviewRequest V → Key → Type 0
  MakesCycle (creates_cycle new_id _ _ _) k = new_id ≡ k
  MakesCycle _ k = ⊥

  abbrev pub MakesSession : ReviewRequest V → Key → Type 0
  MakesSession (opens_session new_id _ _ _ _) k = new_id ≡ k
  MakesSession _ k = ⊥

  pub data CycleWrite (q : ReviewRequest V) (db : ReviewDb V) (new : List ReviewCycle)
      : Type 0 where
    keeps : new ≡ db.cycles → CycleWrite q db new
    adds :
        (k org user : Key) (dto : CreateReviewCycleDto)
        → MakesCycle q k
        → new ≡ db.cycles ++ new_cycle k org user dto ∷ []
        → CycleWrite q db new
    edits :
        (org k : Key) (dto : UpdateReviewCycleDto) (c : ReviewCycle)
        → check_update_cycle org k dto db ≡ ok c
        → new ≡ update_by (λ c. c.id == k) (patch_cycle dto) db.cycles
        → CycleWrite q db new
    drops :
        (org k : Key) (c : ReviewCycle)
        → check_remove_cycle org k db ≡ ok c
        → new ≡ delete_by (λ c. c.id == k) db.cycles
        → CycleWrite q db new
    starts :
        (org k : Key) (c : ReviewCycle) (sections : List TemplateSection) (t : _)
        → check_activate org k db ≡ ok (c, t)
        → new ≡ update_by (λ c. c.id == k) (activate sections) db.cycles
        → CycleWrite q db new
    calibrates :
        (org k : Key) (c : ReviewCycle)
        → check_transition org k db ≡ ok c
        → new ≡ update_by (λ c. c.id == k) (set_cycle_status calibrating) db.cycles
        → CycleWrite q db new
    closes :
        (org k : Key) (c : ReviewCycle)
        → check_complete org k db ≡ ok c
        → new ≡ update_by (λ c. c.id == k) (set_cycle_status completed) db.cycles
        → CycleWrite q db new

  pub data ReviewWrite (num : Amounts V) (db : ReviewDb V) (new : List (PerformanceReview V))
      : Type 0 where
    keeps : new ≡ db.reviews → ReviewWrite num db new
    drops :
        (k : Key)
        → new ≡ delete_by (λ r. r.review_cycle_id == k) db.reviews
        → ReviewWrite num db new
    assigns :
        (ids : ℕ → Key) (org k : Key) (c : ReviewCycle) (t : _)
        → check_activate org k db ≡ ok (c, t)
        → new ≡ db.reviews ++ new_reviews ids 0 k org (deduped org c db)
        → ReviewWrite num db new
    submitted_by :
        (now : ℕ) (org user k : Key) (responses : List (ReviewResponse V)) (r : PerformanceReview V)
        → check_submit num org user k responses db ≡ ok r
        → new ≡ update_by (λ r. r.id == k) (submit num now responses) db.reviews
        → ReviewWrite num db new
    ages :
        (cycles : List ReviewCycle)
        → new ≡ (mark_cycles cycles db.reviews).0
        → ReviewWrite num db new
    confirms :
        (new_id org user k : Key)
        → new ≡ (store_after db (approve_nomination new_id org user k db)).reviews
        → ReviewWrite num db new
    confirms_each :
        (ids : Key → Key) (org user : Key) (ns : List PeerNomination)
        → new ≡ (approve_each ids org user ns 0 db).1.reviews
        → ReviewWrite num db new

  pub data NominationWrite (db : ReviewDb V) (new : List PeerNomination) : Type 0 where
    keeps : new ≡ db.nominations → NominationWrite db new
    drops :
        (k : Key)
        → new ≡ delete_by (λ n. n.review_cycle_id == k) db.nominations
        → NominationWrite db new
    nominated :
        (ids : ℕ → Key) (org user k : Key) (nominees : List Key)
        → check_nominations org user k nominees db ≡ ok tt
        → new ≡ db.nominations ++ new_nominations ids 0 k org user nominees
        → NominationWrite db new
    refuses :
        (org user k : Key) (n : PeerNomination)
        → check_pending org k db ≡ ok n
        → new ≡ update_by (λ n. n.id == k) (decide rejected user) db.nominations
        → NominationWrite db new
    confirms :
        (new_id org user k : Key)
        → new ≡ (store_after db (approve_nomination new_id org user k db)).nominations
        → NominationWrite db new
    confirms_each :
        (ids : Key → Key) (org user : Key) (ns : List PeerNomination)
        → new ≡ (approve_each ids org user ns 0 db).1.nominations
        → NominationWrite db new

  pub data SessionWrite (num : Amounts V) (q : ReviewRequest V) (db : ReviewDb V)
      (new : List (CalibrationSession V)) : Type 0 where
    keeps : new ≡ db.sessions → SessionWrite num q db new
    drops :
        (k : Key)
        → new ≡ delete_by (λ s. s.review_cycle_id == k) db.sessions
        → SessionWrite num q db new
    opens :
        (k org user cycle : Key) (department : Option Key)
        → MakesSession q k
        → new
          ≡ db.sessions
            ++ new_session num k org user cycle department
                (submitted_reviews org cycle (truthy department) db)
              ∷ []
        → SessionWrite num q db new
    adjusted :
        (org user k : Key) (dto : AdjustCalibrationDto V) (s : CalibrationSession V)
        → check_adjust org user k dto db ≡ ok s
        → new ≡ update_by (λ s. s.id == k) (adjust_scores dto) db.sessions
        → SessionWrite num q db new
    finalized :
        (now : ℕ) (org user k : Key) (s : CalibrationSession V)
        → check_finalize org user k db ≡ ok s
        → new ≡ update_by (λ s. s.id == k) (finalize now) db.sessions
        → SessionWrite num q db new

  pub record Frame (num : Amounts V) (q : ReviewRequest V) (db new : ReviewDb V) : Type 0 where
    pub cycles : CycleWrite q db new.cycles
    pub reviews : ReviewWrite num db new.reviews
    pub nominations : NominationWrite db new.nominations
    pub sessions : SessionWrite num q db new.sessions
