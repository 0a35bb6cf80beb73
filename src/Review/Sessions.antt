-- ===== src/Review/Sessions.antt =====
-- What holds of the calibration sessions at all times.
use teamos_backend.Prelude.{
  ◌≡◌, ◌≢◌, refl, inl, inr, false, Bool-cases, Option, some, List, [], ◌∷◌, ◌++◌, Key, arith, All,
  any_by, contains, not, is_some, update_by, find_by, ok, truthy, ◌==◌, ◌&&◌, ◌||◌,
}
use teamos_backend.Amounts.{Amounts}
use teamos_backend.Rows.{
  HasKeys, HasKeys-append, HasKeys-update_by, HasKeys-delete_by, All-append, All-filter_by,
  find_by-owned, All-update_at, All-find_by,
}
use teamos_backend.Review.Model.{
  PerformanceReview, CalibrationSession, ReviewDb, AdjustCalibrationDto,
}
use teamos_backend.Review.Calibration.{
  scored_users, adjust, adjust_scores, check_adjust, is_incomplete, check_finalize, finalize,
  new_scores, new_session, submitted_reviews,
}
use teamos_backend.Review.Service.{ReviewRequest, handle_review}
use teamos_backend.Review.Writes.{keeps, drops, opens, adjusted, finalized, MakesSession}
use teamos_backend.Review.Frame.{handle_review-Frame}

module _ {V : Type 0} where
  -- No user has two entries; the session has the time of its end exactly when it is finalized; and
  -- then every entry has a score and a note.
  pub record IsSession (s : CalibrationSession V) : Type 0 where
    pub users : HasKeys (λ x. x.user_id) s.adjusted_scores
    pub closed : is_some s.finalized_at ≡ s.is_finalized
    pub complete : (s.is_finalized && any_by is_incomplete s.adjusted_scores) ≡ false

  pub record AreSessions (ss : List (CalibrationSession V)) : Type 0 where
    pub keys : HasKeys (λ s. s.id) ss
    pub each : All IsSession ss

  -- What the database guarantees of the identifiers that it makes up.
  abbrev pub IsNewSession : ReviewRequest V → ReviewDb V → Type 0
  IsNewSession q db = (k : Key) → MakesSession q k → All (λ s. s.id ≢ k) db.sessions

-- No key twice.
abbrev AreDistinct : List Key → Type 0
AreDistinct [] = Unit
AreDistinct (k ∷ ks) = (contains ks k ≡ false) × AreDistinct ks

contains-add :
    (ks : List Key) (k j : Key)
    → contains ks j ≡ false
    → (j == k) ≡ false
    → contains (ks ++ k ∷ []) j ≡ false
contains-add [] k j h e = rw e
contains-add (x ∷ ks) k j h e = ground (arith, contains-add ks k j)

AreDistinct-add :
    (ks : List Key) (k : Key) → contains ks k ≡ false → AreDistinct ks → AreDistinct (ks ++ k ∷ [])
AreDistinct-add [] k h d = (refl, tt)
AreDistinct-add (x ∷ ks) k h d =
    (contains-add ks k x d.0 (ground arith), AreDistinct-add ks k (ground arith) d.1)

module _ {V : Type 0} where
  scored_users-AreDistinct :
      (users : List Key) (rs : List (PerformanceReview V))
      → AreDistinct users
      → AreDistinct (scored_users users rs)
  unfolding scored_users
  scored_users-AreDistinct users [] d = d
  scored_users-AreDistinct users (r ∷ rs) d =
      elim (Bool-cases (not (is_some r.overall_score) || contains users r.reviewee_id)) [
        | inl e ↦ rw e (scored_users-AreDistinct users rs d)
        | inr e ↦ rw e (
            scored_users-AreDistinct (users ++ r.reviewee_id ∷ []) rs
              (AreDistinct-add users r.reviewee_id (ground arith) d))
      ]

  new_scores-absent :
      (num : Amounts V) (rs : List (PerformanceReview V)) (k : Key) (users : List Key)
      → contains users k ≡ false
      → All (λ x. x.user_id ≢ k) (new_scores num rs users)
  unfolding new_scores
  new_scores-absent num rs k [] h = tt
  new_scores-absent num rs k (u ∷ us) h =
      (ground arith, new_scores-absent num rs k us (ground arith))

  new_scores-HasKeys :
      (num : Amounts V) (rs : List (PerformanceReview V)) (users : List Key)
      → AreDistinct users
      → HasKeys (λ x. x.user_id) (new_scores num rs users)
  unfolding new_scores
  new_scores-HasKeys num rs [] d = tt
  new_scores-HasKeys num rs (u ∷ us) d =
      (new_scores-absent num rs u us d.0, new_scores-HasKeys num rs us d.1)

  new_scores-open :
      (num : Amounts V) (id org user cycle : Key) (department : Option Key)
      (rs : List (PerformanceReview V))
      → IsSession (new_session num id org user cycle department rs)
  unfolding new_session
  new_scores-open num id org user cycle department rs = record {
    users = new_scores-HasKeys num rs (scored_users [] rs) (scored_users-AreDistinct [] rs tt);
    closed = refl;
    complete = refl;
  }

  check_adjust-facts :
      (org user k : Key) (dto : AdjustCalibrationDto V) (db : ReviewDb V) (s : CalibrationSession V)
      → check_adjust org user k dto db ≡ ok s
      → (find_by (λ s. s.id == k && s.organization_id == org) db.sessions ≡ some s)
        × (s.is_finalized ≡ false)
  unfolding check_adjust
  check_adjust-facts org user k dto db s h = (ground arith, ground arith)

  pub check_finalize-facts :
      (org user k : Key) (db : ReviewDb V) (s : CalibrationSession V)
      → check_finalize org user k db ≡ ok s
      → (find_by (λ s. s.id == k && s.organization_id == org) db.sessions ≡ some s)
        × (any_by is_incomplete s.adjusted_scores ≡ false)
  unfolding check_finalize
  check_finalize-facts org user k db s h = (ground arith, ground arith)

  adjust-IsSession :
      (dto : AdjustCalibrationDto V) (s : CalibrationSession V)
      → s.is_finalized ≡ false
      → IsSession s
      → IsSession (adjust_scores dto s)
  unfolding adjust_scores
  adjust-IsSession dto s unfinished right = record {
    users =
        HasKeys-update_by (λ x. x.user_id) (λ x. x.user_id == dto.user_id) (adjust dto)
          s.adjusted_scores (λ x. refl) right.users;
    closed = right.closed;
    complete = rw unfinished;
  }

  update-AreSessions :
      (org k : Key) (f : CalibrationSession V → CalibrationSession V)
      (ss : List (CalibrationSession V)) (s : CalibrationSession V)
      → find_by (λ s. s.id == k && s.organization_id == org) ss ≡ some s
      → ((x : CalibrationSession V) → (f x).id ≡ x.id)
      → (IsSession s → IsSession (f s))
      → AreSessions ss
      → AreSessions (update_by (λ s. s.id == k) f ss)
  update-AreSessions org k f ss s found same step right =
      let row = find_by-owned (λ s. s.id) (λ s. s.organization_id) k org ss right.keys found in
      record {
        keys = HasKeys-update_by (λ s. s.id) (λ s. s.id == k) f ss same right.keys;
        each =
            All-update_at (λ s. s.id) IsSession k f ss right.keys row
              (step (All-find_by IsSession (λ s. s.id == k) ss right.each row)) right.each;
      }

  -- Whatever a request asks for, after it every calibration session has one entry for a user, a time
  -- of its end exactly when it is finalized, and then a score and a note in every entry, if that was
  -- so before and a new session has an id of its own.
  pub handle_review-AreSessions :
      (num : Amounts V) (q : ReviewRequest V) (db : ReviewDb V)
      → IsNewSession q db
      → AreSessions db.sessions
      → AreSessions (handle_review num q db).sessions
  handle_review-AreSessions num q db new right = elim ((handle_review-Frame num q db).sessions) [
    | keeps e ↦ rw e right
    | drops k e ↦ rw e (record {
      keys = HasKeys-delete_by (λ s. s.id) (λ s. s.review_cycle_id == k) db.sessions right.keys;
      each = All-filter_by IsSession (λ s. not (s.review_cycle_id == k)) db.sessions right.each;
    })
    | opens k org user cycle department made e ↦ rw e (
        let s =
          new_session num k org user cycle department
            (submitted_reviews org cycle (truthy department) db) in
        let fresh : s.id ≡ k = unfold new_session in refl in
        record {
          keys = HasKeys-append (λ s. s.id) db.sessions s right.keys (rw fresh (new k made));
          each =
              All-append IsSession db.sessions s right.each
                (new_scores-open num k org user cycle department _);
        })
    | adjusted org user k dto s checked e ↦ rw e (
        let (found, unfinished) = check_adjust-facts org user k dto db s checked in
        update-AreSessions org k (adjust_scores dto) db.sessions s found
          (λ x. unfold adjust_scores in refl) (adjust-IsSession dto s unfinished) right)
    | finalized now org user k s checked e ↦ rw e (
        let (found, full) = check_finalize-facts org user k db s checked in
        update-AreSessions org k (finalize now) db.sessions s found (λ x. refl)
          (λ i. record { users = i.users; closed = refl; complete = full }) right)
  ]
