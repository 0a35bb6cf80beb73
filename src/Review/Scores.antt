-- ===== src/Review/Scores.antt =====
-- What `finalizeSession` records in the rows of performance.
use Prim.Native.String.{String}
use teamos_backend.Prelude.{
  ℕ, ◌≡◌, ◌≢◌, ◌∙◌, refl, sym, inl, inr, Option, Option-cases, some, List, [], ◌∷◌, Key, All, ok,
  store_after, store_after-keeps, ◌==◌, ◌&&◌, ==_refl, ==_ne,
}
use teamos_backend.Amounts.{Amounts, IsOrdered}
use teamos_backend.Rows.{HasKeys, All-find_by}
use teamos_backend.Performance.{Performance, find_performance, upsert, blank}
use teamos_backend.Performance.Fresh.{find_performance-upsert, find_performance-upsert_other}
use teamos_backend.Performance.Rated.{IsRated, AreRated, upsert-AreRated, blank-IsRated}
use teamos_backend.Review.Model.{AdjustedScore, CalibrationSession, ReviewDb}
use teamos_backend.Review.Calibration.{
  set_review_score, record_scores, check_finalize, finalize_session,
}
use teamos_backend.Review.Sessions.{AreSessions, check_finalize-facts}

module _ {V : Type 0} (num : Amounts V) where
  -- The user of an entry has a row that holds its score, from the cycle.
  abbrev pub IsRecorded : Key → Key → List (Performance V) → AdjustedScore V → Type 0
  IsRecorded org cycle rows s =
      (p : Performance V) × (find_performance rows org s.user_id ≡ some p)
      × (p.review_score ≡ s.calibrated_score)
      × (p.last_review_cycle_id ≡ some cycle)

  record_scores-other :
      (ids : Key → Key) (org cycle u : Key) (ss : List (AdjustedScore V))
      (rows : List (Performance V))
      → All (λ s. s.user_id ≢ u) ss
      → find_performance (record_scores num ids org cycle ss rows) org u
        ≡ find_performance rows org u
  unfolding record_scores
  record_scores-other ids org cycle u [] rows apart = refl
  record_scores-other ids org cycle u (s ∷ ss) rows apart =
      let set = set_review_score s.calibrated_score cycle in
      record_scores-other ids org cycle u ss
        (upsert org s.user_id set (set (blank num (ids s.user_id) org s.user_id)) rows) apart.1
      ∙ find_performance-upsert_other org s.user_id org u set
          (set (blank num (ids s.user_id) org s.user_id)) rows (λ p. (refl, refl))
          (rw (==_refl org, ==_refl s.user_id))
          (rw (==_refl org) (==_ne u s.user_id (λ e. apart.0 (sym e))))

  upsert-IsRecorded :
      (ids : Key → Key) (org cycle : Key) (s : AdjustedScore V) (rows : List (Performance V))
      → let set = set_review_score s.calibrated_score cycle in
        IsRecorded org cycle
          (upsert org s.user_id set (set (blank num (ids s.user_id) org s.user_id)) rows)
          s
  upsert-IsRecorded ids org cycle s rows =
      let set = set_review_score s.calibrated_score cycle in
      let made = set (blank num (ids s.user_id) org s.user_id) in
      let found =
        find_performance-upsert org s.user_id set made rows (λ p. (refl, refl))
          (rw (==_refl org, ==_refl s.user_id)) in
      elim (Option-cases (find_performance rows org s.user_id)) [
        | inl e ↦ (made, found ∙ rw e, refl, refl)
        | inr (p, e) ↦ (set p, found ∙ rw e, refl, refl)
      ]

  record_scores-IsRecorded :
      (ids : Key → Key) (org cycle : Key) (ss : List (AdjustedScore V))
      (rows : List (Performance V))
      → HasKeys (λ s. s.user_id) ss
      → All (IsRecorded org cycle (record_scores num ids org cycle ss rows)) ss
  unfolding record_scores
  record_scores-IsRecorded ids org cycle [] rows keys = tt
  record_scores-IsRecorded ids org cycle (s ∷ ss) rows keys =
      let set = set_review_score s.calibrated_score cycle in
      let next = upsert org s.user_id set (set (blank num (ids s.user_id) org s.user_id)) rows in
      let (p, found, score, from) = upsert-IsRecorded ids org cycle s rows in
      (
        (p, record_scores-other ids org cycle s.user_id ss next keys.0 ∙ found, score, from),
        record_scores-IsRecorded ids org cycle ss next keys.1,
      )

  -- When a session is finalized, the user of each of its entries has a row of performance in the
  -- organization with the score of the entry, from the session's cycle.
  pub finalize_session-IsRecorded :
      (now : ℕ) (ids : Key → Key) (org user k : Key) (ip : Option String) (db : ReviewDb V)
      (s : CalibrationSession V)
      → AreSessions db.sessions
      → check_finalize org user k db ≡ ok s
      → All
          (IsRecorded org s.review_cycle_id
            (store_after db (finalize_session num now ids org user k ip db)).performances)
          s.adjusted_scores
  unfolding finalize_session
  finalize_session-IsRecorded now ids org user k ip db s right checked =
      let (found, _) = check_finalize-facts org user k db s checked in
      rw checked (
        record_scores-IsRecorded ids org s.review_cycle_id s.adjusted_scores db.performances
          (All-find_by _ (λ s. s.id == k && s.organization_id == org) db.sessions right.each
            found).users)

module _ {V : Type 0} (num : Amounts V) (ordered : IsOrdered num) where
  record_scores-AreRated :
      (ids : Key → Key) (org cycle : Key) (ss : List (AdjustedScore V))
      (rows : List (Performance V))
      → AreRated num rows
      → AreRated num (record_scores num ids org cycle ss rows)
  unfolding record_scores
  record_scores-AreRated ids org cycle [] rows rated = rated
  record_scores-AreRated ids org cycle (s ∷ ss) rows rated =
      let set = set_review_score s.calibrated_score cycle in
      let kept : (p : Performance V) → IsRated num p → IsRated num (set p) = λ p r. record {
        least = r.least;
        most = r.most;
        rated = r.rated;
        completed = r.completed;
        parts = r.parts;
      } in
      let made = blank num (ids s.user_id) org s.user_id in
      record_scores-AreRated ids org cycle ss (upsert org s.user_id set (set made) rows) (
        upsert-AreRated num ordered org s.user_id set (set made) rows kept
          (kept made (blank-IsRated num ordered (ids s.user_id) org s.user_id)) rated)

  -- Where numbers are ordered, finalizing a session leaves every row of performance with a score from
  -- 0 to 100, the rating of that score, and numbers of tasks whose parts are at most the whole, if
  -- that was so before.
  pub finalize_session-AreRated :
      (now : ℕ) (ids : Key → Key) (org user k : Key) (ip : Option String) (db : ReviewDb V)
      → AreRated num db.performances
      → AreRated num (store_after db (finalize_session num now ids org user k ip db)).performances
  unfolding finalize_session
  finalize_session-AreRated now ids org user k ip db rated =
      store_after-keeps (λ d. AreRated num d.performances) db (check_finalize org user k db) _ rated
        (λ s h.
          record_scores-AreRated ids org s.review_cycle_id s.adjusted_scores db.performances rated)
