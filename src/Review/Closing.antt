-- ===== src/Review/Closing.antt =====
-- `ReviewService.completeCycle`
use Prim.Native.String.{String}
use teamos_backend.Prelude.{
  Bool, Option, List, [], ◌∷◌, ◌++◌, Key, truthy, filter_by, update_by, any_by, Result, ok,
  conflict, throw_if, ◌>>=◌, ◌>>◌, ◌==◌, ◌&&◌, not,
}
use teamos_backend.Amounts.{Amounts}
use teamos_backend.Outbox.{AuditAction}
use teamos_backend.Performance.{Performance}
use teamos_backend.Review.Model.{
  calibrating, completed, ReviewCycle, CalibrationSession, ReviewDb, Fault, Answer, not_calibrating,
  session_unfinalized, same_cycle_status,
}
use teamos_backend.Review.Lookup.{validate_cycle, audit_entry}
use teamos_backend.Review.Cycles.{set_cycle_status}
use teamos_backend.Review.Calibration.{record_scores}

module _ {V : Type 0} where
  abbrev pub session_of : Key → Key → CalibrationSession V → Bool
  session_of org cycle_id s = s.review_cycle_id == cycle_id && s.organization_id == org

  unfoldable pub check_complete : Key → Key → ReviewDb V → Result Fault ReviewCycle
  check_complete org k db = do
    cycle ← validate_cycle db org k
    throw_if (not (same_cycle_status cycle.status calibrating)) conflict not_calibrating
    throw_if (any_by (λ s. session_of org k s && not s.is_finalized) db.sessions) conflict
        session_unfinalized
    ok cycle

  module _ (num : Amounts V) where
    -- The loop over the finalized sessions.
    unfoldable pub record_sessions :
        (Key → Key)
        → Key
        → Key
        → List (CalibrationSession V)
        → List (Performance V)
        → List (Performance V)
    record_sessions ids org cycle_id [] rows = rows
    record_sessions ids org cycle_id (s ∷ ss) rows =
        record_sessions ids org cycle_id ss
          (record_scores num ids org cycle_id s.adjusted_scores rows)

    -- `ids` are the identifiers of new rows, by user.
    unfoldable pub complete_cycle :
        (Key → Key) → Key → Key → Option Key → Option String → ReviewDb V → Answer V ReviewCycle
    unfolding record_sessions
    complete_cycle ids org k actor ip db = do
      cycle ← check_complete org k db
      ok (
        set_cycle_status completed cycle,
        record db {
          performances =
              record_sessions ids org k
                (filter_by (λ s. session_of org k s && s.is_finalized) db.sessions) db.performances;
          cycles = update_by (λ c. c.id == k) (set_cycle_status completed) db.cycles;
          outbox =
              db.outbox ++ audit_entry (truthy actor) org AuditAction.review_cycle_completed k ip;
        },
      )
