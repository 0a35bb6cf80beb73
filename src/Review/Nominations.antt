-- ===== src/Review/Nominations.antt =====
-- `ReviewService.createNominations`, `findAllNominations`, `approveNomination`, `rejectNomination`
-- and `bulkApproveNominations`
use teamos_backend.Prelude.{
  ℕ, suc, ◌+◌, Bool, true, false, Option, none, some, List, [], ◌∷◌, ◌++◌, Key, truthy, contains,
  find_by, filter_by, update_by, count_by, any_by, length, Result, ok, err, bad_request, conflict,
  not_found, internal_error, or_throw, throw_if, ◌>>=◌, ◌>>◌, ◌==◌, ◌&&◌, ◌||◌, not, ltb,
}
use teamos_backend.Review.Model.{
  active, peer, NominationStatus, waiting, approved, rejected, PeerNomination, ReviewDb, Fault,
  Answer, cycle_not_active, nominates_self, too_many_nominees, already_nominated, unique_nomination,
  unique_review, nomination_missing, not_pending, same_cycle_status, same_nomination_status,
}
use teamos_backend.Review.Lookup.{validate_cycle}
use teamos_backend.Review.Activation.{assignment, new_review, has_review}

-- `where: { reviewCycleId, nominatorId }`
abbrev pub is_by : Key → Key → PeerNomination → Bool
is_by cycle user n = n.review_cycle_id == cycle && n.nominator_id == user

abbrev pub has_twice : List Key → Bool
has_twice [] = false
has_twice (u ∷ us) = contains us u || has_twice us

unfoldable pub new_nominations : (ℕ → Key) → ℕ → Key → Key → Key → List Key → List PeerNomination
new_nominations ids i cycle org user [] = []
new_nominations ids i cycle org user (nominee ∷ rest) =
    record {
      id = ids i;
      review_cycle_id = cycle;
      organization_id = org;
      nominator_id = user;
      nominee_id = nominee;
      status = waiting;
      reviewed_by_id = none;
    }
    ∷ new_nominations ids (suc i) cycle org user rest

abbrev pub decide : NominationStatus → Key → PeerNomination → PeerNomination
decide status user n = record n { status = status; reviewed_by_id = some user }

abbrev pub is_waiting_in : Key → Key → PeerNomination → Bool
is_waiting_in org cycle_id n =
    n.review_cycle_id == cycle_id
    && (n.organization_id == org && same_nomination_status n.status waiting)

module _ {V : Type 0} where
  unfoldable pub check_nominations :
      Key → Key → Key → List Key → ReviewDb V → Result Fault (Unit {0})
  check_nominations org user cycle_id nominees db = do
    cycle ← validate_cycle db org cycle_id
    throw_if (not (same_cycle_status cycle.status active)) conflict cycle_not_active
    throw_if (contains nominees user) bad_request nominates_self
    throw_if (ltb 3 (count_by (is_by cycle_id user) db.nominations + length nominees)) bad_request
        too_many_nominees
    throw_if (any_by (λ n. is_by cycle_id user n && contains nominees n.nominee_id) db.nominations)
        conflict already_nominated
    throw_if (has_twice nominees) internal_error unique_nomination

  unfoldable pub create_nominations :
      (ℕ → Key) → Key → Key → Key → List Key → ReviewDb V → Answer V (List PeerNomination)
  create_nominations ids org user cycle_id nominees db = do
    check_nominations org user cycle_id nominees db
    let made = new_nominations ids 0 cycle_id org user nominees
    ok (made, record db { nominations = db.nominations ++ made })

  unfoldable pub find_all_nominations :
      Key → Key → Option NominationStatus → Option Key → ReviewDb V → List PeerNomination
  find_all_nominations org cycle_id status nominator db =
      filter_by
        (λ n.
          n.organization_id == org
          && (n.review_cycle_id == cycle_id
              && ((elim status [ none ↦ true | some s ↦ same_nomination_status n.status s ])
                  && (elim (truthy nominator) [ none ↦ true | some u ↦ n.nominator_id == u ]))))
        db.nominations

  unfoldable pub check_pending : Key → Key → ReviewDb V → Result Fault PeerNomination
  check_pending org k db = do
    nomination ←
        or_throw (find_by (λ n. n.id == k && n.organization_id == org) db.nominations) not_found
          nomination_missing
    throw_if (not (same_nomination_status nomination.status waiting)) conflict not_pending
    ok nomination

  -- The review that the nominee is to write: the unique key of the reviews may refuse it.
  unfoldable pub check_approve : Key → Key → ReviewDb V → Result Fault PeerNomination
  unfolding check_pending
  check_approve org k db = do
    n ← check_pending org k db
    throw_if (has_review db.reviews n.review_cycle_id n.nominator_id n.nominee_id) internal_error
        unique_review
    ok n

  unfoldable pub approve_nomination : Key → Key → Key → Key → ReviewDb V → Answer V PeerNomination
  unfolding check_approve
  approve_nomination new_id org user k db = do
    n ← check_approve org k db
    ok (
      decide approved user n,
      record db {
        nominations = update_by (λ n. n.id == k) (decide approved user) db.nominations;
        reviews =
            db.reviews
            ++ new_review new_id n.review_cycle_id org (assignment n.nominator_id n.nominee_id peer)
              ∷ [];
      },
    )

  unfoldable pub reject_nomination : Key → Key → Key → ReviewDb V → Answer V PeerNomination
  unfolding check_pending
  reject_nomination org user k db = do
    n ← check_pending org k db
    ok (
      decide rejected user n,
      record db { nominations = update_by (λ n. n.id == k) (decide rejected user) db.nominations },
    )

  -- The loop of `bulkApproveNominations`: each approval is a transaction of its own, so an error
  -- ends the loop and leaves what was approved before.
  unfoldable pub approve_each :
      (Key → Key) → Key → Key → List PeerNomination → ℕ → ReviewDb V → Result Fault ℕ × ReviewDb V
  approve_each ids org user [] done db = (ok done, db)
  approve_each ids org user (n ∷ ns) done db =
      elim (approve_nomination (ids n.id) org user n.id db) [
        | err s r ↦ (err s r, db)
        | ok (_, next) ↦ approve_each ids org user ns (suc done) next
      ]

  -- `ids` are the identifiers of the reviews, by those of the nominations.
  unfoldable pub bulk_approve_nominations :
      (Key → Key) → Key → Key → Key → ReviewDb V → Result Fault ℕ × ReviewDb V
  unfolding approve_each
  bulk_approve_nominations ids org user cycle_id db =
      approve_each ids org user (filter_by (is_waiting_in org cycle_id) db.nominations) 0 db
