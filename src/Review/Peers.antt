-- ===== src/Review/Peers.antt =====
-- What holds of the nominations at all times.
use teamos_backend.Prelude.{
  ℕ, suc, ◌+◌, ◌≤◌, ◌≡◌, ◌≢◌, inl, inr, refl, Bool, false, List, [], ◌∷◌, ◌++◌, Key, arith, ◌==◌,
  ◌&&◌, Bool-cases, contains, count_by, update_by, delete_by, length, All, not, ok, store_after,
  store_after-keeps,
}
use teamos_backend.Amounts.{Amounts}
use teamos_backend.Rows.{All-update_by, All-filter_by}
use teamos_backend.Review.Model.{NominationStatus, approved, rejected, PeerNomination, ReviewDb}
use teamos_backend.Review.Nominations.{
  is_by, new_nominations, decide, check_nominations, check_approve, approve_nomination,
}
use teamos_backend.Review.Service.{ReviewRequest, handle_review}
use teamos_backend.Review.Writes.{keeps, drops, nominated, refuses, confirms, confirms_each}
use teamos_backend.Review.Frame.{handle_review-Frame, approve_each-keeps}

-- At most three nominations by one user in one cycle, and none of the user themselves.
pub record IsFairlyNominated (ns : List PeerNomination) : Type 0 where
  pub at_most_three : (cycle user : Key) → count_by (is_by cycle user) ns ≤ 3
  pub not_self : All (λ n. n.nominator_id ≢ n.nominee_id) ns

count_by-append :
    (p : PeerNomination → Bool) (xs ys : List PeerNomination)
    → count_by p (xs ++ ys) ≡ count_by p xs + count_by p ys
count_by-append p [] ys = omega arith
count_by-append p (x ∷ xs) ys = ground (arith, count_by-append p xs ys)

made_by :
    (ids : ℕ → Key) (i cycle org user : Key) (nominees : List Key)
    → count_by (is_by cycle user) (new_nominations ids i cycle org user nominees) ≡ length nominees
unfolding new_nominations
made_by ids i cycle org user [] = refl
made_by ids i cycle org user (n ∷ ns) = ground (arith, made_by ids (suc i) cycle org user ns)

made_by_other :
    (ids : ℕ → Key) (i cycle org user c u : Key) (nominees : List Key)
    → (cycle == c && user == u) ≡ false
    → count_by (is_by c u) (new_nominations ids i cycle org user nominees) ≡ 0
unfolding new_nominations
made_by_other ids i cycle org user c u [] h = refl
made_by_other ids i cycle org user c u (n ∷ ns) h =
    ground (arith, made_by_other ids (suc i) cycle org user c u ns h)

count_by-decide :
    (cycle user k by : Key) (status : NominationStatus) (ns : List PeerNomination)
    → count_by (is_by cycle user) (update_by (λ n. n.id == k) (decide status by) ns)
      ≡ count_by (is_by cycle user) ns
count_by-decide cycle user k by status [] = refl
count_by-decide cycle user k by status (n ∷ ns) =
    ground (arith, count_by-decide cycle user k by status ns)

count_by-filter :
    (p q : PeerNomination → Bool) (ns : List PeerNomination)
    → count_by p (delete_by q ns) ≤ count_by p ns
count_by-filter p q [] = omega arith
count_by-filter p q (n ∷ ns) = ground (arith, count_by-filter p q ns)

decide-IsFairlyNominated :
    (k by : Key) (status : NominationStatus) (ns : List PeerNomination)
    → IsFairlyNominated ns
    → IsFairlyNominated (update_by (λ n. n.id == k) (decide status by) ns)
decide-IsFairlyNominated k by status ns fair = record {
  at_most_three = λ cycle user.
      omega (arith, count_by-decide cycle user k by status ns, fair.at_most_three cycle user);
  not_self =
      All-update_by (λ n. n.nominator_id ≢ n.nominee_id) (λ n. n.id == k) (decide status by) ns
        (λ n _ h. h) fair.not_self;
}

others_named :
    (ids : ℕ → Key) (i cycle org user : Key) (nominees : List Key)
    → contains nominees user ≡ false
    → All (λ n. n.nominator_id ≢ n.nominee_id) (new_nominations ids i cycle org user nominees)
unfolding new_nominations
others_named ids i cycle org user [] h = tt
others_named ids i cycle org user (n ∷ ns) h =
    (ground arith, others_named ids (suc i) cycle org user ns (ground arith))

All-append_list :
    (P : PeerNomination → Type 0) (xs ys : List PeerNomination)
    → All P xs
    → All P ys
    → All P (xs ++ ys)
All-append_list P [] ys a b = b
All-append_list P (x ∷ xs) ys a b = (a.0, All-append_list P xs ys a.1 b)

nominate-IsFairlyNominated :
    (ids : ℕ → Key) (cycle org user : Key) (nominees : List Key) (ns : List PeerNomination)
    → contains nominees user ≡ false
    → count_by (is_by cycle user) ns + length nominees ≤ 3
    → IsFairlyNominated ns
    → IsFairlyNominated (ns ++ new_nominations ids 0 cycle org user nominees)
nominate-IsFairlyNominated ids cycle org user nominees ns other few fair =
    let made = new_nominations ids 0 cycle org user nominees in
    record {
      at_most_three = λ c u.
          let sum = count_by-append (is_by c u) ns made in
          elim (Bool-cases (cycle == c && user == u)) [
            | inl e ↦
                let same : (cycle ≡ c) × (user ≡ u) = ground arith in
                let own : count_by (is_by cycle user) (ns ++ made) ≤ 3 = omega (
                  arith,
                  count_by-append (is_by cycle user) ns made,
                  made_by ids 0 cycle org user nominees,
                ) in
                rw (← same.0, ← same.1) own
            | inr e ↦ omega (
              arith,
              sum,
              made_by_other ids 0 cycle org user c u nominees e,
              fair.at_most_three c u,
            )
          ];
      not_self =
          All-append_list (λ n. n.nominator_id ≢ n.nominee_id) ns made fair.not_self
            (others_named ids 0 cycle org user nominees other);
    }

drop-IsFairlyNominated :
    (q : PeerNomination → Bool) (ns : List PeerNomination)
    → IsFairlyNominated ns
    → IsFairlyNominated (delete_by q ns)
drop-IsFairlyNominated q ns fair = record {
  at_most_three = λ c u. omega (arith, count_by-filter (is_by c u) q ns, fair.at_most_three c u);
  not_self = All-filter_by (λ n. n.nominator_id ≢ n.nominee_id) (λ n. not (q n)) ns fair.not_self;
}

module _ {V : Type 0} where
  abbrev Fair : ReviewDb V → Type 0
  Fair db = IsFairlyNominated db.nominations

  approve-IsFairlyNominated :
      (org user k new_id : Key) (db : ReviewDb V)
      → IsFairlyNominated db.nominations
      → IsFairlyNominated (store_after db (approve_nomination new_id org user k db)).nominations
  unfolding approve_nomination
  approve-IsFairlyNominated org user k new_id db fair =
      store_after-keeps Fair db (check_approve org k db) _ fair
        (λ n e. decide-IsFairlyNominated k user approved db.nominations fair)

  nominations_checked :
      (org user k : Key) (nominees : List Key) (db : ReviewDb V)
      → check_nominations org user k nominees db ≡ ok tt
      → (contains nominees user ≡ false)
        × (count_by (is_by k user) db.nominations + length nominees ≤ 3)
  unfolding check_nominations
  nominations_checked org user k nominees db h = ground arith

  -- Whatever a request asks for, after it no user has nominated more than three others in a cycle,
  -- or themselves, if that was so before.
  pub handle_review-IsFairlyNominated :
      (num : Amounts V) (q : ReviewRequest V) (db : ReviewDb V)
      → IsFairlyNominated db.nominations
      → IsFairlyNominated (handle_review num q db).nominations
  handle_review-IsFairlyNominated num q db fair =
      elim ((handle_review-Frame num q db).nominations) [
        | keeps e ↦ rw e fair
        | drops k e ↦
            rw e (drop-IsFairlyNominated (λ n. n.review_cycle_id == k) db.nominations fair)
        | nominated ids org user k nominees checked e ↦
            let checks = nominations_checked org user k nominees db checked in
            rw e (
              nominate-IsFairlyNominated ids k org user nominees db.nominations checks.0 checks.1
                fair)
        | refuses org user k n checked e ↦
            rw e (decide-IsFairlyNominated k user rejected db.nominations fair)
        | confirms new_id org user k e ↦ rw e (approve-IsFairlyNominated org user k new_id db fair)
        | confirms_each ids org user ns e ↦ rw e (
            approve_each-keeps Fair ids org user (λ j i d. approve-IsFairlyNominated org user j i d)
              ns 0 db fair)
      ]
