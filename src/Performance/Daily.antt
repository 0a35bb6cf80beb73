-- ===== src/Performance/Daily.antt =====
-- What the daily snapshots hold.
use teamos_backend.Prelude.{
  ℕ, ◌≡◌, ◌⊎◌, ◌∙◌, refl, subst, inl, inr, Bool, true, false, Bool-cases, Option-cases, none, some,
  Option, List, [], ◌∷◌, ◌++◌, Key, arith, contains, map, filter_by, find_by, ◌==◌, ◌&&◌, ==_refl,
  ==_iff,
}
use teamos_backend.Rows.{find_by-append}
use teamos_backend.Performance.Model.{Performance, PerformanceSnapshot, find_performance}
use teamos_backend.Performance.Store.{PerformanceDb}
use teamos_backend.Performance.Snapshots.{
  day_of, find_snapshot, snapshot_of, capture_snapshot, capture_each, daily_snapshot,
}
use teamos_backend.Performance.Repeats.{AreDistinct, find_snapshot-add, daily_snapshot-AreDistinct}

module _ {V : Type 0} where
  find_by-miss :
      (q : PerformanceSnapshot V → Bool) (rows : List (PerformanceSnapshot V))
      (s : PerformanceSnapshot V)
      → q s ≡ false
      → find_by q (rows ++ s ∷ []) ≡ find_by q rows
  find_by-miss q [] s h = rw h
  find_by-miss q (r ∷ rows) s h = ground (arith, find_by-miss q rows s h)

  -- The list of users that the job goes through holds everyone with a row.
  found-contains :
      (org user : Key) (rows : List (Performance V)) {p : Performance V}
      → find_performance rows org user ≡ some p
      → contains (map (λ p. p.user_id) (filter_by (λ p. p.organization_id == org) rows)) user ≡ true
  found-contains org user [] h = absurd (ground arith)
  found-contains org user (r ∷ rows) {p} h = elim (Bool-cases (r.organization_id == org)) [
    | inl e ↦ elim (Bool-cases (r.user_id == user)) [
      | inl f ↦
          let same : r.user_id ≡ user = (==_iff r.user_id user).0 f in rw (e, same, ==_refl user)
      | inr f ↦
          let rest = found-contains org user rows {p = p} (rw (e, f) at h) in
          rw e (ground (arith, rest))
    ]
    | inr e ↦ rw e (found-contains org user rows {p = p} (rw e at h))
  ]

  capture-performances :
      (now new_id o u : Key) (db : PerformanceDb V)
      → (capture_snapshot now new_id o u db).1.performances ≡ db.performances
  unfolding capture_snapshot
  capture-performances now new_id o u db =
      elim (Option-cases (find_performance db.performances o u)) [
        | inl e ↦ rw (capture_snapshot, e)
        | inr (p, e) ↦ elim (Option-cases (find_snapshot db.snapshots o u (day_of now))) [
          | inl f ↦ rw (capture_snapshot, e, f)
          | inr (s, f) ↦ rw (capture_snapshot, e, f)
        ]
      ]

  module _ (now : ℕ) (org user : Key) where
    abbrev pub today : PerformanceDb V → Option (PerformanceSnapshot V)
    today db = find_snapshot db.snapshots org user (day_of now)

    capture-stays :
        (new_id o u : Key) (db : PerformanceDb V) (s : PerformanceSnapshot V)
        → today db ≡ some s
        → today (capture_snapshot now new_id o u db).1 ≡ some s
    unfolding capture_snapshot
    capture-stays new_id o u db s h = elim (Option-cases (find_performance db.performances o u)) [
      | inl e ↦ rw (capture_snapshot, e) h
      | inr (p, e) ↦ elim (Option-cases (find_snapshot db.snapshots o u (day_of now))) [
        | inl f ↦
            rw (capture_snapshot, e, f)
              (find_by-append (λ s. s.id) _ db.snapshots (snapshot_of new_id o u now p) h)
        | inr (r, f) ↦ rw (capture_snapshot, e, f) h
      ]
    ]

    capture-others :
        (new_id o u : Key) (db : PerformanceDb V)
        → (o == org && u == user) ≡ false
        → today (capture_snapshot now new_id o u db).1 ≡ today db
    unfolding capture_snapshot
    capture-others new_id o u db h = elim (Option-cases (find_performance db.performances o u)) [
      | inl e ↦ rw (capture_snapshot, e)
      | inr (p, e) ↦ elim (Option-cases (find_snapshot db.snapshots o u (day_of now))) [
        | inl f ↦
            rw (capture_snapshot, e, f)
              (find_by-miss _ db.snapshots (snapshot_of new_id o u now p) (ground arith))
        | inr (r, f) ↦ rw (capture_snapshot, e, f)
      ]
    ]

    capture-takes :
        (new_id : Key) (db : PerformanceDb V) (p : Performance V)
        → find_performance db.performances org user ≡ some p
        → today db ≡ none
        → today (capture_snapshot now new_id org user db).1
          ≡ some (snapshot_of new_id org user now p)
    unfolding capture_snapshot
    capture-takes new_id db p e f =
        rw (capture_snapshot, e, f)
          (find_snapshot-add db.snapshots (snapshot_of new_id org user now p) org user (day_of now)
            f (rw (==_refl org, ==_refl user, ==_refl (day_of now))))

    module _ (ids : Key → Key → Key) where
      each-stays :
          (o : Key) (us : List Key) (n : ℕ) (db : PerformanceDb V) (s : PerformanceSnapshot V)
          → today db ≡ some s
          → today (capture_each now ids o us n db).1 ≡ some s
      unfolding capture_each
      each-stays o [] n db s h = h
      each-stays o (u ∷ us) n db s h = each-stays o us _ _ s (capture-stays (ids o u) o u db s h)

      each-performances :
          (o : Key) (us : List Key) (n : ℕ) (db : PerformanceDb V)
          → (capture_each now ids o us n db).1.performances ≡ db.performances
      unfolding capture_each
      each-performances o [] n db = refl
      each-performances o (u ∷ us) n db =
          each-performances o us _ _ ∙ capture-performances now (ids o u) o u db

      each-others :
          (o : Key) (us : List Key) (n : ℕ) (db : PerformanceDb V)
          → (o == org) ≡ false
          → today (capture_each now ids o us n db).1 ≡ today db
      unfolding capture_each
      each-others o [] n db h = refl
      each-others o (u ∷ us) n db h =
          each-others o us _ _ h ∙ capture-others (ids o u) o u db (rw h)

      abbrev pub made_today : Performance V → PerformanceSnapshot V
      made_today p = snapshot_of (ids org user) org user now p

      each-takes :
          (us : List Key) (n : ℕ) (db : PerformanceDb V) (p : Performance V)
          → contains us user ≡ true
          → find_performance db.performances org user ≡ some p
          → today db ≡ none
          → today (capture_each now ids org us n db).1 ≡ some (made_today p)
      unfolding capture_each
      each-takes [] n db p h row none_yet = absurd (ground arith)
      each-takes (u ∷ us) n db p h row none_yet = elim (Bool-cases (user == u)) [
        | inl e ↦
            let same : user ≡ u = (==_iff user u).0 e in
            each-stays org us _ _ (made_today p) (
              subst (λ v. today (capture_snapshot now (ids org v) org v db).1 ≡ some (made_today p))
                same (capture-takes (ids org user) db p row none_yet))
        | inr e ↦
            each-takes us _ _ p (ground arith)
              (rw (capture-performances now (ids org u) org u db) row)
              (capture-others (ids org u) org u db (ground arith) ∙ none_yet)
      ]

      abbrev users_of : Key → PerformanceDb V → List Key
      users_of o db = map (λ p. p.user_id) (filter_by (λ p. p.organization_id == o) db.performances)

      daily-stays :
          (orgs : List Key) (n : ℕ) (db : PerformanceDb V) (s : PerformanceSnapshot V)
          → today db ≡ some s
          → today (daily_snapshot now ids orgs n db).1 ≡ some s
      unfolding daily_snapshot
      daily-stays [] n db s h = h
      daily-stays (o ∷ orgs) n db s h =
          daily-stays orgs _ _ s (each-stays o (users_of o db) n db s h)

      daily-takes :
          (orgs : List Key) (n : ℕ) (db : PerformanceDb V) (p : Performance V)
          → contains orgs org ≡ true
          → find_performance db.performances org user ≡ some p
          → today db ≡ none
          → today (daily_snapshot now ids orgs n db).1 ≡ some (made_today p)
      unfolding daily_snapshot
      daily-takes [] n db p h row none_yet = absurd (ground arith)
      daily-takes (o ∷ orgs) n db p h row none_yet = elim (Bool-cases (org == o)) [
        | inl e ↦
            let same : org ≡ o = (==_iff org o).0 e in
            daily-stays orgs _ _ (made_today p) (
              subst
                (λ i. today (capture_each now ids i (users_of i db) n db).1 ≡ some (made_today p))
                same
                (each-takes (users_of org db) n db p
                  (found-contains org user db.performances {p = p} row) row none_yet))
        | inr e ↦
            daily-takes orgs _ _ p (ground arith)
              (rw (each-performances o (users_of o db) n db) row)
              (each-others o (users_of o db) n db (ground arith) ∙ none_yet)
      ]

      -- Every user with a row in one of the organizations has a snapshot of the day afterwards: the
      -- one they had, or one with the numbers of their row; and nobody has two of one day, if
      -- nobody had before.
      pub daily_snapshot_exact :
          (orgs : List Key) (n : ℕ) (db : PerformanceDb V) (p : Performance V)
          → AreDistinct db.snapshots
          → contains orgs org ≡ true
          → find_performance db.performances org user ≡ some p
          → let after = (daily_snapshot now ids orgs n db).1 in
            AreDistinct after.snapshots
            × ((s : PerformanceSnapshot V) × (today after ≡ some s)
                × ((today db ≡ some s) ⊎ ((today db ≡ none) × (s ≡ made_today p))))
      daily_snapshot_exact orgs n db p distinct listed row = (
        daily_snapshot-AreDistinct now ids orgs n db distinct,
        elim (Option-cases (today db)) [
          | inl e ↦ (made_today p, daily-takes orgs n db p listed row e, inr (e, refl))
          | inr (s, e) ↦ (s, daily-stays orgs n db s e, inl e)
        ],
      )
