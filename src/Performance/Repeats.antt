-- ===== src/Performance/Repeats.antt =====
-- The snapshots of a day.
use teamos_backend.Prelude.{
  ℕ, ◌≡◌, refl, inl, inr, Bool, true, false, Bool-cases, Option-cases, none, some, List, [], ◌∷◌,
  ◌++◌, Key, arith, any_by, map, filter_by, ◌==◌, ◌&&◌, ==_refl,
}
use teamos_backend.Performance.Model.{Performance, PerformanceSnapshot, find_performance}
use teamos_backend.Performance.Store.{PerformanceDb}
use teamos_backend.Performance.Snapshots.{
  day_of, find_snapshot, snapshot_of, capture_snapshot, capture_each, daily_snapshot,
}

module _ {V : Type 0} where
  -- `@@unique([organizationId, userId, period])`
  abbrev same_snapshot : PerformanceSnapshot V → PerformanceSnapshot V → Bool
  same_snapshot a b =
      b.organization_id == a.organization_id && (b.user_id == a.user_id && b.period == a.period)

  abbrev pub AreDistinct : List (PerformanceSnapshot V) → Type 0
  AreDistinct [] = Unit
  AreDistinct (s ∷ ss) = (any_by (same_snapshot s) ss ≡ false) × AreDistinct ss

  pub find_snapshot-add :
      (rows : List (PerformanceSnapshot V)) (s : PerformanceSnapshot V) (org user : Key) (day : ℕ)
      → find_snapshot rows org user day ≡ none
      → (s.organization_id == org && (s.user_id == user && s.period == day)) ≡ true
      → find_snapshot (rows ++ s ∷ []) org user day ≡ some s
  find_snapshot-add [] s org user day h mine = rw mine
  find_snapshot-add (r ∷ rows) s org user day h mine =
      elim (Bool-cases (r.organization_id == org && (r.user_id == user && r.period == day))) [
        | inl e ↦ let bad : some r ≡ none = (rw e at h) in cc
        | inr e ↦ rw e (find_snapshot-add rows s org user day (rw e at h) mine)
      ]

  capture-absent :
      (now new_id org user : Key) (db : PerformanceDb V)
      → find_performance db.performances org user ≡ none
      → capture_snapshot now new_id org user db ≡ (none, db)
  unfolding capture_snapshot
  capture-absent now new_id org user db e = rw (capture_snapshot, e)

  capture-old :
      (now new_id org user : Key) (db : PerformanceDb V) (p : Performance V)
      (s : PerformanceSnapshot V)
      → find_performance db.performances org user ≡ some p
      → find_snapshot db.snapshots org user (day_of now) ≡ some s
      → capture_snapshot now new_id org user db ≡ (some s, db)
  unfolding capture_snapshot
  capture-old now new_id org user db p s e f = rw (capture_snapshot, e, f)

  abbrev with_snapshot : PerformanceSnapshot V → PerformanceDb V → PerformanceDb V
  with_snapshot s db = record db { snapshots = db.snapshots ++ s ∷ [] }

  capture-new :
      (now new_id org user : Key) (db : PerformanceDb V) (p : Performance V)
      → find_performance db.performances org user ≡ some p
      → find_snapshot db.snapshots org user (day_of now) ≡ none
      → let made = snapshot_of new_id org user now p in
        capture_snapshot now new_id org user db ≡ (some made, with_snapshot made db)
  unfolding capture_snapshot
  capture-new now new_id org user db p e f = rw (capture_snapshot, e, f)

  -- A second snapshot of a user on one day is the first one, and the store stays as it was.
  pub capture_snapshot_twice :
      (now later new_id other_id org user : Key) (db : PerformanceDb V)
      → day_of later ≡ day_of now
      → let first = capture_snapshot now new_id org user db in
        capture_snapshot later other_id org user first.1 ≡ first
  capture_snapshot_twice now later new_id other_id org user db day =
      elim (Option-cases (find_performance db.performances org user)) [
        | inl e ↦
            rw (capture-absent now new_id org user db e)
              (capture-absent later other_id org user db e)
        | inr (p, e) ↦ elim (Option-cases (find_snapshot db.snapshots org user (day_of now))) [
          | inl f ↦
              let made = snapshot_of new_id org user now p in
              let found : find_snapshot (db.snapshots ++ made ∷ []) org user (day_of later)
                  ≡ some made =
                rw day (
                  find_snapshot-add db.snapshots made org user (day_of now) f
                    (rw (==_refl org, ==_refl user, ==_refl (day_of now)))) in
              rw (capture-new now new_id org user db p e f)
                (capture-old later other_id org user (with_snapshot made db) p made e found)
          | inr (s, f) ↦
              rw (capture-old now new_id org user db p s e f)
                (capture-old later other_id org user db p s e (rw day f))
        ]
      ]

  any_by-append :
      (q : PerformanceSnapshot V → Bool) (rows : List (PerformanceSnapshot V))
      (s : PerformanceSnapshot V)
      → any_by q rows ≡ false
      → q s ≡ false
      → any_by q (rows ++ s ∷ []) ≡ false
  any_by-append q [] s h k = rw k
  any_by-append q (r ∷ rows) s h k = ground (arith, any_by-append q rows s)

  add-AreDistinct :
      (rows : List (PerformanceSnapshot V)) (s : PerformanceSnapshot V)
      → find_snapshot rows s.organization_id s.user_id s.period ≡ none
      → AreDistinct rows
      → AreDistinct (rows ++ s ∷ [])
  add-AreDistinct [] s h d = (refl, tt)
  add-AreDistinct (r ∷ rows) s h d =
      elim (Bool-cases (
        r.organization_id == s.organization_id
        && (r.user_id == s.user_id && r.period == s.period))) [
          | inl e ↦ let bad : some r ≡ none = (rw e at h) in cc
          | inr e ↦ (
            any_by-append (same_snapshot r) rows s d.0 (ground arith),
            add-AreDistinct rows s (rw e at h) d.1,
          )
        ]

  capture-AreDistinct :
      (now new_id org user : Key) (db : PerformanceDb V)
      → AreDistinct db.snapshots
      → AreDistinct (capture_snapshot now new_id org user db).1.snapshots
  unfolding capture_snapshot
  capture-AreDistinct now new_id org user db d =
      elim (Option-cases (find_performance db.performances org user)) [
        | inl e ↦ rw (capture_snapshot, e) d
        | inr (p, e) ↦ elim (Option-cases (find_snapshot db.snapshots org user (day_of now))) [
          | inl f ↦
              rw (capture_snapshot, e, f)
                (add-AreDistinct db.snapshots (snapshot_of new_id org user now p) f d)
          | inr (s, f) ↦ rw (capture_snapshot, e, f) d
        ]
      ]

  capture_each-AreDistinct :
      (now : ℕ) (ids : Key → Key → Key) (org : Key) (users : List Key) (n : ℕ)
      (db : PerformanceDb V)
      → AreDistinct db.snapshots
      → AreDistinct (capture_each now ids org users n db).1.snapshots
  unfolding capture_each
  capture_each-AreDistinct now ids org [] n db d = d
  capture_each-AreDistinct now ids org (u ∷ us) n db d =
      capture_each-AreDistinct now ids org us _ _ (capture-AreDistinct now (ids org u) org u db d)

  -- The daily snapshots leave no user with two snapshots of one day, if there were none before.
  pub daily_snapshot-AreDistinct :
      (now : ℕ) (ids : Key → Key → Key) (orgs : List Key) (n : ℕ) (db : PerformanceDb V)
      → AreDistinct db.snapshots
      → AreDistinct (daily_snapshot now ids orgs n db).1.snapshots
  unfolding daily_snapshot
  daily_snapshot-AreDistinct now ids [] n db d = d
  daily_snapshot-AreDistinct now ids (org ∷ orgs) n db d =
      let users =
        map (λ p. p.user_id) (filter_by (λ p. p.organization_id == org) db.performances) in
      daily_snapshot-AreDistinct now ids orgs _ _
        (capture_each-AreDistinct now ids org users n db d)
