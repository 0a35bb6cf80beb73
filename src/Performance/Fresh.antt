-- ===== src/Performance/Fresh.antt =====
-- What a job 'recalculate' does to the rows of performance.
use teamos_backend.Prelude.{
  ◌≡◌, refl, inl, inr, true, false, Bool-cases, Option-cases, none, some, List, [], ◌∷◌, ◌++◌, Key,
  arith, is_some, update_by, ◌==◌, ◌&&◌,
}
use mathlib.Core.Option
use teamos_backend.Performance.Model.{Performance, of_user, find_performance, upsert}

module _ {V : Type 0} where
  -- A write that keeps whose row it is.
  abbrev pub KeepsUser : (Performance V → Performance V) → Type 0
  KeepsUser f =
      (p : Performance V)
      → ((f p).organization_id ≡ p.organization_id) × ((f p).user_id ≡ p.user_id)

  find_performance-update :
      (org user : Key) (f : Performance V → Performance V) (rows : List (Performance V))
      → KeepsUser f
      → find_performance (update_by (of_user org user) f rows) org user
        ≡ Option.map f (find_performance rows org user)
  find_performance-update org user f [] same = refl
  find_performance-update org user f (p ∷ rows) same =
      let ih = find_performance-update org user f rows same in
      elim (Bool-cases (of_user org user p)) [
        | inl e ↦ rw (e, (same p).0, (same p).1, e)
        | inr e ↦ rw (e, e) ih
      ]

  find_performance-update_other :
      (org user o u : Key) (f : Performance V → Performance V) (rows : List (Performance V))
      → KeepsUser f
      → (o == org && u == user) ≡ false
      → find_performance (update_by (of_user org user) f rows) o u ≡ find_performance rows o u
  find_performance-update_other org user o u f [] same h = refl
  find_performance-update_other org user o u f (p ∷ rows) same h =
      let ih = find_performance-update_other org user o u f rows same h in
      elim (Bool-cases (of_user org user p)) [
        | inl e ↦
            let other : of_user o u p ≡ false = ground arith in
            rw (e, (same p).0, (same p).1, other) ih
        | inr e ↦ rw e (rw ih)
      ]

  find_performance-add :
      (org user : Key) (p : Performance V) (rows : List (Performance V))
      → find_performance rows org user ≡ none
      → of_user org user p ≡ true
      → find_performance (rows ++ p ∷ []) org user ≡ some p
  find_performance-add org user p [] h mine = rw mine
  find_performance-add org user p (r ∷ rows) h mine = elim (Bool-cases (of_user org user r)) [
    | inl e ↦ let bad : some r ≡ none = (rw e at h) in cc
    | inr e ↦ rw e (find_performance-add org user p rows (rw e at h) mine)
  ]

  find_performance-add_other :
      (o u : Key) (p : Performance V) (rows : List (Performance V))
      → of_user o u p ≡ false
      → find_performance (rows ++ p ∷ []) o u ≡ find_performance rows o u
  find_performance-add_other o u p [] other = rw other
  find_performance-add_other o u p (r ∷ rows) other =
      rw (find_performance-add_other o u p rows other)

  -- After an `upsert` the user's row is the one that was there, updated, or the new one.
  pub find_performance-upsert :
      (org user : Key) (set : Performance V → Performance V) (made : Performance V)
      (rows : List (Performance V))
      → KeepsUser set
      → of_user org user made ≡ true
      → find_performance (upsert org user set made rows) org user
        ≡ (elim (find_performance rows org user) [ none ↦ some made | some p ↦ some (set p) ])
  find_performance-upsert org user set made rows same mine =
      elim (Option-cases (find_performance rows org user)) [
        | inl e ↦ rw e (find_performance-add org user made rows e mine)
        | inr (p, e) ↦ rw (e, find_performance-update org user set rows same, e)
      ]

  pub find_performance-upsert_other :
      (org user o u : Key) (set : Performance V → Performance V) (made : Performance V)
      (rows : List (Performance V))
      → KeepsUser set
      → of_user org user made ≡ true
      → (o == org && u == user) ≡ false
      → find_performance (upsert org user set made rows) o u ≡ find_performance rows o u
  find_performance-upsert_other org user o u set made rows same mine h =
      elim (Bool-cases (is_some (find_performance rows org user))) [
        | inl e ↦ rw e (find_performance-update_other org user o u set rows same h)
        | inr e ↦
            let other : of_user o u made ≡ false = ground arith in
            rw e (find_performance-add_other o u made rows other)
      ]
