-- ===== src/Rows/Keyed.antt =====
-- Tables whose rows have a primary key.
use mathlib.Core.Option
use teamos_backend.Prelude.{
  ◌≤◌, ◌≡◌, ◌≢◌, refl, sym, subst, Bool, true, not, none, some, List, [], ◌∷◌, ◌++◌, arith, Key,
  find_by, filter_by, update_by, delete_by, count_by, length, All, ◌==◌, ==_iff, some-eq,
  if◌then◌else◌, inl, inr, Bool-cases,
}

module _ {A : Type 0} where
  pub find_by-holds : (p : A → Bool) (xs : List A) {x : A} → find_by p xs ≡ some x → p x ≡ true
  find_by-holds p [] h = cc
  find_by-holds p (y ∷ xs) h = elim (Bool-cases (p y)) [
    | inl e ↦ let q : some y ≡ some _ = (rw e at h) in ground arith
    | inr e ↦ find_by-holds p xs (rw e at h)
  ]

  pub All-find_by :
      (P : A → Type 0) (p : A → Bool) (xs : List A) {x : A} → All P xs → find_by p xs ≡ some x → P x
  All-find_by P p [] a h = cc
  All-find_by P p (y ∷ xs) a h = elim (Bool-cases (p y)) [
    | inl e ↦ let q : some y ≡ some _ = (rw e at h) in subst P (cc) a.0
    | inr e ↦ All-find_by P p xs a.1 (rw e at h)
  ]

  pub All-filter_by :
      (P : A → Type 0) (p : A → Bool) (xs : List A) → All P xs → All P (filter_by p xs)
  All-filter_by P p [] a = tt
  All-filter_by P p (y ∷ xs) a = elim (Bool-cases (p y)) [
    | inl e ↦ rw e (a.0, All-filter_by P p xs a.1)
    | inr e ↦ rw e (All-filter_by P p xs a.1)
  ]

  pub All-update_by :
      (P : A → Type 0) (p : A → Bool) (f : A → A) (xs : List A)
      → ((x : A) → p x ≡ true → P x → P (f x))
      → All P xs
      → All P (update_by p f xs)
  All-update_by P p f [] k a = tt
  All-update_by P p f (y ∷ xs) k a = elim (Bool-cases (p y)) [
    | inl e ↦ rw e (k y e a.0, All-update_by P p f xs k a.1)
    | inr e ↦ rw e (a.0, All-update_by P p f xs k a.1)
  ]

  pub All-append : (P : A → Type 0) (xs : List A) (y : A) → All P xs → P y → All P (xs ++ y ∷ [])
  All-append P [] y a h = (h, tt)
  All-append P (x ∷ xs) y a h = (a.0, All-append P xs y a.1 h)

  pub All-map : (P Q : A → Type 0) (xs : List A) → ((x : A) → P x → Q x) → All P xs → All Q xs
  All-map P Q [] k a = tt
  All-map P Q (y ∷ xs) k a = (k y a.0, All-map P Q xs k a.1)

  pub All-map2 :
      (P Q R : A → Type 0) (xs : List A)
      → ((x : A) → P x → Q x → R x)
      → All P xs
      → All Q xs
      → All R xs
  All-map2 P Q R [] k a b = tt
  All-map2 P Q R (y ∷ xs) k a b = (k y a.0 b.0, All-map2 P Q R xs k a.1 b.1)

  pub count_by-le-length : (p : A → Bool) (xs : List A) → count_by p xs ≤ length xs
  count_by-le-length p [] = omega arith
  count_by-le-length p (y ∷ xs) = ground (arith, count_by-le-length p xs)

module _ {A : Type 0} (key : A → Key) where
  -- The primary key: no two rows have the same.
  abbrev pub HasKeys : List A → Type 0
  HasKeys [] = Unit
  HasKeys (x ∷ xs) = All (λ y. key y ≢ key x) xs × HasKeys xs

  abbrev pub at : Key → A → Bool
  at k x = key x == k

  pub find_by-absent : (k : Key) (xs : List A) → All (λ y. key y ≢ k) xs → find_by (at k) xs ≡ none
  find_by-absent k [] a = refl
  find_by-absent k (y ∷ xs) a = ground (arith, find_by-absent k xs a.1)

  pub update_by-absent :
      (k : Key) (f : A → A) (xs : List A) → All (λ y. key y ≢ k) xs → update_by (at k) f xs ≡ xs
  update_by-absent k f [] a = refl
  update_by-absent k f (y ∷ xs) a = ground (arith, update_by-absent k f xs a.1)

  pub delete_by-absent :
      (k : Key) (xs : List A) → All (λ y. key y ≢ k) xs → delete_by (at k) xs ≡ xs
  delete_by-absent k [] a = refl
  delete_by-absent k (y ∷ xs) a = ground (arith, delete_by-absent k xs a.1)

  pub HasKeys-delete_by : (p : A → Bool) (xs : List A) → HasKeys xs → HasKeys (delete_by p xs)
  HasKeys-delete_by p [] h = tt
  HasKeys-delete_by p (y ∷ xs) h = elim (Bool-cases (p y)) [
    | inl e ↦ rw e (HasKeys-delete_by p xs h.1)
    | inr e ↦
        rw e
          (All-filter_by (λ z. key z ≢ key y) (λ x. not (p x)) xs h.0, HasKeys-delete_by p xs h.1)
  ]

  -- Writes that leave the primary key alone.
  abbrev pub KeepsKey : (A → A) → Type 0
  KeepsKey f = (x : A) → key (f x) ≡ key x

  pub HasKeys-update_by :
      (p : A → Bool) (f : A → A) (xs : List A)
      → KeepsKey f
      → HasKeys xs
      → HasKeys (update_by p f xs)
  HasKeys-update_by p f [] k h = tt
  HasKeys-update_by p f (y ∷ xs) k h =
      let keeps : (z : Key) → All (λ x. key x ≢ z) xs → All (λ x. key x ≢ z) (update_by p f xs) =
        λ z. All-update_by (λ x. key x ≢ z) p f xs (λ x _ n. rw (k x) n) in
      elim (Bool-cases (p y)) [
        | inl e ↦ rw (e, k y) (keeps (key y) h.0, HasKeys-update_by p f xs k h.1)
        | inr e ↦ rw e (keeps (key y) h.0, HasKeys-update_by p f xs k h.1)
      ]

  -- A row is read back after a write: the written one under its key, any other as it was.
  pub find_by-update_by :
      (a k : Key) (f : A → A) (xs : List A)
      → KeepsKey f
      → find_by (at a) (update_by (at k) f xs)
        ≡ (if a == k then Option.map f (find_by (at a) xs) else find_by (at a) xs)
  find_by-update_by a k f [] h = ground arith
  find_by-update_by a k f (y ∷ xs) h = ground (arith, h y, find_by-update_by a k f xs h)

  pub HasKeys-append :
      (xs : List A) (y : A) → HasKeys xs → All (λ x. key x ≢ key y) xs → HasKeys (xs ++ y ∷ [])
  HasKeys-append [] y h fresh = (tt, tt)
  HasKeys-append (x ∷ xs) y h fresh = (
    All-append (λ z. key z ≢ key x) xs y h.0 (λ e. fresh.0 (sym e)),
    HasKeys-append xs y h.1 fresh.1,
  )

  -- A write under a primary key changes the one row that is found there.
  pub All-update_at :
      (P : A → Type 0) (k : Key) (f : A → A) (xs : List A) {t : A}
      → HasKeys xs
      → find_by (at k) xs ≡ some t
      → P (f t)
      → All P xs
      → All P (update_by (at k) f xs)
  All-update_at P k f [] d h p a = tt
  All-update_at P k f (y ∷ xs) {t} d h p a = elim (Bool-cases (key y == k)) [
    | inl e ↦
        let same : some y ≡ some t = rw e at h in
        let rest : update_by (at k) f xs ≡ xs =
          update_by-absent k f xs (rw (← (==_iff (key y) k).0 e) d.0) in
        rw (e, rest) (subst (λ z. P (f z)) (sym (some-eq same)) p, a.1)
    | inr e ↦ rw e (a.0, All-update_at P k f xs {t = t} d.1 (rw e at h) p a.1)
  ]

  -- A write to all rows that pass a test.
  pub find_by-update_where :
      (k : Key) (p : A → Bool) (f : A → A) (xs : List A)
      → KeepsKey f
      → find_by (at k) (update_by p f xs)
        ≡ Option.map (λ x. if p x then f x else x) (find_by (at k) xs)
  find_by-update_where k p f [] h = ground arith
  find_by-update_where k p f (y ∷ xs) h = ground (arith, h y, find_by-update_where k p f xs h)

  pub find_by-delete_by :
      (a k : Key) (xs : List A)
      → find_by (at a) (delete_by (at k) xs) ≡ (if a == k then none else find_by (at a) xs)
  find_by-delete_by a k [] = ground arith
  find_by-delete_by a k (y ∷ xs) = ground (arith, find_by-delete_by a k xs)

  pub find_by-append :
      (p : A → Bool) (xs : List A) (y : A) {x : A}
      → find_by p xs ≡ some x
      → find_by p (xs ++ y ∷ []) ≡ some x
  find_by-append p [] y h = cc
  find_by-append p (z ∷ xs) y {x} h = elim (Bool-cases (p z)) [
    | inl e ↦ rw e (rw e at h)
    | inr e ↦ rw e (find_by-append p xs y {x = x} (rw e at h))
  ]

  found_below :
      (y : A) (xs zs : List A)
      → All (λ z. key z ≢ key y) xs
      → All (λ x. find_by (at (key x)) zs ≡ some x) xs
      → All (λ x. find_by (at (key x)) (y ∷ zs) ≡ some x) xs
  found_below y [] zs away found = tt
  found_below y (x ∷ xs) zs away found =
      (ground (arith, away.0, found.0), found_below y xs zs away.1 found.1)

  -- Every row is the one under its key.
  pub All-found : (xs : List A) → HasKeys xs → All (λ x. find_by (at (key x)) xs ≡ some x) xs
  All-found [] h = tt
  All-found (y ∷ xs) h = (ground arith, found_below y xs xs h.0 (All-found xs h.1))

  pub All-filter_where :
      (P : A → Type 0) (p : A → Bool) (xs : List A)
      → All P xs
      → All (λ x. P x × (p x ≡ true)) (filter_by p xs)
  All-filter_where P p [] a = tt
  All-filter_where P p (y ∷ xs) a = elim (Bool-cases (p y)) [
    | inl e ↦ rw e ((a.0, e), All-filter_where P p xs a.1)
    | inr e ↦ rw e (All-filter_where P p xs a.1)
  ]
