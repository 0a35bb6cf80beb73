-- ===== src/Rows/Tenants.antt =====
-- Tables whose rows belong to an organization: what one organization's write leaves alone.
use teamos_backend.Prelude.{
  ◌≡◌, ◌≢◌, refl, sym, ap, ◌∙◌, some-eq, Bool, true, not, none, some, List, [], ◌∷◌, ◌++◌, arith,
  Key, ◌&&◌, find_by, filter_by, update_by, delete_by, All, ◌==◌, ==_iff, inl, inr, Bool-cases,
}
use teamos_backend.Rows.Keyed.{All-found, All-map, HasKeys, at, update_by-absent, delete_by-absent}

module _ {A : Type 0} (key tenant : A → Key) where
  -- The rows of the other organizations.
  abbrev pub others : Key → List A → List A
  others org = filter_by (λ x. not (tenant x == org))

  -- `findFirst({ where: { id, organizationId } })`
  abbrev pub owned : Key → Key → A → Bool
  owned k org x = key x == k && tenant x == org

  owned_rest :
      (k org : Key) (xs : List A) → All (λ y. key y ≢ k) xs → find_by (owned k org) xs ≡ none
  owned_rest k org [] a = refl
  owned_rest k org (y ∷ xs) a = ground (arith, owned_rest k org xs a.1)

  All-at_key :
      (y : A) (k : Key)
      → (key y == k) ≡ true
      → (xs : List A) → All (λ z. key z ≢ key y) xs
      → All (λ z. key z ≢ k) xs
  All-at_key y k e xs a = rw (← (==_iff (key y) k).0 e) a

  -- By the primary key, the row that is read with its organization is the row under its id.
  pub find_by-owned :
      (k org : Key) (xs : List A) {x : A}
      → HasKeys key xs
      → find_by (owned k org) xs ≡ some x
      → find_by (at key k) xs ≡ some x
  find_by-owned k org [] d h = cc
  find_by-owned k org (y ∷ xs) {x} d h = elim (Bool-cases (key y == k)) [
    | inl e ↦
        let rest : All (λ z. key z ≢ k) xs = All-at_key y k e xs d.0 in
        ground (arith, owned_rest k org xs rest)
    | inr e ↦ rw e (ground (arith, find_by-owned k org xs {x = x} d.1))
  ]

  pub owned-find_by :
      (k org : Key) (xs : List A) {x : A}
      → tenant x ≡ org
      → find_by (at key k) xs ≡ some x
      → find_by (owned k org) xs ≡ some x
  owned-find_by k org [] t h = cc
  owned-find_by k org (y ∷ xs) {x} t h = elim (Bool-cases (key y == k)) [
    | inl e ↦ ground arith
    | inr e ↦ rw e (owned-find_by k org xs {x = x} t (rw e at h))
  ]

  -- The primary key makes a write by `id` a write to the row that was read with its organization.
  pub others-update_by :
      (k org : Key) (f : A → A) (xs : List A) {x : A}
      → ((y : A) → tenant (f y) ≡ tenant y)
      → HasKeys key xs
      → find_by (owned k org) xs ≡ some x
      → others org (update_by (at key k) f xs) ≡ others org xs
  others-update_by k org f [] t d h = refl
  others-update_by k org f (y ∷ xs) {x} t d h = elim (Bool-cases (key y == k)) [
    | inl e ↦
        let rest : All (λ z. key z ≢ k) xs = All-at_key y k e xs d.0 in
        ground (arith, t y, owned_rest k org xs rest, update_by-absent key k f xs rest)
    | inr e ↦ rw e (ground (arith, others-update_by k org f xs {x = x} t d.1))
  ]

  pub others-delete_by :
      (k org : Key) (xs : List A) {x : A}
      → HasKeys key xs
      → find_by (owned k org) xs ≡ some x
      → others org (delete_by (at key k) xs) ≡ others org xs
  others-delete_by k org [] d h = refl
  others-delete_by k org (y ∷ xs) {x} d h = elim (Bool-cases (key y == k)) [
    | inl e ↦
        let rest : All (λ z. key z ≢ k) xs = All-at_key y k e xs d.0 in
        ground (arith, owned_rest k org xs rest, delete_by-absent key k xs rest)
    | inr e ↦ rw e (ground (arith, others-delete_by k org xs {x = x} d.1))
  ]

  pub others-append :
      (org : Key) (xs : List A) (y : A) → tenant y ≡ org → others org (xs ++ y ∷ []) ≡ others org xs
  others-append org [] y t = ground arith
  others-append org (x ∷ xs) y t = ground (arith, others-append org xs y t)

  -- The row that is read with its organization is the only one under its id.
  pub only-owned :
      (k org : Key) (xs : List A) {x : A}
      → HasKeys key xs
      → find_by (owned k org) xs ≡ some x
      → All (λ y. (key y == k) ≡ true → y ≡ x) xs
  only-owned k org xs {x} keys found =
      let row = find_by-owned k org xs {x = x} keys found in
      All-map _ (λ y. (key y == k) ≡ true → y ≡ x) xs
        (λ y h e.
          let here : key y ≡ k = (==_iff (key y) k).0 e in
          some-eq (sym h ∙ ap (λ j. find_by (at key j) xs) here ∙ row))
        (All-found key xs keys)
