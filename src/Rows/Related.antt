-- ===== src/Rows/Related.antt =====
-- Tables compared row by row, and whether rows of some kind stand in a table, and how many.
use teamos_backend.Prelude.{
  ◌≡◌, ◌⊎◌, ◌↔◌, inl, inr, refl, Bool, true, false, ◌&&◌, Bool-cases, List, [], ◌∷◌, arith, any_by,
  filter_by, update_by, ℕ, suc, count_by, All, Key, ◌≢◌, ◌==◌, find_by, some, some-eq, ==_iff,
}
use teamos_backend.Rows.Keyed.{HasKeys}

module _ {A : Type 0} where
  -- Each row of one table and the row in its place in the other.
  abbrev pub AreRelated : (A → A → Type 0) → List A → List A → Type 0
  AreRelated R [] [] = Unit
  AreRelated R (x ∷ xs) (y ∷ ys) = R x y × AreRelated R xs ys
  AreRelated R [] (y ∷ ys) = ⊥
  AreRelated R (x ∷ xs) [] = ⊥

  pub AreRelated-update_by :
      (R : A → A → Type 0) (p : A → Bool) (f : A → A) (xs : List A)
      → ((x : A) → p x ≡ true → R x (f x))
      → ((x : A) → p x ≡ false → R x x)
      → AreRelated R xs (update_by p f xs)
  AreRelated-update_by R p f [] written kept = tt
  AreRelated-update_by R p f (x ∷ xs) written kept =
      let rest = AreRelated-update_by R p f xs written kept in
      elim (Bool-cases (p x)) [ inl e ↦ rw e (written x e, rest) | inr e ↦ rw e (kept x e, rest) ]

  -- Some row of the table has the property.
  abbrev pub Any : (A → Type 0) → List A → Type 0
  Any P [] = ⊥
  Any P (x ∷ xs) = P x ⊎ Any P xs

  pub any_by-Any :
      (p : A → Bool) (P : A → Type 0) (xs : List A)
      → ((x : A) → (p x ≡ true) ↔ P x)
      → (any_by p xs ≡ true) ↔ Any P xs
  any_by-Any p P [] same = (λ h. absurd (ground arith), λ h. absurd h)
  any_by-Any p P (x ∷ xs) same =
      let rest = any_by-Any p P xs same in
      elim (Bool-cases (p x)) [
        | inl e ↦ (λ h. inl ((same x).0 e), λ h. rw e)
        | inr e ↦ (
          λ h. inr (rest.0 (ground arith)),
          λ h. elim h [
            | inl y ↦ let bad = (same x).1 y in absurd (ground arith)
            | inr r ↦ let found = rest.1 r in ground arith
          ],
        )
      ]

  pub any_by-filter_by :
      (p q : A → Bool) (xs : List A) → any_by q (filter_by p xs) ≡ any_by (λ x. p x && q x) xs
  any_by-filter_by p q [] = refl
  any_by-filter_by p q (x ∷ xs) = ground (arith, any_by-filter_by p q xs)

  -- So many rows of the table have the property.
  abbrev pub IsCount : (A → Type 0) → List A → ℕ → Type 0
  IsCount P [] n = n ≡ 0
  IsCount P (x ∷ xs) n =
      (P x × ((m : ℕ) × (n ≡ suc m) × IsCount P xs m)) ⊎ ((¬ P x) × IsCount P xs n)

  pub count_by-IsCount :
      (p : A → Bool) (P : A → Type 0) (xs : List A)
      → All (λ x. (p x ≡ true) ↔ P x) xs
      → IsCount P xs (count_by p xs)
  count_by-IsCount p P [] same = refl
  count_by-IsCount p P (x ∷ xs) (here, below) =
      let rest = count_by-IsCount p P xs below in
      elim (Bool-cases (p x)) [
        | inl e ↦ rw e (inl (here.0 e, (count_by p xs, omega arith, rest)))
        | inr e ↦ rw e (inr (λ h. let yes = here.1 h in absurd (ground arith), rest))
      ]

module _ {A : Type 0} (key : A → Key) where
  any_by-absent :
      (p : A → Bool) (k : Key) (xs : List A)
      → All (λ x. key x ≢ k) xs
      → any_by (λ x. p x && key x == k) xs ≡ false
  any_by-absent p k [] away = refl
  any_by-absent p k (x ∷ xs) away = ground (arith, away.0, any_by-absent p k xs away.1)

  -- A row with the key passes the test exactly if the one found under the key does.
  pub any_by-at :
      (p : A → Bool) (k : Key) (xs : List A) {c : A}
      → HasKeys key xs
      → find_by (λ x. key x == k) xs ≡ some c
      → any_by (λ x. p x && key x == k) xs ≡ p c
  any_by-at p k [] keys found = absurd (ground arith)
  any_by-at p k (x ∷ xs) {c} keys found = elim (Bool-cases (key x == k)) [
    | inl e ↦
        let rest : any_by (λ x. p x && key x == k) xs ≡ false =
          any_by-absent p k xs (rw (← (==_iff (key x) k).0 e) keys.0) in
        let same : x ≡ c = some-eq (rw e at found) in rw (e, rest, same) (ground arith)
    | inr e ↦ let rest = any_by-at p k xs {c = c} keys.1 (rw e at found) in ground arith
  ]
