-- ===== src/Recognition/Sorted.antt =====
-- The order in which a feed lists its rows.
use teamos_backend.Prelude.{
  suc, ◌<◌, ◌≡◌, ◌∙◌, refl, ap, List, [], ◌∷◌, arith, length, count_by, All, Bool, ltb, ◌==◌, ◌&&◌,
  ◌||◌, ==_ne, ◌≢◌, Bool-cases, inl, inr,
}
use teamos_backend.Rows.{HasKeys, All-map}
use teamos_backend.Recognition.Model.{Recognition}
use teamos_backend.Recognition.Service.{TieOrder, newest_first, insert_newest}

length-insert :
    (ties : TieOrder) (r : Recognition) (rs : List Recognition)
    → length (insert_newest ties r rs) ≡ suc (length rs)
unfolding insert_newest
length-insert ties r [] = refl
length-insert ties r (x ∷ xs) = ground (arith, length-insert ties r xs)

pub length-newest_first :
    (ties : TieOrder) (rs : List Recognition) → length (newest_first ties rs) ≡ length rs
unfolding newest_first
length-newest_first ties [] = refl
length-newest_first ties (r ∷ rs) =
    length-insert ties r (newest_first ties rs) ∙ ap suc (length-newest_first ties rs)

count_by-insert :
    (q : Recognition → Bool) (ties : TieOrder) (r : Recognition) (rs : List Recognition)
    → count_by q (insert_newest ties r rs) ≡ count_by q (r ∷ rs)
unfolding insert_newest
count_by-insert q ties r [] = refl
count_by-insert q ties r (x ∷ rs) = ground (arith, count_by-insert q ties r rs)

pub count_by-newest_first :
    (q : Recognition → Bool) (ties : TieOrder) (rs : List Recognition)
    → count_by q (newest_first ties rs) ≡ count_by q rs
unfolding newest_first
count_by-newest_first q ties [] = refl
count_by-newest_first q ties (r ∷ rs) =
    count_by-insert q ties r (newest_first ties rs) ∙ rw (count_by-newest_first q ties rs)

All-insert :
    (P : Recognition → Type 0) (ties : TieOrder) (r : Recognition) (rs : List Recognition)
    → P r
    → All P rs
    → All P (insert_newest ties r rs)
unfolding insert_newest
All-insert P ties r [] here below = (here, tt)
All-insert P ties r (x ∷ rs) here (first, below) =
    elim (Bool-cases
      (ltb x.created_at r.created_at || (x.created_at == r.created_at && ties r x))) [
        | inl e ↦ rw e (here, (first, below))
        | inr e ↦ rw e (first, All-insert P ties r rs here below)
      ]

All-newest_first :
    (P : Recognition → Type 0) (ties : TieOrder) (rs : List Recognition)
    → All P rs
    → All P (newest_first ties rs)
unfolding newest_first
All-newest_first P ties [] all = tt
All-newest_first P ties (r ∷ rs) (here, below) =
    All-insert P ties r (newest_first ties rs) here (All-newest_first P ties rs below)

-- Each recognition was made later than all that follow it.
abbrev pub IsNewestFirst : List Recognition → Type 0
IsNewestFirst [] = Unit
IsNewestFirst (r ∷ rs) = All (λ x. x.created_at < r.created_at) rs × IsNewestFirst rs

insert-IsNewestFirst :
    (ties : TieOrder) (r : Recognition) (rs : List Recognition)
    → All (λ x. x.created_at ≢ r.created_at) rs
    → IsNewestFirst rs
    → IsNewestFirst (insert_newest ties r rs)
unfolding insert_newest
insert-IsNewestFirst ties r [] apart sorted = (tt, tt)
insert-IsNewestFirst ties r (x ∷ rs) apart sorted =
    elim (Bool-cases (ltb x.created_at r.created_at)) [
      | inl e ↦
          let later : x.created_at < r.created_at = ground arith in
          rw e ((later, All-map _ _ rs (λ y h. omega arith) sorted.0), sorted)
      | inr e ↦
          let earlier : r.created_at < x.created_at = ground (arith, apart.0) in
          rw (e, ==_ne x.created_at r.created_at apart.0)
            (
              All-insert (λ y. y.created_at < x.created_at) ties r rs earlier sorted.0,
              insert-IsNewestFirst ties r rs apart.1 sorted.1,
            )
    ]

pub newest_first-IsNewestFirst :
    (ties : TieOrder) (rs : List Recognition)
    → HasKeys (λ r. r.created_at) rs
    → IsNewestFirst (newest_first ties rs)
unfolding newest_first
newest_first-IsNewestFirst ties [] apart = tt
newest_first-IsNewestFirst ties (r ∷ rs) apart =
    insert-IsNewestFirst ties r (newest_first ties rs)
      (All-newest_first (λ x. x.created_at ≢ r.created_at) ties rs apart.0)
      (newest_first-IsNewestFirst ties rs apart.1)

-- Where no two rows were made at one time, the database has no choice.
insert-any_ties :
    (ties others : TieOrder) (r : Recognition) (rs : List Recognition)
    → All (λ x. x.created_at ≢ r.created_at) rs
    → insert_newest ties r rs ≡ insert_newest others r rs
unfolding insert_newest
insert-any_ties ties others r [] apart = refl
insert-any_ties ties others r (x ∷ rs) apart =
    rw (==_ne x.created_at r.created_at apart.0, insert-any_ties ties others r rs apart.1)

pub newest_first-any_ties :
    (ties others : TieOrder) (rs : List Recognition)
    → HasKeys (λ r. r.created_at) rs
    → newest_first ties rs ≡ newest_first others rs
unfolding newest_first
newest_first-any_ties ties others [] apart = refl
newest_first-any_ties ties others (r ∷ rs) apart =
    rw (newest_first-any_ties ties others rs apart.1) (
      insert-any_ties ties others r (newest_first others rs)
        (All-newest_first (λ x. x.created_at ≢ r.created_at) others rs apart.0))
