-- ===== src/Complaint/Listed.antt =====
-- Which complaints `findAll` answers with.
use mathlib.Core.Option.{get_or}
use teamos_backend.Prelude.{
  ℕ, zero, suc, ◌+◌, ==_iff, ◌-◌, ◌*◌, ◌≤◌, ◌≡◌, ◌↔◌, ◌∙◌, refl, sym, ap, subst, Bool, true, Option,
  none, some, List, [], ◌∷◌, Key, arith, any_by, find_by, filter_by, count_by, length, ◌==◌, ◌&&◌,
  ◌||◌,
}
use teamos_backend.Rows.{HasKeys, any_by-filter_by, any_by-at, find_by-holds}
use teamos_backend.Outbox.{same_priority}
use teamos_backend.Roles.{Role}
use teamos_backend.Complaint.Model.{same_status, Complaint, ComplaintDb}
use teamos_backend.Complaint.Listing.{
  is_visible, same_category, ComplaintQueryDto, passes, insert_newest, newest_first, skip, take,
  find_all,
}
use teamos_backend.Complaint.Visibility.{IsShown, is_visible_iff}

abbrev pub Meets : {A : Type 0} → Option A → A → Type 0
Meets none a = Unit
Meets (some s) a = a ≡ s

-- The filters of a query, each only if it is given.
abbrev pub Passes : ComplaintQueryDto → Complaint → Type 0
Passes query c =
    Meets query.status c.status × Meets query.category c.category × Meets query.priority c.priority

test_iff :
    {A : Type 0} (same : A → A → Bool)
    → ((a b : A) → (same a b ≡ true) ↔ (a ≡ b))
    → (asked : Option A) (a : A)
    → ((elim asked [ none ↦ true | some s ↦ same a s ]) ≡ true) ↔ Meets asked a
test_iff same right none a = (λ h. tt, λ h. refl)
test_iff same right (some s) a = right a s

passes_iff : (query : ComplaintQueryDto) (c : Complaint) → (passes query c ≡ true) ↔ Passes query c
unfolding passes
passes_iff query c =
    let status = test_iff same_status (λ a b. ground arith) query.status c.status in
    let category = test_iff same_category (λ a b. ground arith) query.category c.category in
    let priority = test_iff same_priority (λ a b. ground arith) query.priority c.priority in
    (
      λ h. (status.0 (ground arith), category.0 (ground arith), priority.0 (ground arith)),
      λ (s, g, p). rw (status.1 s, category.1 g, priority.1 p) refl,
    )

any_by-insert_newest :
    (q : Complaint → Bool) (c : Complaint) (cs : List Complaint)
    → any_by q (insert_newest c cs) ≡ (q c || any_by q cs)
any_by-insert_newest q c [] = refl
any_by-insert_newest q c (d ∷ cs) = ground (arith, any_by-insert_newest q c cs)

any_by-newest_first :
    (q : Complaint → Bool) (sorted cs : List Complaint)
    → any_by q (newest_first sorted cs) ≡ (any_by q sorted || any_by q cs)
any_by-newest_first q sorted [] = ground arith
any_by-newest_first q sorted (c ∷ cs) =
    let insert = any_by-insert_newest q c sorted in
    let rest = any_by-newest_first q (insert_newest c sorted) cs in ground (arith, insert, rest)

length-insert_newest :
    (c : Complaint) (cs : List Complaint) → length (insert_newest c cs) ≡ suc (length cs)
length-insert_newest c [] = refl
length-insert_newest c (d ∷ cs) = ground (arith, length-insert_newest c cs)

length-newest_first :
    (sorted cs : List Complaint) → length (newest_first sorted cs) ≡ length sorted + length cs
length-newest_first sorted [] = omega arith
length-newest_first sorted (c ∷ cs) =
    let insert = length-insert_newest c sorted in
    length-newest_first (insert_newest c sorted) cs ∙ rw insert (omega arith)

length-filter :
    (p : Complaint → Bool) (cs : List Complaint) → length (filter_by p cs) ≡ count_by p cs
length-filter p [] = refl
length-filter p (c ∷ cs) = ground (arith, length-filter p cs)

any_by-take :
    (q : Complaint → Bool) (n : ℕ) (cs : List Complaint)
    → any_by q (take n cs) ≡ true
    → any_by q cs ≡ true
any_by-take q zero cs h = absurd (ground arith)
any_by-take q (suc n) [] h = h
any_by-take q (suc n) (c ∷ cs) h = ground (arith, any_by-take q n cs)

any_by-skip :
    (q : Complaint → Bool) (n : ℕ) (cs : List Complaint)
    → any_by q (skip n cs) ≡ true
    → any_by q cs ≡ true
any_by-skip q zero cs h = h
any_by-skip q (suc n) [] h = h
any_by-skip q (suc n) (c ∷ cs) h = let rest = any_by-skip q n cs h in ground arith

take_all : (n : ℕ) (cs : List Complaint) → length cs ≤ n → take n cs ≡ cs
take_all zero [] h = refl
take_all zero (c ∷ cs) h = absurd (ground arith)
take_all (suc n) [] h = refl
take_all (suc n) (c ∷ cs) h = ap (λ ds. c ∷ ds) (take_all n cs (ground arith))

module _ (org user : Key) (role : Role) (query : ComplaintQueryDto) (db : ComplaintDb) where
  abbrev wanted : Complaint → Bool
  wanted c = is_visible db org user role c && passes query c

  abbrev sorted : List Complaint
  sorted = newest_first [] (filter_by wanted db.complaints)

  -- The complaint is among the rows before they are cut into pages.
  sorted_iff :
      (k : Key) {c : Complaint}
      → HasKeys (λ c. c.id) db.complaints
      → find_by (λ c. c.id == k) db.complaints ≡ some c
      → any_by (λ c. c.id == k) sorted ≡ wanted c
  sorted_iff k keys found =
      any_by-newest_first (λ c. c.id == k) [] (filter_by wanted db.complaints)
      ∙ any_by-filter_by wanted (λ c. c.id == k) db.complaints
      ∙ any_by-at (λ c. c.id) wanted k db.complaints keys found

  wanted_iff :
      (k : Key) {c : Complaint}
      → find_by (λ c. c.id == k) db.complaints ≡ some c
      → (wanted c ≡ true) ↔ (IsShown db org user role c × Passes query c)
  wanted_iff k {c} found =
      let same : (c.id == k) ≡ true = find_by-holds (λ c. c.id == k) db.complaints found in
      let here : find_by (λ x. x.id == c.id) db.complaints ≡ some c =
        subst (λ j. find_by (λ x. x.id == j) db.complaints ≡ some c) (sym ((==_iff c.id k).0 same))
          found in
      let shown = is_visible_iff org user role db c here in
      (
        λ h. (shown.0 (ground arith), (passes_iff query c).0 (ground arith)),
        λ (s, p). let a = shown.1 s in let b = (passes_iff query c).1 p in ground arith,
      )

-- Whatever the page, a stored complaint that the list answers with meets the query's filters, and
-- the caller may open it or supervises its author in the organization; and on a first page whose
-- limit is at least the total it answers with every such complaint, if the identifiers of
-- complaints are distinct.
pub find_all_exact :
    (org k user : Key) (role : Role) (query : ComplaintQueryDto) (db : ComplaintDb) {c : Complaint}
    → HasKeys (λ c. c.id) db.complaints
    → find_by (λ c. c.id == k) db.complaints ≡ some c
    → let answer = find_all org user role query db in
      (any_by (λ d. d.id == k) answer.items ≡ true → IsShown db org user role c × Passes query c)
      × (answer.page ≡ 1
          → answer.total ≤ answer.limit
          → IsShown db org user role c × Passes query c
          → any_by (λ d. d.id == k) answer.items ≡ true)
unfolding find_all
find_all_exact org k user role query db {c} keys found =
    let rows = sorted org user role query db in
    let here = sorted_iff org user role query db k keys found in
    let meets = wanted_iff org user role query db k found in
    let limit = get_or query.limit 20 in
    (
      λ h. meets.0 (
          sym here
          ∙ any_by-skip (λ d. d.id == k) ((get_or query.page 1 - 1) * limit) rows
              (any_by-take (λ d. d.id == k) limit _ h)),
      λ first fits both.
          let none_before : (get_or query.page 1 - 1) * limit ≡ 0 = rw first (omega arith) in
          let size : length rows ≤ limit =
            rw
              (
                length-newest_first [] (filter_by (wanted org user role query db) db.complaints),
                length-filter (wanted org user role query db) db.complaints,
              )
              (let f = fits in omega arith) in
          rw (none_before, take_all limit rows size) (here ∙ meets.1 both),
    )
