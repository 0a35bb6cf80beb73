-- ===== src/Recognition/Pages.antt =====
-- The pages of a feed.
use teamos_backend.Prelude.{
  ℕ, zero, suc, ◌+◌, ◌-◌, ◌*◌, ◌/◌, ◌≤◌, ◌<◌, ◌≡◌, ◌∙◌, refl, sym, ap, List, [], ◌∷◌, ◌++◌, Key,
  arith, length, filter_by, count_by, Bool, true, false, ◌==◌, ◌&&◌, ◌||◌,
}
use teamos_backend.Rows.{HasKeys}
use teamos_backend.Roles.{Role, admin, owner}
use teamos_backend.Recognition.Model.{Recognition, RecognitionDb, RecognitionQueryDto}
use teamos_backend.Recognition.Sorted.{
  IsNewestFirst, length-newest_first, count_by-newest_first, newest_first-IsNewestFirst,
  newest_first-any_ties,
}
use teamos_backend.Recognition.Service.{
  TieOrder, newest_first, skip_rows, take_rows, page_of, is_shown, get_feed,
}

take_none : (n : ℕ) → take_rows n [] ≡ []
take_none zero = refl
take_none (suc n) = refl

take-split :
    (n m : ℕ) (rs : List Recognition)
    → take_rows n rs ++ take_rows m (skip_rows n rs) ≡ take_rows (n + m) rs
take-split zero m rs = let e : 0 + m ≡ m = omega arith in rw e
take-split (suc n) m [] = take_none m ∙ sym (take_none (suc n + m))
take-split (suc n) m (r ∷ rs) =
    let e : suc n + m ≡ suc (n + m) = omega arith in rw e (ap (λ xs. r ∷ xs) (take-split n m rs))

take_all : (n : ℕ) (rs : List Recognition) → length rs ≤ n → take_rows n rs ≡ rs
take_all zero [] h = refl
take_all zero (r ∷ rs) h = absurd (ground arith)
take_all (suc n) [] h = refl
take_all (suc n) (r ∷ rs) h = ap (λ xs. r ∷ xs) (take_all n rs (ground arith))

-- The first `n` pages, one after the other, each answered with an order of ties of its own.
unfoldable pub first_pages :
    (ℕ → TieOrder) → Key → Role → RecognitionQueryDto → RecognitionDb → ℕ → List Recognition
first_pages ties org role query db zero = []
first_pages ties org role query db (suc n) =
    first_pages ties org role query db n
    ++ (get_feed (ties n) org role (record query { page = suc n }) db).items

ceiling : (total limit : ℕ) → 0 < limit → total ≤ ((total + (limit - 1)) / limit) * limit
ceiling total limit pos = grind arith

get_feed-items :
    (ties : TieOrder) (org : Key) (role : Role) (query : RecognitionQueryDto) (db : RecognitionDb)
    (n : ℕ)
    → (get_feed ties org role (record query { page = suc n }) db).items
      ≡ take_rows query.limit (
          skip_rows
            (n * query.limit)
            (newest_first ties (filter_by (is_shown org role) db.recognitions)))
unfolding get_feed page_of
get_feed-items ties org role query db n = let e : suc n - 1 ≡ n = omega arith in rw e

module _ (ties : ℕ → TieOrder) (org : Key) (role : Role) (query : RecognitionQueryDto)
    (db : RecognitionDb)
    (apart : HasKeys (λ r. r.created_at) (filter_by (is_shown org role) db.recognitions)) where
  abbrev sorted : List Recognition
  sorted = newest_first (ties 0) (filter_by (is_shown org role) db.recognitions)

  first_pages-take :
      (n : ℕ) → first_pages ties org role query db n ≡ take_rows (n * query.limit) sorted
  unfolding first_pages
  first_pages-take zero = let e : 0 * query.limit ≡ 0 = omega arith in rw e
  first_pages-take (suc n) =
      let e : suc n * query.limit ≡ n * query.limit + query.limit = grind arith in
      rw (
        e,
        first_pages-take n,
        get_feed-items (ties n) org role query db n,
        newest_first-any_ties (ties n) (ties 0) (filter_by (is_shown org role) db.recognitions)
            apart,
        take-split (n * query.limit) query.limit sorted,
      )

  first_pages-sorted :
      0 < query.limit
      → first_pages ties org role query db (get_feed (ties 0) org role query db).total_pages
        ≡ sorted
  unfolding get_feed page_of
  first_pages-sorted pos =
      let rows = filter_by (is_shown org role) db.recognitions in
      let enough = ceiling (length rows) query.limit pos in
      let size = length-newest_first (ties 0) rows in
      first_pages-take ((length rows + (query.limit - 1)) / query.limit)
      ∙ take_all _ sorted (rw size enough)

-- Admins and owners are shown what is not public.
abbrev pub sees_private : Role → Bool
sees_private admin = true
sees_private owner = true
sees_private _ = false

shown_count :
    (org : Key) (role : Role) (q : Recognition → Bool) (rs : List Recognition)
    → count_by q (filter_by (is_shown org role) rs)
      ≡ count_by (λ r. r.organization_id == org && ((sees_private role || r.is_public) && q r)) rs
shown_count org role q [] = refl
shown_count org role q (r ∷ rs) = ground (arith, shown_count org role q rs)

-- At a positive limit, the pages of a feed, as many as it says there are, hold together each
-- recognition of the organization that is public, or any for an admin or owner, as often as the
-- table does and no other, and each was made later than all that follow it, if no two of those
-- that are shown were made at one time. Each page has the ties in an order of its own.
pub first_pages-IsNewestFirst :
    (ties : ℕ → TieOrder) (org : Key) (role : Role) (query : RecognitionQueryDto)
    (db : RecognitionDb) (q : Recognition → Bool)
    → 0 < query.limit
    → HasKeys (λ r. r.created_at) (filter_by (is_shown org role) db.recognitions)
    → let pages =
        first_pages ties org role query db (get_feed (ties 0) org role query db).total_pages in
      IsNewestFirst pages
      × (count_by q pages
          ≡ count_by
              (λ r. r.organization_id == org && ((sees_private role || r.is_public) && q r))
              db.recognitions)
first_pages-IsNewestFirst ties org role query db q pos apart =
    let all = first_pages-sorted ties org role query db apart pos in
    let rows = filter_by (is_shown org role) db.recognitions in
    rw all (
      newest_first-IsNewestFirst (ties 0) rows apart,
      count_by-newest_first q (ties 0) rows ∙ shown_count org role q db.recognitions,
    )
