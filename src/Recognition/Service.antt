-- ===== src/Recognition/Service.antt =====
-- The methods of `RecognitionService`
use mathlib.Core.Option.{get_or}
use teamos_backend.Prelude.{
  ℕ, zero, suc, ◌+◌, ◌-◌, ◌*◌, ◌/◌, Bool, true, not, Option, none, some, List, [], ◌∷◌, ◌++◌, Key,
  truthy_text, same_key, is_some, find_by, filter_by, delete_by, length, leb, ltb, Result, ok,
  bad_request, forbidden, not_found, throw_if, or_throw, store_after, ◌>>=◌, ◌>>◌, ◌==◌, ◌&&◌, ◌||◌,
  if◌then◌else◌,
}
use teamos_backend.Roles.{Role, admin, supervisor, same_role, rank}
use teamos_backend.Directory.{UserProfile, find_profile}
use teamos_backend.Recognition.Model.{
  Recognition, RecognitionDb, Fault, Answer, CreateRecognitionDto, RecognitionQueryDto, Direction,
  sent, received, is_other, recognizes_self, recipient_missing, not_in_team,
  custom_category_required, recognition_missing, not_sender,
}

abbrev pub new_recognition : ℕ → Key → Key → Key → CreateRecognitionDto → Recognition
new_recognition now new_id org user dto = record {
  id = new_id;
  organization_id = org;
  from_user_id = user;
  to_user_id = dto.to_user_id;
  message = dto.message;
  category = dto.category;
  custom_category = if is_other dto.category then dto.custom_category else none;
  is_public = get_or dto.is_public true;
  created_at = now;
}

unfoldable pub check_create :
    Key → Key → Role → CreateRecognitionDto → RecognitionDb → Result Fault UserProfile
check_create org user role dto db = do
  throw_if (user == dto.to_user_id) bad_request recognizes_self
  profile ← or_throw (find_profile db.profiles org dto.to_user_id) bad_request recipient_missing
  throw_if (same_role role supervisor && not (same_key profile.supervisor_id (some user))) forbidden
      not_in_team
  throw_if (is_other dto.category && not (is_some (truthy_text dto.custom_category))) bad_request
      custom_category_required
  ok profile

unfoldable pub create :
    ℕ → Key → Key → Key → Role → CreateRecognitionDto → RecognitionDb → Answer Recognition
unfolding check_create
create now new_id org user role dto db = do
  check_create org user role dto db
  let made = new_recognition now new_id org user dto
  ok (made, record db { recognitions = db.recognitions ++ made ∷ [] })

-- Which of two rows that were made at one time a query puts first: the database's choice, which
-- may be another one in each query.
abbrev pub TieOrder : Type 0
TieOrder = Recognition → Recognition → Bool

-- `orderBy: { createdAt: 'desc' }`
unfoldable pub insert_newest : TieOrder → Recognition → List Recognition → List Recognition
insert_newest ties r [] = r ∷ []
insert_newest ties r (x ∷ xs) =
    let rest = insert_newest ties r xs in
    if ltb x.created_at r.created_at || (x.created_at == r.created_at && ties r x)
    then r ∷ x ∷ xs
    else x ∷ rest

unfoldable pub newest_first : TieOrder → List Recognition → List Recognition
unfolding insert_newest
newest_first ties [] = []
newest_first ties (r ∷ rs) = insert_newest ties r (newest_first ties rs)

-- `skip` and `take`
abbrev pub skip_rows : ℕ → List Recognition → List Recognition
skip_rows zero rs = rs
skip_rows (suc n) [] = []
skip_rows (suc n) (r ∷ rs) = skip_rows n rs

abbrev pub take_rows : ℕ → List Recognition → List Recognition
take_rows zero rs = []
take_rows (suc n) [] = []
take_rows (suc n) (r ∷ rs) = r ∷ take_rows n rs

pub record Page : Type 0 where
  pub items : List Recognition
  pub page : ℕ
  pub limit : ℕ
  pub total : ℕ
  pub total_pages : ℕ

-- `totalPages` is `Math.ceil(total / limit)`, at the positive limits that the query lets pass.
unfoldable pub page_of : TieOrder → List Recognition → RecognitionQueryDto → Page
unfolding newest_first
page_of ties rows query = record {
  items =
      take_rows query.limit (skip_rows ((query.page - 1) * query.limit) (newest_first ties rows));
  page = query.page;
  limit = query.limit;
  total = length rows;
  total_pages = (length rows + (query.limit - 1)) / query.limit;
}

-- `where` of `getFeed`
abbrev pub is_shown : Key → Role → Recognition → Bool
is_shown org role r = r.organization_id == org && (leb (rank admin) (rank role) || r.is_public)

unfoldable pub get_feed : TieOrder → Key → Role → RecognitionQueryDto → RecognitionDb → Page
unfolding page_of
get_feed ties org role query db = page_of ties (filter_by (is_shown org role) db.recognitions) query

-- `where` of `getMyRecognitions`
abbrev pub is_mine : Key → Key → Option Direction → Recognition → Bool
is_mine org user (some sent) r = r.organization_id == org && r.from_user_id == user
is_mine org user (some received) r = r.organization_id == org && r.to_user_id == user
is_mine org user none r =
    r.organization_id == org && (r.from_user_id == user || r.to_user_id == user)

unfoldable pub get_my_recognitions :
    TieOrder → Key → Key → RecognitionQueryDto → RecognitionDb → Page
unfolding page_of
get_my_recognitions ties org user query db =
    page_of ties (filter_by (is_mine org user query.kind) db.recognitions) query

unfoldable pub check_delete : Key → Key → Key → RecognitionDb → Result Fault Recognition
check_delete org k user db = do
  r ←
      or_throw (find_by (λ r. r.id == k && r.organization_id == org) db.recognitions) not_found
        recognition_missing
  throw_if (not (r.from_user_id == user)) forbidden not_sender
  ok r

unfoldable pub delete : Key → Key → Key → RecognitionDb → Answer Bool
unfolding check_delete
delete org k user db = do
  check_delete org k user db
  ok (
    true,
    record db {
      recognitions = delete_by (λ r. r.id == k && r.organization_id == org) db.recognitions;
    },
  )

-- The requests that write, and the store that each leaves.
pub data RecognitionRequest : Type 0 where
  creates :
      (now : ℕ) (new_id org user : Key) (role : Role) (dto : CreateRecognitionDto)
      → RecognitionRequest
  deletes : (org k user : Key) → RecognitionRequest

unfoldable pub handle_recognition : RecognitionRequest → RecognitionDb → RecognitionDb
unfolding create delete
handle_recognition (creates now new_id org user role dto) db =
    store_after db (create now new_id org user role dto db)
handle_recognition (deletes org k user) db = store_after db (delete org k user db)
