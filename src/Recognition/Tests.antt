-- ===== src/Recognition/Tests.antt =====
-- A run of the feed of recognitions, and its theorem at a small store.
use teamos_backend.Prelude.{
  ℕ, zero, suc, ltb, map, ◌==◌, ◌&&◌, ◌||◌, length, count_by, All, some, refl, ◌≡◌, Bool, true,
  false, none, [], ◌∷◌, Key, arith,
}
use teamos_backend.Directory.{active}
use teamos_backend.Roles.{member}
use teamos_backend.Recognition.Model.{
  Recognition, RecognitionDb, RecognitionQueryDto, CreateRecognitionDto, teamwork, other,
}
use teamos_backend.Recognition.Service.{
  TieOrder, get_feed, page_of, newest_first, insert_newest, handle_recognition, creates, create,
  check_create,
}
use teamos_backend.Recognition.Rules.{IsProper, handle_recognition-IsProper}
use teamos_backend.Recognition.Sorted.{IsNewestFirst}
use teamos_backend.Recognition.Pages.{sees_private, first_pages, first_pages-IsNewestFirst}

abbrev thanks : Key → ℕ → Bool → Recognition
thanks k time shown = record {
  id = k;
  organization_id = 1;
  from_user_id = 12;
  to_user_id = 13;
  message = "Thanks";
  category = teamwork;
  custom_category = none;
  is_public = shown;
  created_at = time;
}

abbrev db : RecognitionDb
db = record {
  profiles =
      record {
        user_id = 12;
        organization_id = 1;
        department_id = none;
        supervisor_id = none;
        status = active;
      }
      ∷ [];
  recognitions = thanks 1 10 true ∷ thanks 2 30 true ∷ thanks 3 20 false ∷ thanks 4 40 true ∷ [];
}

abbrev query : RecognitionQueryDto
query = record { kind = none; page = 1; limit = 2 }

abbrev thanks_back : CreateRecognitionDto
thanks_back = record {
  to_user_id = 12;
  message = "And to you";
  category = other;
  custom_category = some "Wit";
  is_public = none;
}

-- The request is admitted.
one_more : length (handle_recognition (creates 50 5 1 13 member thanks_back) db).recognitions ≡ 5
unfolding handle_recognition create check_create
one_more = refl

thanks-IsProper : (k : Key) (time : ℕ) (shown : Bool) → IsProper (thanks k time shown)
thanks-IsProper k time shown = record { of_another = refl; category = refl }

db-IsProper : All IsProper db.recognitions
db-IsProper = (
  thanks-IsProper 1 10 true,
  (thanks-IsProper 2 30 true, (thanks-IsProper 3 20 false, (thanks-IsProper 4 40 true, tt))),
)

-- The first page puts the later row of a tie first, the second the earlier one.
abbrev ties : ℕ → TieOrder
ties zero r x = ltb x.id r.id
ties (suc n) r x = ltb r.id x.id

pages_of_two : map (λ r. r.id) (first_pages ties 1 member query db 2) ≡ 4 ∷ 2 ∷ 1 ∷ []
unfolding first_pages get_feed page_of newest_first insert_newest
pages_of_two = refl

first_pages-IsNewestFirst_example :
    let pages =
      first_pages ties 1 member query db (get_feed (ties 0) 1 member query db).total_pages in
    IsNewestFirst pages
    × (count_by (λ r. r.from_user_id == 12) pages
        ≡ count_by
            (λ r.
              r.organization_id == 1
              && ((sees_private member || r.is_public) && r.from_user_id == 12))
            db.recognitions)
first_pages-IsNewestFirst_example =
    first_pages-IsNewestFirst ties 1 member query db (λ r. r.from_user_id == 12) (omega arith)
      (omega arith)

handle_recognition-IsProper_example :
    All IsProper (handle_recognition (creates 50 5 1 13 member thanks_back) db).recognitions
handle_recognition-IsProper_example =
    handle_recognition-IsProper (creates 50 5 1 13 member thanks_back) db db-IsProper
