-- ===== src/Recognition/Rules.antt =====
-- What holds of every recognition.
use Prim.Native.String.{String}
use teamos_backend.Prelude.{
  ◌≡◌, inl, inr, false, not, Bool-cases, Option, none, Key, arith, All, is_some, truthy_text, ok,
  store_after-keeps, ◌==◌, ◌&&◌, if◌then◌else◌,
}
use teamos_backend.Rows.{All-append, All-filter_by}
use teamos_backend.Roles.{Role}
use teamos_backend.Directory.{UserProfile}
use teamos_backend.Recognition.Model.{
  Recognition, RecognitionDb, CreateRecognitionDto, RecognitionCategory, is_other,
}
use teamos_backend.Recognition.Service.{
  new_recognition, check_create, create, check_delete, delete, RecognitionRequest, creates, deletes,
  handle_recognition,
}

-- Nobody recognizes themselves, and a category of one's own is kept exactly for `OTHER`.
pub record IsProper (r : Recognition) : Type 0 where
  pub of_another : (r.from_user_id == r.to_user_id) ≡ false
  pub category : is_some (truthy_text r.custom_category) ≡ is_other r.category

check_create-facts :
    (org user : Key) (role : Role) (dto : CreateRecognitionDto) (db : RecognitionDb)
    (p : UserProfile)
    → check_create org user role dto db ≡ ok p
    → ((user == dto.to_user_id) ≡ false)
      × ((is_other dto.category && not (is_some (truthy_text dto.custom_category))) ≡ false)
unfolding check_create
check_create-facts org user role dto db p h = (ground arith, ground arith)

kept_category :
    (c : RecognitionCategory) (text : Option String)
    → (is_other c && not (is_some (truthy_text text))) ≡ false
    → is_some (truthy_text (if is_other c then text else none)) ≡ is_other c
kept_category c text h = elim (Bool-cases (is_other c)) [
  | inl e ↦ rw e (ground arith)
  | inr e ↦ rw e
]

-- Whatever a request asks for, after it nobody has recognized themselves, and a recognition has a
-- category of its own exactly if its category is `OTHER`, if that was so before.
pub handle_recognition-IsProper :
    (q : RecognitionRequest) (db : RecognitionDb)
    → All IsProper db.recognitions
    → All IsProper (handle_recognition q db).recognitions
unfolding handle_recognition create delete
handle_recognition-IsProper (creates now new_id org user role dto) db proper =
    store_after-keeps (λ d. All IsProper d.recognitions) db (check_create org user role dto db) _
      proper
      (λ p h.
        let (another, asked) = check_create-facts org user role dto db p h in
        All-append IsProper db.recognitions (new_recognition now new_id org user dto) proper
          (record {
            of_another = another;
            category = kept_category dto.category dto.custom_category asked;
          }))
handle_recognition-IsProper (deletes org k user) db proper =
    store_after-keeps (λ d. All IsProper d.recognitions) db (check_delete org k user db) _ proper
      (λ r h. All-filter_by IsProper _ db.recognitions proper)
