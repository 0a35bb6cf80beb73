-- ===== src/Recognition/Model.antt =====
-- The rows that `RecognitionService` keeps (prisma/schema.prisma) and what its requests carry
-- (src/modules/recognition/dto).
use Prim.Native.String.{String}
use teamos_backend.Prelude.{ℕ, Bool, true, false, Option, List, Key, Result}
use teamos_backend.Directory.{UserProfile}

pub data RecognitionCategory : Type 0 where
  teamwork innovation leadership customer_focus going_above_and_beyond other : RecognitionCategory

pub record Recognition : Type 0 where
  pub id : Key
  pub organization_id : Key
  pub from_user_id : Key
  pub to_user_id : Key
  pub message : String
  pub category : RecognitionCategory
  pub custom_category : Option String
  pub is_public : Bool
  pub created_at : ℕ

pub record RecognitionDb : Type 0 where
  pub profiles : List UserProfile
  pub recognitions : List Recognition

-- The messages of the exceptions that the service throws.
pub data Fault : Type 0 where
  recognizes_self recipient_missing not_in_team custom_category_required recognition_missing
        not_sender :
      Fault

abbrev pub Answer : Type 0 → Type 0
Answer A = Result Fault (A × RecognitionDb)

pub record CreateRecognitionDto : Type 0 where
  pub to_user_id : Key
  pub message : String
  pub category : RecognitionCategory
  pub custom_category : Option String
  pub is_public : Option Bool

-- `'sent'` and `'received'`; the `type` is `none` for any other word.
pub data Direction : Type 0 where
  sent received : Direction

pub record RecognitionQueryDto : Type 0 where
  pub kind : Option Direction
  pub page : ℕ
  pub limit : ℕ

-- `category === RecognitionCategory.OTHER`
abbrev pub is_other : RecognitionCategory → Bool
is_other other = true
is_other _ = false
