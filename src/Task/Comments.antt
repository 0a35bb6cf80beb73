-- ===== src/Task/Comments.antt =====
-- `TaskService.addComment`, `getComments`, `updateComment`, `removeComment`, `addAttachment` and
-- `removeAttachment`
use Prim.Native.String.{String}
use text.Mathlib.Text.{◌==◌ as text_eq}
use teamos_backend.Prelude.{
  ℕ, zero, suc, length, contains, Bool, false, Option, none, some, List, [], ◌∷◌, ◌++◌, Key, truthy,
  same_key, is_some, find_by, filter_by, update_by, delete_by, map, Result, ok, bad_request,
  forbidden, not_found, or_throw, throw_if, ◌>>=◌, ◌>>◌, ◌==◌, ◌&&◌, not,
}
use teamos_backend.Roles.{Role}
use teamos_backend.Outbox.{emit, delete_file}
use teamos_backend.Task.Model.{
  TaskComment, TaskAttachment, TaskDb, comment_updated_pending, comment_deleted, Answer, Fault,
  may_not_delete, parent_comment_missing, comment_missing, same_content, not_your_comment,
  attachment_missing,
}
use teamos_backend.Task.Lookup.{get_task_or_throw, may_delete_of}

abbrev find_comment : TaskDb → Key → Key → Option TaskComment
find_comment db task_id id = find_by (λ c. c.task_id == task_id && c.id == id) db.comments

abbrev check_parent : TaskDb → Key → Option Key → Result Fault (Unit {0})
check_parent db task_id none = ok tt
check_parent db task_id (some parent) =
    throw_if (not (is_some (find_comment db task_id parent))) not_found parent_comment_missing

unfoldable pub add_comment :
    Key → Key → Key → String → Option Key → Key → TaskDb → Answer TaskComment
add_comment new_id org task_id content parent user db = do
  get_task_or_throw db org task_id
  check_parent db task_id (truthy parent)
  let comment : TaskComment = record {
    id = new_id;
    task_id = task_id;
    user_id = user;
    content = content;
    parent_comment_id = parent;
  }
  ok (comment, record db { comments = db.comments ++ comment ∷ [] })

-- A comment with its replies (`include: { replies }`); the authors are joined in from `User`.
unfoldable pub get_comments :
    Key → Key → TaskDb → Result Fault (List (TaskComment × List TaskComment))
get_comments org task_id db = do
  get_task_or_throw db org task_id
  ok (
      map (λ c. (c, filter_by (λ r. same_key r.parent_comment_id (some c.id)) db.comments))
        (filter_by (λ c. c.task_id == task_id) db.comments))

abbrev set_content : String → TaskComment → TaskComment
set_content content c = record c { content = content }

unfoldable pub update_comment : Key → Key → Key → Key → String → TaskDb → Answer TaskComment
update_comment org task_id id user content db = do
  get_task_or_throw db org task_id
  comment ← or_throw (find_comment db task_id id) not_found comment_missing
  throw_if (text_eq content comment.content) bad_request same_content
  throw_if (not (comment.user_id == user)) forbidden not_your_comment
  ok (
    set_content content comment,
    record db {
      comments =
          update_by (λ c. c.task_id == task_id && c.id == id) (set_content content) db.comments;
      outbox = db.outbox ++ emit org comment_updated_pending ∷ [];
    },
  )

-- The schema deletes the replies with their comment (`onDelete: Cascade`), and theirs in turn.
abbrev is_reply_to : List Key → TaskComment → Bool
is_reply_to ids c = elim c.parent_comment_id [ none ↦ false | some p ↦ contains ids p ]

unfoldable pub reply_ids : ℕ → List TaskComment → List Key → List Key
reply_ids zero comments ids = ids
reply_ids (suc fuel) comments ids =
    reply_ids fuel comments (ids ++ map (λ c. c.id) (filter_by (is_reply_to ids) comments))

unfoldable pub cascade : List TaskComment → Key → List TaskComment
unfolding reply_ids
cascade comments id =
    delete_by (λ c. contains (reply_ids (length comments) comments (id ∷ [])) c.id) comments

unfoldable pub remove_comment : Key → Key → Key → Key → Option Role → TaskDb → Answer (Unit {0})
unfolding cascade
remove_comment org task_id id user role db = do
  get_task_or_throw db org task_id
  comment ← or_throw (find_comment db task_id id) not_found comment_missing
  throw_if (not (may_delete_of db org comment.user_id user role)) forbidden may_not_delete
  ok (
    tt,
    record db {
      comments = cascade db.comments id;
      outbox = db.outbox ++ emit org (comment_deleted id) ∷ [];
    },
  )

-- What `UploadService.uploadTaskAttachment` answers with.
pub record Uploaded : Type 0 where
  pub url : String
  pub file_name : String
  pub file_size : ℕ

unfoldable pub add_attachment : Key → Key → Key → Key → Uploaded → TaskDb → Answer TaskAttachment
add_attachment new_id org task_id user uploaded db = do
  get_task_or_throw db org task_id
  let attachment : TaskAttachment = record {
    id = new_id;
    task_id = task_id;
    file_url = uploaded.url;
    file_name = uploaded.file_name;
    file_size = uploaded.file_size;
    uploaded_by_id = user;
  }
  ok (attachment, record db { attachments = db.attachments ++ attachment ∷ [] })

unfoldable pub remove_attachment : Key → Key → Key → Key → Option Role → TaskDb → Answer (Unit {0})
remove_attachment org task_id id user role db = do
  get_task_or_throw db org task_id
  attachment ←
      or_throw (find_by (λ a. a.task_id == task_id && a.id == id) db.attachments) not_found
        attachment_missing
  throw_if (not (may_delete_of db org attachment.uploaded_by_id user role)) forbidden may_not_delete
  ok (
    tt,
    record db {
      attachments = delete_by (λ a. a.task_id == task_id && a.id == id) db.attachments;
      outbox = db.outbox ++ delete_file attachment.file_url ∷ [];
    },
  )
