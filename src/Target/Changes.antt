-- ===== src/Target/Changes.antt =====
-- `TargetService.create`, `update` and `remove`
use Prim.Native.String.{String}
use mathlib.Core.Option.{get_or}
use teamos_backend.Prelude.{
  truthy_text, Bool, true, false, Option, none, some, List, [], ◌∷◌, ◌++◌, Key, truthy, same_key,
  is_some, update_by, delete_by, any_by, Result, ok, bad_request, forbidden, internal_error,
  or_throw, throw_if, ◌>>=◌, ◌>>◌, ◌==◌, ◌&&◌, ◌||◌, not, ltb, if◌then◌else◌,
}
use teamos_backend.Roles.{Role, supervisor, admin, acting_rank, outranks}
use teamos_backend.Directory.{UserProfile, find_member, find_profile, find_department}
use teamos_backend.Outbox.{emit, audit, AuditAction}
use teamos_backend.Task.{role_or_member}
use teamos_backend.Amounts.{Amounts}
use teamos_backend.Target.Model.{
  TargetType, company, team, individual, on_track, Target, target_created, target_updated,
  target_deleted, TargetDb, Fault, Answer, CreateTargetDto, UpdateTargetDto, company_needs_admin,
  team_needs_supervisor, individual_needs_supervisor, assignee_required, company_has_no_assignee,
  assignee_not_member, department_missing, not_your_department, foreign_key, target_missing,
  may_not_update, has_children, may_not_delete,
}
use teamos_backend.Target.Alignment.{find_target, validate_alignment}

abbrev pub is_company : TargetType → Bool
is_company company = true
is_company _ = false

abbrev pub is_team : TargetType → Bool
is_team team = true
is_team _ = false

abbrev pub is_individual : TargetType → Bool
is_individual individual = true
is_individual _ = false

abbrev pub is_supervisor : Option Role → Bool
is_supervisor (some supervisor) = true
is_supervisor _ = false

-- `profile?.departmentId !== departmentId`: a missing profile has no department.
abbrev pub department_of : Option UserProfile → Option Key
department_of none = none
department_of (some p) = p.department_id

-- The rules on the kind of target: who may create it, and whether it has an assignee.
unfoldable pub check_kind : Option Role → TargetType → Option Key → Result Fault (Unit {0})
check_kind role kind assignee = do
  throw_if (is_company kind && ltb (acting_rank role) (acting_rank (some admin))) forbidden
      company_needs_admin
  throw_if (is_team kind && ltb (acting_rank role) (acting_rank (some supervisor))) forbidden
      team_needs_supervisor
  throw_if (is_individual kind && ltb (acting_rank role) (acting_rank (some supervisor))) forbidden
      individual_needs_supervisor
  throw_if (is_individual kind && not (is_some assignee)) bad_request assignee_required
  throw_if (is_company kind && is_some assignee) bad_request company_has_no_assignee

-- The foreign key of the schema: the empty string, which no check looks at, is no target's id.
abbrev pub check_foreign_key : Option Key → Result Fault (Unit {0})
check_foreign_key parent =
    throw_if (is_some parent && not (is_some (truthy parent))) internal_error foreign_key

-- `dto.parentTargetId !== undefined && dto.parentTargetId !== target.parentTargetId`, and truthy.
abbrev pub new_parent : Option (Option Key) → Option Key → Option Key
new_parent none old = none
new_parent (some parent) old = if same_key parent old then none else truthy parent

-- `...(dto.field !== undefined && { field: dto.field || null })`
abbrev pub set_key : Option (Option Key) → Option Key → Option Key
set_key none old = old
set_key (some k) old = truthy k

abbrev set_text : Option (Option String) → Option String → Option String
set_text none old = old
set_text (some s) old = truthy_text s

module _ {V : Type 0} where
  abbrev check_assignee : TargetDb V → Key → Option Key → Result Fault (Unit {0})
  check_assignee db org none = ok tt
  check_assignee db org (some user) =
      throw_if (not (is_some (find_member db.members org user))) bad_request assignee_not_member

  -- The department exists, and is the caller's own if the caller is a supervisor.
  abbrev check_department :
      TargetDb V → Key → Key → Option Role → Option Key → Result Fault (Unit {0})
  check_department db org user role none = ok tt
  check_department db org user role (some d) = do
    throw_if (not (is_some (find_department db.departments org d))) bad_request department_missing
    throw_if
        (is_supervisor role
          && not (same_key (department_of (find_profile db.profiles org user)) (some d)))
        forbidden not_your_department

  abbrev pub check_parent :
      TargetDb V → Key → TargetType → Option Key → Option Key → Result Fault (Unit {0})
  check_parent db org kind exclude none = ok tt
  check_parent db org kind exclude (some parent) =
      validate_alignment db.targets org parent kind exclude

  unfoldable pub check_create :
      Key → Key → Option Role → CreateTargetDto V → TargetDb V → Result Fault (Unit {0})
  unfolding check_kind
  check_create org user role dto db = do
    check_kind role dto.kind (truthy dto.assigned_to_id)
    check_assignee db org (truthy dto.assigned_to_id)
    check_department db org user role (truthy dto.department_id)
    check_parent db org dto.kind none (truthy dto.parent_target_id)
    check_foreign_key dto.parent_target_id

  unfoldable pub new_target : Amounts V → Key → Key → Key → CreateTargetDto V → Target V
  new_target num new_id org user dto = record {
    id = new_id;
    organization_id = org;
    title = dto.title;
    description = dto.description;
    kind = dto.kind;
    parent_target_id = dto.parent_target_id;
    target_value = dto.target_value;
    current_value = num.nil;
    status = on_track;
    period = dto.period;
    deadline = dto.deadline;
    assigned_to_id = dto.assigned_to_id;
    created_by_id = user;
    department_id = dto.department_id;
  }

  unfoldable pub create :
      Amounts V
      → Key
      → Key
      → Key
      → Option Role
      → CreateTargetDto V
      → TargetDb V
      → Answer V (Target V)
  unfolding new_target
  create num new_id org user role dto db = do
    check_create org user role dto db
    let target = new_target num new_id org user dto
    ok (
      target,
      record db {
        targets = db.targets ++ target ∷ [];
        outbox = db.outbox ++ emit org (target_created target) ∷ [];
      },
    )

  -- Who may change a target: its creator, or a caller who outranks the creator.
  abbrev pub may_change : TargetDb V → Key → Key → Option Role → Target V → Bool
  may_change db org user role t =
      t.created_by_id == user
      || outranks role (some (role_or_member (find_member db.members org t.created_by_id)))

  unfoldable pub check_update :
      Key → Key → Key → Option Role → UpdateTargetDto V → TargetDb V → Result Fault (Target V)
  check_update org k user role dto db = do
    target ← or_throw (find_target db.targets org k) bad_request target_missing
    throw_if (not (may_change db org user role target)) forbidden may_not_update
    check_parent db org target.kind (some k)
        (new_parent dto.parent_target_id target.parent_target_id)
    ok target

  unfoldable pub patch : UpdateTargetDto V → Target V → Target V
  patch dto t = record t {
    title = get_or dto.title t.title;
    description = get_or dto.description t.description;
    status = get_or dto.status t.status;
    deadline = get_or dto.deadline t.deadline;
    target_value = get_or dto.target_value t.target_value;
    department_id = set_key dto.department_id t.department_id;
    assigned_to_id = set_key dto.assigned_to_id t.assigned_to_id;
    parent_target_id = set_key dto.parent_target_id t.parent_target_id;
    period = set_text dto.period t.period;
  }

  unfoldable pub update :
      Key → Key → Key → Option Role → UpdateTargetDto V → TargetDb V → Answer V (Target V)
  unfolding patch
  update org k user role dto db = do
    target ← check_update org k user role dto db
    ok (
      patch dto target,
      record db {
        targets = update_by (λ t. t.id == k) (patch dto) db.targets;
        outbox = db.outbox ++ emit org (target_updated (patch dto target)) ∷ [];
      },
    )

  -- `_count: { children: true }`
  abbrev pub has_child : List (Target V) → Key → Bool
  has_child targets k = any_by (λ t. same_key t.parent_target_id (some k)) targets

  unfoldable pub check_remove : Key → Key → Key → Option Role → TargetDb V → Result Fault (Target V)
  check_remove org k user role db = do
    target ← or_throw (find_target db.targets org k) bad_request target_missing
    throw_if (has_child db.targets k) bad_request has_children
    throw_if (not (may_change db org user role target)) forbidden may_not_delete
    ok target

  -- The schema deletes a target's entries with it (`onDelete: Cascade`).
  unfoldable pub remove :
      Key → Key → Key → Option Role → Option String → TargetDb V → Answer V (Unit {0})
  remove org k user role ip db = do
    check_remove org k user role db
    ok (
      tt,
      record db {
        targets = delete_by (λ t. t.id == k) db.targets;
        entries = delete_by (λ e. e.target_id == k) db.entries;
        outbox =
            db.outbox
            ++ audit (record {
              org_id = org;
              user_id = user;
              action = AuditAction.target_deleted;
              target_id = k;
              ip_address = ip;
            })
              ∷ emit org (target_deleted k)
              ∷ [];
      },
    )
