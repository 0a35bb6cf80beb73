-- ===== src/Staff/Departments.antt =====
-- `DepartmentService`. What its answers include of the users is not modelled.
use Prim.Native.String.{String}
use mathlib.Core.Option.{get_or}
use text.Mathlib.Text.{◌==◌ as text_eq}
use teamos_backend.Prelude.{
  ℕ, Bool, not, Option, none, some, List, [], ◌∷◌, ◌++◌, Key, truthy, truthy_text, same_key,
  is_some, filter_by, update_by, delete_by, count_by, any_by, ltb, map, Result, ok, bad_request,
  not_found, conflict, internal_error, throw_if, or_throw, ◌>>=◌, ◌>>◌, ◌==◌, ◌&&◌, if◌then◌else◌,
}
use teamos_backend.Directory.{
  Member, UserProfile, Department, find_member, find_department, is_active,
}
use teamos_backend.Outbox.{AuditEntry, AuditAction}
use teamos_backend.Staff.Model.{
  StaffDb, Fault, Answer, CreateDepartmentDto, UpdateDepartmentDto, department_exists,
  head_not_member, department_missing, department_has_staff, unique_name,
}

-- `findUnique({ where: { organizationId_name: { organizationId, name } } })`
abbrev pub has_name : List Department → Key → String → Bool
has_name rows org name = any_by (λ d. d.organization_id == org && text_eq d.name name) rows

-- `if (headId) await this.validateOrgMember(orgId, headId)`
abbrev pub validate_head : List Member → Key → Option Key → Result Fault (Unit {0})
validate_head members org none = ok tt
validate_head members org (some user) =
    throw_if (not (is_some (find_member members org user))) bad_request head_not_member

abbrev pub new_department : Key → Key → CreateDepartmentDto → Department
new_department new_id org dto = record {
  id = new_id;
  organization_id = org;
  name = dto.name;
  description = dto.description;
  head_id = dto.head_id;
}

unfoldable pub check_create : Key → CreateDepartmentDto → StaffDb → Result Fault (Unit {0})
check_create org dto db = do
  throw_if (has_name db.departments org dto.name) conflict department_exists
  validate_head db.members org (truthy dto.head_id)

unfoldable pub create : Key → Key → CreateDepartmentDto → StaffDb → Answer Department
unfolding check_create
create new_id org dto db = do
  check_create org dto db
  let made = new_department new_id org dto
  ok (made, record db { departments = db.departments ++ made ∷ [] })

-- An entry of `findAll`, and the answer of `findOne`.
pub record DepartmentView : Type 0 where
  pub department : Department
  pub staff_count : ℕ
  pub active_staff_count : ℕ

abbrev pub is_staff_of : Department → UserProfile → Bool
is_staff_of d p = same_key p.department_id (some d.id)

unfoldable pub view_of : StaffDb → Department → DepartmentView
view_of db d = record {
  department = d;
  staff_count = count_by (is_staff_of d) db.profiles;
  active_staff_count = count_by (λ p. is_staff_of d p && is_active p.status) db.profiles;
}

-- The order, by name, is not modelled.
unfoldable pub find_all : Key → StaffDb → List DepartmentView
unfolding view_of
find_all org db = map (view_of db) (filter_by (λ d. d.organization_id == org) db.departments)

unfoldable pub find_one : Key → Key → StaffDb → Result Fault DepartmentView
unfolding view_of
find_one org k db = do
  d ← or_throw (find_department db.departments org k) not_found department_missing
  ok (view_of db d)

-- `dto.name && dto.name !== department.name`
abbrev pub renames : Option String → Department → Option String
renames none d = none
renames (some name) d = if text_eq name d.name then none else some name

abbrev pub check_new_name : List Department → Key → Option String → Result Fault (Unit {0})
check_new_name rows org none = ok tt
check_new_name rows org (some name) = throw_if (has_name rows org name) conflict department_exists

abbrev pub patch_department : UpdateDepartmentDto → Department → Department
patch_department dto d = record d {
  name = get_or dto.name d.name;
  description = elim dto.description [ none ↦ d.description | some text ↦ some text ];
  head_id = elim dto.head_id [ none ↦ d.head_id | some user ↦ some user ];
}

-- `@@unique([organizationId, name])`: another department with the name.
abbrev pub is_taken : List Department → Key → Key → String → Bool
is_taken rows k org name =
    any_by (λ d. not (d.id == k) && (d.organization_id == org && text_eq d.name name)) rows

unfoldable pub check_update : Key → Key → UpdateDepartmentDto → StaffDb → Result Fault Department
check_update org k dto db = do
  d ← or_throw (find_department db.departments org k) not_found department_missing
  check_new_name db.departments org (renames (truthy_text dto.name) d)
  validate_head db.members org (truthy dto.head_id)
  throw_if (is_taken db.departments k org (get_or dto.name d.name)) internal_error unique_name
  ok d

-- `dto.headId && dto.headId !== department.headId && actorId`
abbrev pub head_entry : Option Key → Department → Option Key → Key → Option String → List AuditEntry
head_entry none d actor org ip = []
head_entry (some head) d none org ip = []
head_entry (some head) d (some user) org ip =
    if same_key (some head) d.head_id
    then []
    else record {
      org_id = org;
      user_id = user;
      action = AuditAction.department_head_changed;
      target_id = d.id;
      ip_address = ip;
    }
      ∷ []

unfoldable pub update :
    Key → Key → UpdateDepartmentDto → Option Key → Option String → StaffDb → Answer Department
unfolding check_update
update org k dto actor ip db = do
  d ← check_update org k dto db
  ok (
    patch_department dto d,
    record db {
      departments = update_by (λ d. d.id == k) (patch_department dto) db.departments;
      audit_log = db.audit_log ++ head_entry (truthy dto.head_id) d (truthy actor) org ip;
    },
  )

unfoldable pub check_remove : Key → Key → StaffDb → Result Fault Department
check_remove org k db = do
  d ← or_throw (find_department db.departments org k) not_found department_missing
  throw_if (ltb 0 (count_by (is_staff_of d) db.profiles)) bad_request department_has_staff
  ok d

unfoldable pub remove : Key → Key → StaffDb → Answer Department
unfolding check_remove
remove org k db = do
  d ← check_remove org k db
  ok (d, record db { departments = delete_by (λ d. d.id == k) db.departments })
