-- ===== src/Staff/Records.antt =====
-- What holds of departments and staff at all times.
use Prim.Native.String.{String}
use mathlib.Core.Option.{get_or}
use teamos_backend.Prelude.{
  ◌≡◌, ◌≢◌, ◌∙◌, refl, ap, inl, inr, Bool, true, false, Bool-cases, Option, some, [], ◌∷◌, ◌++◌,
  Key, arith, All, update_by, delete_by, count_by, is_some, ok, store_after-keeps, ◌==◌,
}
use teamos_backend.Rows.{
  HasKeys, HasKeys-append, HasKeys-update_by, HasKeys-delete_by, only-owned, All-map, All-map2,
  All-update_by, All-append,
}
use teamos_backend.Directory.{Department, find_department, find_profile}
use teamos_backend.Staff.Model.{
  StaffDb, CreateDepartmentDto, UpdateDepartmentDto, UpdateProfileDto, ReassignTeamDto,
}
use teamos_backend.Staff.Departments.{
  has_name, is_taken, is_staff_of, new_department, patch_department, check_create, create,
  check_update, update, check_remove, remove,
}
use teamos_backend.Staff.Users.{
  check_profile, update_profile, check_reassign, reassign_team, patch_profile, new_profile,
  is_profile, is_reassigned, set_supervisor,
}
use teamos_backend.Staff.Service.{
  StaffRequest, creates, updates, removes, updates_profile, reassigns, handle_staff,
}
use teamos_backend.Staff.Names.{AreNamed, Renames, add-AreNamed, delete-AreNamed, rename-AreNamed}
use teamos_backend.Staff.Placed.{
  is_placed, IsPlaced, find_department-add, find_department-patch, placed_still, department-org,
  no_staff, still_placed, given-placed,
}

-- The departments have ids and names of their own, and every profile's department is a department
-- of the profile's organization.
pub record AreStaff (db : StaffDb) : Type 0 where
  pub keys : HasKeys (λ d. d.id) db.departments
  pub names : AreNamed db.departments
  pub placed : All (IsPlaced db.departments) db.profiles

-- A new department has an id of its own.
abbrev pub IsNewDepartment : StaffRequest → StaffDb → Type 0
IsNewDepartment (creates new_id org dto) db = All (λ d. d.id ≢ new_id) db.departments
IsNewDepartment _ db = Unit

create-AreStaff :
    (new_id org : Key) (dto : CreateDepartmentDto) (db : StaffDb)
    → All (λ d. d.id ≢ new_id) db.departments
    → AreStaff db
    → AreStaff (handle_staff (creates new_id org dto) db)
unfolding handle_staff create
create-AreStaff new_id org dto db fresh right =
    store_after-keeps AreStaff db (check_create org dto db) _ right (λ _ h.
      let made = new_department new_id org dto in
      let free : has_name db.departments org dto.name ≡ false =
        unfold check_create in ground arith in
      record {
        keys = HasKeys-append (λ d. d.id) db.departments made right.keys fresh;
        names = add-AreNamed db.departments made free right.names;
        placed =
            placed_still db.departments (db.departments ++ made ∷ []) db.profiles
              (λ o k. find_department-add db.departments made o k) right.placed;
      })

check_update-facts :
    (org k : Key) (dto : UpdateDepartmentDto) (db : StaffDb) (d : Department)
    → check_update org k dto db ≡ ok d
    → (find_department db.departments org k ≡ some d)
      × (is_taken db.departments k org (get_or dto.name d.name) ≡ false)
unfolding check_update
check_update-facts org k dto db d h = ground arith

update-AreStaff :
    (org k : Key) (dto : UpdateDepartmentDto) (actor : Option Key) (ip : Option String)
    (db : StaffDb)
    → AreStaff db
    → AreStaff (handle_staff (updates org k dto actor ip) db)
unfolding handle_staff update
update-AreStaff org k dto actor ip db right =
    store_after-keeps AreStaff db (check_update org k dto db) _ right (λ d h.
      let (found, free) = check_update-facts org k dto db d h in
      let mine = department-org org k db.departments d found in
      let written =
        only-owned (λ d. d.id) (λ d. d.organization_id) k org db.departments right.keys found in
      let ds = db.departments in
      let same : Renames k org (get_or dto.name d.name) (patch_department dto) = record {
        same_id = λ x. refl;
        same_org = λ x. refl;
      } in
      record {
        keys =
            HasKeys-update_by (λ d. d.id) (λ d. d.id == k) (patch_department dto) ds (λ x. refl)
              right.keys;
        names =
            rename-AreNamed k org (get_or dto.name d.name) (patch_department dto) same ds right.keys
              (All-map _ _ ds
                (λ x h e. (
                  ap (λ y. get_or dto.name y.name) (h e),
                  ap (λ y. y.organization_id) (h e) ∙ mine.1,
                ))
                written)
              free right.names;
        placed =
            placed_still ds (update_by (λ d. d.id == k) (patch_department dto) ds) db.profiles
              (λ o j e. find_department-patch dto k ds o j ∙ e) right.placed;
      })

check_remove-facts :
    (org k : Key) (db : StaffDb) (d : Department)
    → check_remove org k db ≡ ok d
    → (find_department db.departments org k ≡ some d) × (count_by (is_staff_of d) db.profiles ≡ 0)
unfolding check_remove
check_remove-facts org k db d h = (ground arith, ground arith)

remove-AreStaff :
    (org k : Key) (db : StaffDb) → AreStaff db → AreStaff (handle_staff (removes org k) db)
unfolding handle_staff remove
remove-AreStaff org k db right =
    store_after-keeps AreStaff db (check_remove org k db) _ right (λ d h.
      let (found, none_there) = check_remove-facts org k db d h in
      let same = (department-org org k db.departments d found).0 in
      let gone : Department → Bool = λ d. d.id == k in
      record {
        keys = HasKeys-delete_by (λ d. d.id) gone db.departments right.keys;
        names = delete-AreNamed gone db.departments right.names;
        placed =
            All-map2 (IsPlaced db.departments) (λ p. is_staff_of d p ≡ false)
              (IsPlaced (delete_by gone db.departments)) db.profiles
              (λ p a b. still_placed k db.departments d p.organization_id p.department_id same b a)
              right.placed (no_staff d db.profiles none_there);
      })

check_profile-placed :
    (org user : Key) (dto : UpdateProfileDto) (db : StaffDb)
    → check_profile org user dto db ≡ ok tt
    → is_placed db.departments org dto.department_id ≡ true
unfolding check_profile
check_profile-placed org user dto db h = ground arith

profile-AreStaff :
    (org user : Key) (dto : UpdateProfileDto) (db : StaffDb)
    → AreStaff db
    → AreStaff (handle_staff (updates_profile org user dto) db)
unfolding handle_staff update_profile
profile-AreStaff org user dto db right =
    store_after-keeps AreStaff db (check_profile org user dto db) _ right (λ _ h.
      let asked : is_placed db.departments org dto.department_id ≡ true =
        check_profile-placed org user dto db h in
      record {
        keys = right.keys;
        names = right.names;
        placed = elim (Bool-cases (is_some (find_profile db.profiles org user))) [
          | inl e ↦ rw e (
              All-update_by (IsPlaced db.departments) (is_profile org user) (patch_profile dto)
                db.profiles
                (λ p q a.
                  let here : p.organization_id ≡ org = ground arith in
                  given-placed db.departments p.organization_id dto.department_id p.department_id
                    (rw here asked) a)
                right.placed)
          | inr e ↦ rw e (
              All-append (IsPlaced db.departments) db.profiles (new_profile org user dto)
                right.placed asked)
        ];
      })

reassign-AreStaff :
    (org current : Key) (dto : ReassignTeamDto) (db : StaffDb)
    → AreStaff db
    → AreStaff (handle_staff (reassigns org current dto) db)
unfolding handle_staff reassign_team
reassign-AreStaff org current dto db right =
    store_after-keeps AreStaff db (check_reassign org current dto db) _ right (λ _ _. record {
      keys = right.keys;
      names = right.names;
      placed =
          All-update_by (IsPlaced db.departments) (is_reassigned org current dto.member_ids)
            (set_supervisor dto.target_supervisor_id) db.profiles (λ p _ a. a) right.placed;
    })

-- Whatever a request asks for, departments keep ids and names of their own in an organization, and
-- every profile's department is still a department of the profile's organization, if a new department
-- has an id of its own.
pub handle_staff-AreStaff :
    (q : StaffRequest) (db : StaffDb)
    → IsNewDepartment q db
    → AreStaff db
    → AreStaff (handle_staff q db)
handle_staff-AreStaff (creates new_id org dto) db fresh right =
    create-AreStaff new_id org dto db fresh right
handle_staff-AreStaff (updates org k dto actor ip) db fresh right =
    update-AreStaff org k dto actor ip db right
handle_staff-AreStaff (removes org k) db fresh right = remove-AreStaff org k db right
handle_staff-AreStaff (updates_profile org user dto) db fresh right =
    profile-AreStaff org user dto db right
handle_staff-AreStaff (reassigns org current dto) db fresh right =
    reassign-AreStaff org current dto db right
