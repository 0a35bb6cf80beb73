-- ===== src/Staff/Service.antt =====
-- The requests on departments and staff that write, as one type, and the store each one leaves.
use Prim.Native.String.{String}
use teamos_backend.Prelude.{Option, Key, store_after}
use teamos_backend.Staff.Model.{
  StaffDb, CreateDepartmentDto, UpdateDepartmentDto, UpdateProfileDto, ReassignTeamDto,
}
use teamos_backend.Staff.Departments.{create, update, remove}
use teamos_backend.Staff.Users.{update_profile, reassign_team}

pub data StaffRequest : Type 0 where
  creates : (new_id org : Key) (dto : CreateDepartmentDto) → StaffRequest
  updates :
      (org k : Key) (dto : UpdateDepartmentDto) (actor : Option Key) (ip : Option String)
      → StaffRequest
  removes : (org k : Key) → StaffRequest
  updates_profile : (org user : Key) (dto : UpdateProfileDto) → StaffRequest
  reassigns : (org current : Key) (dto : ReassignTeamDto) → StaffRequest

unfoldable pub handle_staff : StaffRequest → StaffDb → StaffDb
handle_staff (creates new_id org dto) db = store_after db (create new_id org dto db)
handle_staff (updates org k dto actor ip) db = store_after db (update org k dto actor ip db)
handle_staff (removes org k) db = store_after db (remove org k db)
handle_staff (updates_profile org user dto) db = store_after db (update_profile org user dto db)
handle_staff (reassigns org current dto) db = store_after db (reassign_team org current dto db)
