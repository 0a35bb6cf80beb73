-- ===== src/Target/Service.antt =====
-- The requests of `TargetService` that write, as one type, and the store that each one leaves.
use Prim.Native.String.{String}
use teamos_backend.Prelude.{Option, Key, store_after}
use teamos_backend.Roles.{Role}
use teamos_backend.Amounts.{Amounts}
use teamos_backend.Target.Model.{TargetDb, CreateTargetDto, UpdateTargetDto}
use teamos_backend.Target.Changes.{create, update, remove}
use teamos_backend.Target.Entries.{CreateEntryDto, EntryFile, add_entry, delete_entry}

-- Each with its method's arguments; `new_id` is what the database makes up.
pub data TargetRequest (V : Type 0) : Type 0 where
  creates : (new_id org user : Key) (role : Option Role) (dto : CreateTargetDto V) → TargetRequest V
  updates :
      (org target_id user : Key) (role : Option Role) (dto : UpdateTargetDto V) → TargetRequest V
  removes : (org target_id user : Key) (role : Option Role) (ip : Option String) → TargetRequest V
  adds_entry :
      (new_id org target_id user : Key) (role : Option Role) (dto : CreateEntryDto V)
      (file : Option EntryFile)
      → TargetRequest V
  deletes_entry : (org target_id entry_id user : Key) (role : Option Role) → TargetRequest V

unfoldable pub handle_target : {V : Type 0} → Amounts V → TargetRequest V → TargetDb V → TargetDb V
handle_target num (creates new_id org user role dto) db =
    store_after db (create num new_id org user role dto db)
handle_target num (updates org target_id user role dto) db =
    store_after db (update org target_id user role dto db)
handle_target num (removes org target_id user role ip) db =
    store_after db (remove org target_id user role ip db)
handle_target num (adds_entry new_id org target_id user role dto file) db =
    store_after db (add_entry num new_id org target_id user role dto file db)
handle_target num (deletes_entry org target_id entry_id user role) db =
    store_after db (delete_entry num org target_id entry_id user role db)
