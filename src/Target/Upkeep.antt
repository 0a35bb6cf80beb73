-- ===== src/Target/Upkeep.antt =====
-- The requests on targets keep the hierarchy, and an entry always has its total stored.
use Prim.Native.String.{String}
use teamos_backend.Prelude.{
  ◌≡◌, ◌≢◌, inl, inr, refl, false, Option, none, some, [], ◌∷◌, ◌++◌, Key, arith, ◌==◌, find_by,
  delete_by, truthy, All, Result-cases, ok,
}
use teamos_backend.Roles.{Role}
use teamos_backend.Outbox.{emit}
use teamos_backend.Rows.{find_by-owned}
use teamos_backend.Amounts.{Amounts}
use teamos_backend.Target.Model.{
  Target, TargetEntry, TargetDb, CreateTargetDto, UpdateTargetDto, target_entry_added,
  target_entry_deleted,
}
use teamos_backend.Target.Alignment.{find_target}
use teamos_backend.Target.Changes.{
  check_create, check_parent, check_foreign_key, new_target, create, check_update, patch, update,
  has_child, check_remove, remove, new_parent,
}
use teamos_backend.Target.Entries.{
  CreateEntryDto, EntryFile, check_add, total_of, new_entry, add_entry, check_delete, file_deletion,
  delete_entry,
}
use teamos_backend.Target.Hierarchy.{
  IsAligned, relink-IsAligned, append-IsAligned, delete-IsAligned,
}
use teamos_backend.Target.Linking.{created-IsLinked, patched-IsLinked}
use teamos_backend.Target.Rollup.{row_link, refresh-ok}
use teamos_backend.Target.Service.{
  TargetRequest, creates, updates, removes, adds_entry, deletes_entry, handle_target,
}

module _ {V : Type 0} (num : Amounts V) where
  -- What the database guarantees of the identifiers that it makes up.
  abbrev pub IsNew : TargetRequest V → TargetDb V → Type 0
  IsNew (creates new_id _ _ _ _) db = (new_id ≢ 0) × All (λ x. x.id ≢ new_id) db.targets
  IsNew _ db = Unit

  create-IsAligned :
      (k org user : Key) (role : Option Role) (dto : CreateTargetDto V) (db : TargetDb V)
      → (k ≢ 0) × All (λ x. x.id ≢ k) db.targets
      → IsAligned db.targets
      → IsAligned (handle_target num (creates k org user role dto) db).targets
  unfolding handle_target create new_target
  create-IsAligned k org user role dto db fresh aligned =
      elim (Result-cases (check_create org user role dto db)) [
        | inl (s, r, e) ↦ rw e aligned
        | inr (u, e) ↦
            let checks : (check_parent db org dto.kind none (truthy dto.parent_target_id) ≡ ok tt)
                × (check_foreign_key dto.parent_target_id ≡ ok tt) =
              unfold check_create in ground arith in
            rw e (
              append-IsAligned (new_target num k org user dto) db.targets fresh.1 fresh.0
                (created-IsLinked db org dto.kind dto.parent_target_id aligned checks.0 checks.1)
                aligned)
      ]

  update-IsAligned :
      (org k user : Key) (role : Option Role) (dto : UpdateTargetDto V) (db : TargetDb V)
      → IsAligned db.targets
      → IsAligned (handle_target num (updates org k user role dto) db).targets
  unfolding handle_target update
  update-IsAligned org k user role dto db aligned =
      elim (Result-cases (check_update org k user role dto db)) [
        | inl (s, r, e) ↦ rw e aligned
        | inr (t, e) ↦
            let checks : (find_target db.targets org k ≡ some t)
                × (check_parent db org t.kind (some k)
                      (new_parent dto.parent_target_id t.parent_target_id)
                    ≡ ok tt) =
              unfold check_update in ground arith in
            let found : find_by (λ x. x.id == k) db.targets ≡ some t =
              find_by-owned (λ x. x.id) (λ x. x.organization_id) k org db.targets aligned.keys
                checks.0 in
            rw e (
              relink-IsAligned k (patch dto) db.targets (unfold patch in λ x. (refl, refl)) found
                (patched-IsLinked db org k dto t aligned checks.1
                  (row_link num db.targets k aligned found))
                aligned)
      ]

  remove-IsAligned :
      (org k user : Key) (role : Option Role) (ip : Option String) (db : TargetDb V)
      → IsAligned db.targets
      → IsAligned (handle_target num (removes org k user role ip) db).targets
  unfolding handle_target remove
  remove-IsAligned org k user role ip db aligned =
      elim (Result-cases (check_remove org k user role db)) [
        | inl (s, r, e) ↦ rw e aligned
        | inr (t, e) ↦
            let childless : has_child db.targets k ≡ false = unfold check_remove in ground arith in
            rw e (delete-IsAligned k db.targets childless aligned)
      ]

  -- An admitted entry: what the request answers with, and the rows that it leaves.
  pub add_entry-total :
      (new_id org k user : Key) (role : Option Role) (dto : CreateEntryDto V)
      (file : Option EntryFile) (db : TargetDb V) {t : Target V}
      → IsAligned db.targets
      → check_add org k user role db ≡ ok t
      → (new : TargetDb V) × (add_entry num new_id org k user role dto file db
          ≡ ok ((new_entry num new_id k user dto file, total_of num new.entries k), new))
        × (new.entries ≡ db.entries ++ new_entry num new_id k user dto file ∷ [])
        × IsAligned new.targets
        × (find_by (λ x. x.id == k) new.targets
            ≡ some (record t { current_value = total_of num new.entries k }))
  unfolding add_entry
  add_entry-total new_id org k user role dto file db {t} aligned checked =
      let owned : find_target db.targets org k ≡ some t = unfold check_add in ground arith in
      let found : find_by (λ x. x.id == k) db.targets ≡ some t =
        find_by-owned (λ x. x.id) (λ x. x.organization_id) k org db.targets aligned.keys owned in
      let entries = db.entries ++ new_entry num new_id k user dto file ∷ [] in
      let (new, ends, kept, total) = refresh-ok num db.targets entries k aligned found in
      (
        record db {
          targets = new;
          entries = entries;
          outbox =
              db.outbox
              ++ emit org (
                  target_entry_added k (new_entry num new_id k user dto file)
                    (total_of num entries k))
                ∷ [];
        },
        rw (checked, ends),
        refl,
        kept,
        total,
      )

  -- An admitted deletion of an entry.
  pub delete_entry-total :
      (org k entry_id user : Key) (role : Option Role) (db : TargetDb V) {e : TargetEntry V}
      {t : Target V}
      → IsAligned db.targets
      → check_delete num org k entry_id user role db ≡ ok (e, t)
      → (new : TargetDb V) × (delete_entry num org k entry_id user role db ≡ ok (tt, new))
        × (new.entries ≡ delete_by (λ e. e.id == entry_id) db.entries)
        × IsAligned new.targets
        × (find_by (λ x. x.id == k) new.targets
            ≡ some (record t { current_value = total_of num new.entries k }))
  unfolding delete_entry
  delete_entry-total org k entry_id user role db {e} {t} aligned checked =
      let found : find_by (λ x. x.id == k) db.targets ≡ some t =
        unfold check_delete in ground arith in
      let entries = delete_by (λ e. e.id == entry_id) db.entries in
      let (new, ends, kept, total) = refresh-ok num db.targets entries k aligned found in
      (
        record db {
          targets = new;
          entries = entries;
          outbox =
              db.outbox
              ++ (file_deletion num e.attachment_url
                  ++ emit org (target_entry_deleted entry_id) ∷ []);
        },
        rw (checked, ends),
        refl,
        kept,
        total,
      )

  add_entry-IsAligned :
      (new_id org k user : Key) (role : Option Role) (dto : CreateEntryDto V)
      (file : Option EntryFile) (db : TargetDb V)
      → IsAligned db.targets
      → IsAligned (handle_target num (adds_entry new_id org k user role dto file) db).targets
  unfolding handle_target
  add_entry-IsAligned new_id org k user role dto file db aligned =
      elim (Result-cases (check_add org k user role db)) [
        | inl (s, r, e) ↦ unfold add_entry in rw e aligned
        | inr (t, e) ↦
            let (new, done, entered, kept, total) =
              add_entry-total new_id org k user role dto file db aligned e in
            rw done kept
      ]

  delete_entry-IsAligned :
      (org k entry_id user : Key) (role : Option Role) (db : TargetDb V)
      → IsAligned db.targets
      → IsAligned (handle_target num (deletes_entry org k entry_id user role) db).targets
  unfolding handle_target
  delete_entry-IsAligned org k entry_id user role db aligned =
      elim (Result-cases (check_delete num org k entry_id user role db)) [
        | inl (s, r, e) ↦ unfold delete_entry in rw e aligned
        | inr ((entry, t), e) ↦
            let (new, done, entered, kept, total) =
              delete_entry-total org k entry_id user role db aligned e in
            rw done kept
      ]

  -- Whatever a request asks for, after it the targets have distinct identifiers, none of them
  -- empty, and every target with a parent is linked to a target of a higher kind, if that was so
  -- before and the database makes up identifiers that no target has.
  pub handle_target-IsAligned :
      (q : TargetRequest V) (db : TargetDb V)
      → IsNew q db
      → IsAligned db.targets
      → IsAligned (handle_target num q db).targets
  handle_target-IsAligned (creates k org user role dto) db new aligned =
      create-IsAligned k org user role dto db new aligned
  handle_target-IsAligned (updates org k user role dto) db new aligned =
      update-IsAligned org k user role dto db aligned
  handle_target-IsAligned (removes org k user role ip) db new aligned =
      remove-IsAligned org k user role ip db aligned
  handle_target-IsAligned (adds_entry new_id org k user role dto file) db new aligned =
      add_entry-IsAligned new_id org k user role dto file db aligned
  handle_target-IsAligned (deletes_entry org k entry_id user role) db new aligned =
      delete_entry-IsAligned org k entry_id user role db aligned
