-- ===== src/Target/Linking.antt =====
-- The links that `create` and `update` store lead to targets of higher kinds.
use teamos_backend.Prelude.{
  zero, suc, ◌≡◌, inl, inr, sym, ap, true, Option, none, some, List, Key, arith, same_key, ==_iff,
  Bool-cases, truthy, ok,
}
use teamos_backend.Target.Model.{TargetType, Target, TargetDb, UpdateTargetDto}
use teamos_backend.Target.Alignment.{validate_alignment}
use teamos_backend.Target.Changes.{check_parent, check_foreign_key, new_parent, set_key, patch}
use teamos_backend.Target.Hierarchy.{IsAbove, kind_at, IsLinked, IsAligned}
use teamos_backend.Target.Alignments.{valid_parent-facts, find_target-facts}

same_key-eq : (p : Key) (link : Option Key) → same_key (some p) link ≡ true → link ≡ some p
same_key-eq p none h = absurd (ground arith)
same_key-eq p (some k) h = ap some (sym ((==_iff p k).0 h))

module _ {V : Type 0} where
  validated-IsAbove :
      (targets : List (Target V)) (org p : Key) (c : TargetType) (exclude : Option Key)
      → IsAligned targets
      → validate_alignment targets org p c exclude ≡ ok tt
      → IsAbove c (kind_at targets p)
  unfolding kind_at
  validated-IsAbove targets org p c exclude aligned h =
      let (q, found, up) = valid_parent-facts targets org p c exclude h in
      rw ((find_target-facts targets org p aligned found).0) up

  pub created-IsLinked :
      (db : TargetDb V) (org : Key) (c : TargetType) (link : Option Key)
      → IsAligned db.targets
      → check_parent db org c none (truthy link) ≡ ok tt
      → check_foreign_key link ≡ ok tt
      → IsLinked db.targets c link
  created-IsLinked db org c none aligned h key = tt
  created-IsLinked db org c (some zero) aligned h key = absurd (ground arith)
  created-IsLinked db org c (some (suc p)) aligned h key =
      validated-IsAbove db.targets org (suc p) c none aligned h

  set-IsLinked :
      (db : TargetDb V) (org k : Key) (c : TargetType) (asked : Option (Option Key))
      (old : Option Key)
      → IsAligned db.targets
      → check_parent db org c (some k) (new_parent asked old) ≡ ok tt
      → IsLinked db.targets c old
      → IsLinked db.targets c (set_key asked old)
  set-IsLinked db org k c none old aligned h linked = linked
  set-IsLinked db org k c (some none) old aligned h linked = tt
  set-IsLinked db org k c (some (some zero)) old aligned h linked = tt
  set-IsLinked db org k c (some (some (suc p))) old aligned h linked =
      elim (Bool-cases (same_key (some (suc p)) old)) [
        | inl same ↦ rw (same_key-eq (suc p) old same) at linked
        | inr other ↦ validated-IsAbove db.targets org (suc p) c (some k) aligned (rw other at h)
      ]

  pub patched-IsLinked :
      (db : TargetDb V) (org k : Key) (dto : UpdateTargetDto V) (t : Target V)
      → IsAligned db.targets
      → check_parent db org t.kind (some k) (new_parent dto.parent_target_id t.parent_target_id)
        ≡ ok tt
      → IsLinked db.targets t.kind t.parent_target_id
      → IsLinked db.targets (patch dto t).kind (patch dto t).parent_target_id
  unfolding patch
  patched-IsLinked db org k dto t aligned h linked =
      set-IsLinked db org k t.kind dto.parent_target_id t.parent_target_id aligned h linked
