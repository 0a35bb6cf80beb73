-- ===== src/Target/Hierarchy.antt =====
-- The hierarchy of targets: a target is linked to one of a higher kind.
use teamos_backend.Prelude.{
  ℕ, ◌<◌, ◌≡◌, ◌≢◌, inl, inr, refl, ap, Bool, false, Option, none, some, List, [], ◌∷◌, ◌++◌, Key,
  arith, ◌==◌, Bool-cases, find_by, update_by, delete_by, All, not, same_key, any_by,
}
use teamos_backend.Rows.{
  HasKeys, HasKeys-update_by, HasKeys-delete_by, HasKeys-append, All-map, All-map2, All-update_by,
  All-update_at, All-filter_by, All-append,
}
use teamos_backend.Target.Model.{TargetType, company, team, individual, Target}

abbrev pub level : TargetType → ℕ
level individual = 0
level team = 1
level company = 2

abbrev pub IsAbove : TargetType → Option TargetType → Type 0
IsAbove c none = ⊥
IsAbove c (some k) = level c < level k

module _ {V : Type 0} where
  abbrev pub kind_of : Option (Target V) → Option TargetType
  kind_of none = none
  kind_of (some t) = some t.kind

  unfoldable pub kind_at : List (Target V) → Key → Option TargetType
  kind_at targets k = kind_of (find_by (λ t. t.id == k) targets)

  -- A link leads to a target that is there, of a higher kind.
  abbrev pub IsLinked : List (Target V) → TargetType → Option Key → Type 0
  IsLinked targets c none = Unit
  IsLinked targets c (some p) = IsAbove c (kind_at targets p)

  pub record IsAligned (targets : List (Target V)) : Type 0 where
    pub keys : HasKeys (λ t. t.id) targets
    pub ids : All (λ t. t.id ≢ 0) targets
    pub links : All (λ t. IsLinked targets t.kind t.parent_target_id) targets

  pub IsLinked-map :
      (old new : List (Target V))
      → ((p : Key) (c : TargetType) → IsAbove c (kind_at old p) → IsAbove c (kind_at new p))
      → (c : TargetType) (link : Option Key) → IsLinked old c link
      → IsLinked new c link
  IsLinked-map old new up c none h = tt
  IsLinked-map old new up c (some p) h = up p c h

  -- Writes that leave the identifier and the kind alone.
  abbrev pub KeepsKind : (Target V → Target V) → Type 0
  KeepsKind f = (t : Target V) → ((f t).id ≡ t.id) × ((f t).kind ≡ t.kind)

  pub kind_at-update_by :
      (q : Target V → Bool) (f : Target V → Target V) (targets : List (Target V)) (k : Key)
      → KeepsKind f
      → kind_at (update_by q f targets) k ≡ kind_at targets k
  unfolding kind_at
  kind_at-update_by q f [] k keeps = refl
  kind_at-update_by q f (t ∷ ts) k keeps = ground (arith, keeps t, kind_at-update_by q f ts k keeps)

  kind_at-append :
      (targets : List (Target V)) (t : Target V) (k : Key) (c : TargetType)
      → IsAbove c (kind_at targets k)
      → IsAbove c (kind_at (targets ++ t ∷ []) k)
  unfolding kind_at
  kind_at-append [] t k c h = absurd h
  kind_at-append (x ∷ ts) t k c h = elim (Bool-cases (x.id == k)) [
    | inl e ↦ rw e (rw e at h)
    | inr e ↦ rw e (kind_at-append ts t k c (rw e at h))
  ]

  kind_at-delete_by :
      (targets : List (Target V)) (k p : Key)
      → p ≢ k
      → kind_at (delete_by (λ t. t.id == k) targets) p ≡ kind_at targets p
  unfolding kind_at
  kind_at-delete_by [] k p ne = refl
  kind_at-delete_by (t ∷ ts) k p ne = ground (arith, kind_at-delete_by ts k p ne)

  -- A write to one row whose new link is good.
  pub relink-IsAligned :
      (k : Key) (f : Target V → Target V) (targets : List (Target V)) {t : Target V}
      → KeepsKind f
      → find_by (λ x. x.id == k) targets ≡ some t
      → IsLinked targets (f t).kind (f t).parent_target_id
      → IsAligned targets
      → IsAligned (update_by (λ x. x.id == k) f targets)
  relink-IsAligned k f targets {t} keeps found good aligned =
      let new = update_by (λ x. x.id == k) f targets in
      let up : (p : Key) (c : TargetType)
          → IsAbove c (kind_at targets p)
          → IsAbove c (kind_at new p) =
        λ p c h. rw (kind_at-update_by (λ x. x.id == k) f targets p keeps) h in
      record {
        keys =
            HasKeys-update_by (λ x. x.id) (λ x. x.id == k) f targets (λ x. (keeps x).0)
              aligned.keys;
        ids =
            All-update_by (λ x. x.id ≢ 0) (λ x. x.id == k) f targets (λ x _ n. rw ((keeps x).0) n)
              aligned.ids;
        links =
            All-update_at (λ x. x.id) (λ x. IsLinked new x.kind x.parent_target_id) k f targets
              aligned.keys found
              (IsLinked-map targets new up (f t).kind (f t).parent_target_id good)
              (All-map (λ x. IsLinked targets x.kind x.parent_target_id)
                (λ x. IsLinked new x.kind x.parent_target_id) targets
                (λ x. IsLinked-map targets new up x.kind x.parent_target_id) aligned.links);
      }

  pub append-IsAligned :
      (t : Target V) (targets : List (Target V))
      → All (λ x. x.id ≢ t.id) targets
      → t.id ≢ 0
      → IsLinked targets t.kind t.parent_target_id
      → IsAligned targets
      → IsAligned (targets ++ t ∷ [])
  append-IsAligned t targets absent ne good aligned =
      let new = targets ++ t ∷ [] in
      let up : (p : Key) (c : TargetType)
          → IsAbove c (kind_at targets p)
          → IsAbove c (kind_at new p) =
        λ p c. kind_at-append targets t p c in
      record {
        keys = HasKeys-append (λ x. x.id) targets t aligned.keys absent;
        ids = All-append (λ x. x.id ≢ 0) targets t aligned.ids ne;
        links =
            All-append (λ x. IsLinked new x.kind x.parent_target_id) targets t
              (All-map (λ x. IsLinked targets x.kind x.parent_target_id)
                (λ x. IsLinked new x.kind x.parent_target_id) targets
                (λ x. IsLinked-map targets new up x.kind x.parent_target_id) aligned.links)
              (IsLinked-map targets new up t.kind t.parent_target_id good);
      }

  no_child :
      (k : Key) (targets : List (Target V))
      → any_by (λ t. same_key t.parent_target_id (some k)) targets ≡ false
      → All (λ t. t.parent_target_id ≢ some k) targets
  no_child k [] h = tt
  no_child k (t ∷ ts) h = (ground arith, no_child k ts (ground arith))

  IsLinked-delete_by :
      (k : Key) (targets : List (Target V)) (c : TargetType) (link : Option Key)
      → IsLinked targets c link
      → link ≢ some k
      → IsLinked (delete_by (λ x. x.id == k) targets) c link
  IsLinked-delete_by k targets c none h ne = tt
  IsLinked-delete_by k targets c (some p) h ne =
      rw (kind_at-delete_by targets k p (λ e. ne (ap some e))) h

  pub delete-IsAligned :
      (k : Key) (targets : List (Target V))
      → any_by (λ t. same_key t.parent_target_id (some k)) targets ≡ false
      → IsAligned targets
      → IsAligned (delete_by (λ x. x.id == k) targets)
  delete-IsAligned k targets childless aligned =
      let new = delete_by (λ x. x.id == k) targets in
      record {
        keys = HasKeys-delete_by (λ x. x.id) (λ x. x.id == k) targets aligned.keys;
        ids = All-filter_by (λ x. x.id ≢ 0) (λ x. not (x.id == k)) targets aligned.ids;
        links =
            All-filter_by (λ x. IsLinked new x.kind x.parent_target_id) (λ x. not (x.id == k))
              targets
              (All-map2 (λ x. IsLinked targets x.kind x.parent_target_id)
                (λ x. x.parent_target_id ≢ some k) (λ x. IsLinked new x.kind x.parent_target_id)
                targets (λ x h ne. IsLinked-delete_by k targets x.kind x.parent_target_id h ne)
                aligned.links (no_child k targets childless));
      }
