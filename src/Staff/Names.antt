-- ===== src/Staff/Names.antt =====
-- The names of an organization's departments are distinct.
use Prim.Native.String.{String}
use text.Mathlib.Text.{◌==◌ as text_eq}
use text.Mathlib.TextEquality.{eq_iff}
use teamos_backend.Prelude.{
  ◌≡◌, ◌≢◌, ◌∙◌, refl, sym, subst, inl, inr, Bool, true, false, Bool-cases, List, [], ◌∷◌, ◌++◌,
  Key, arith, All, update_by, delete_by, ◌==◌, ◌&&◌, ==_iff,
}
use teamos_backend.Rows.{HasKeys, update_by-absent}
use teamos_backend.Directory.{Department}
use teamos_backend.Staff.Departments.{has_name, is_taken}

-- `@@unique([organizationId, name])`
abbrev pub AreNamed : List Department → Type 0
AreNamed [] = Unit
AreNamed (d ∷ ds) = (has_name ds d.organization_id d.name ≡ false) × AreNamed ds

has_name-add :
    (ds : List Department) (d : Department) (o : Key) (n : String)
    → has_name ds o n ≡ false
    → (d.organization_id == o && text_eq d.name n) ≡ false
    → has_name (ds ++ d ∷ []) o n ≡ false
has_name-add [] d o n h k = rw k
has_name-add (x ∷ ds) d o n h k = ground (arith, has_name-add ds d o n)

text_eq_sym : (s t : String) → text_eq s t ≡ text_eq t s
text_eq_sym s t = elim (Bool-cases (text_eq s t)) [
  | inl e ↦ let back : text_eq t s ≡ true = (eq_iff t s).1 (sym ((eq_iff s t).0 e)) in e ∙ sym back
  | inr e ↦ elim (Bool-cases (text_eq t s)) [
    | inl f ↦ let there : text_eq s t ≡ true = (eq_iff s t).1 (sym ((eq_iff t s).0 f)) in cc
    | inr f ↦ e ∙ sym f
  ]
]

pub add-AreNamed :
    (ds : List Department) (d : Department)
    → has_name ds d.organization_id d.name ≡ false
    → AreNamed ds
    → AreNamed (ds ++ d ∷ [])
add-AreNamed [] d h named = (refl, tt)
add-AreNamed (x ∷ ds) d h named =
    let turned = text_eq_sym x.name d.name in
    (
      has_name-add ds d x.organization_id x.name named.0 (ground arith),
      add-AreNamed ds d (ground arith) named.1,
    )

has_name-delete :
    (q : Department → Bool) (ds : List Department) (o : Key) (n : String)
    → has_name ds o n ≡ false
    → has_name (delete_by q ds) o n ≡ false
has_name-delete q [] o n h = refl
has_name-delete q (x ∷ ds) o n h = ground (arith, has_name-delete q ds o n)

pub delete-AreNamed :
    (q : Department → Bool) (ds : List Department) → AreNamed ds → AreNamed (delete_by q ds)
delete-AreNamed q [] named = tt
delete-AreNamed q (x ∷ ds) named = elim (Bool-cases (q x)) [
  | inl e ↦ rw e (delete-AreNamed q ds named.1)
  | inr e ↦
      rw e (has_name-delete q ds x.organization_id x.name named.0, delete-AreNamed q ds named.1)
]

-- A write to the row `k` of the organization `org` that keeps its keys and gives it the name `new`.
pub record Renames (k org : Key) (new : String) (f : Department → Department) : Type 0 where
  pub same_id : (d : Department) → (f d).id ≡ d.id
  pub same_org : (d : Department) → (f d).organization_id ≡ d.organization_id

-- The row that is written has the name, and is the organization's.
abbrev IsWritten : Key → Key → String → (Department → Department) → Department → Type 0
IsWritten k org new f d = (d.id == k) ≡ true → ((f d).name ≡ new) × (d.organization_id ≡ org)

has_name-rename :
    (k org : Key) (new : String) (f : Department → Department)
    → Renames k org new f
    → (ds : List Department) (o : Key) (n : String) → All (IsWritten k org new f) ds
    → (o == org && text_eq n new) ≡ false
    → has_name ds o n ≡ false
    → has_name (update_by (λ d. d.id == k) f ds) o n ≡ false
has_name-rename k org new f same [] o n w apart h = refl
has_name-rename k org new f same (x ∷ ds) o n w apart h =
    let ih = has_name-rename k org new f same ds o n w.1 apart in
    let turned = text_eq_sym n new in
    let kept = same.same_org x in
    elim (Bool-cases (x.id == k)) [
      | inl e ↦ let (a, b) = w.0 e in rw (e, kept, a, b) (ground arith)
      | inr e ↦ rw e (ground arith)
    ]

is_taken-others :
    (k org : Key) (new : String) (ds : List Department)
    → All (λ d. d.id ≢ k) ds
    → is_taken ds k org new ≡ has_name ds org new
is_taken-others k org new [] a = refl
is_taken-others k org new (x ∷ ds) a = ground (arith, a.0, is_taken-others k org new ds a.1)

pub rename-AreNamed :
    (k org : Key) (new : String) (f : Department → Department)
    → Renames k org new f
    → (ds : List Department) → HasKeys (λ d. d.id) ds
    → All (IsWritten k org new f) ds
    → is_taken ds k org new ≡ false
    → AreNamed ds
    → AreNamed (update_by (λ d. d.id == k) f ds)
rename-AreNamed k org new f same [] keys w free named = tt
rename-AreNamed k org new f same (x ∷ ds) keys w free named = elim (Bool-cases (x.id == k)) [
  | inl e ↦
      let here : x.id ≡ k = (==_iff x.id k).0 e in
      let rest : All (λ d. d.id ≢ k) ds = subst (λ j. All (λ d. d.id ≢ j) ds) here keys.0 in
      let (a, b) = w.0 e in
      let still : update_by (λ d. d.id == k) f ds ≡ ds = update_by-absent (λ d. d.id) k f ds rest in
      let alone = is_taken-others k org new ds rest in
      rw (e, still, same.same_org x, a, b) (ground arith, named.1)
  | inr e ↦
      let turned = text_eq_sym x.name new in
      rw e (
        has_name-rename k org new f same ds x.organization_id x.name w.1 (ground arith) named.0,
        rename-AreNamed k org new f same ds keys.1 w.1 (ground arith) named.1,
      )
]
