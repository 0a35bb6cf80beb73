-- ===== src/Staff/Placed.antt =====
-- Profiles whose department is one of their organization.
use teamos_backend.Prelude.{
  suc, ◌≡◌, ◌∙◌, refl, sym, ap, inl, inr, Bool, true, false, Bool-cases, Option, none, some, List,
  [], ◌∷◌, ◌++◌, Key, arith, All, update_by, delete_by, count_by, is_some, same_key, ◌==◌, ◌&&◌,
}
use teamos_backend.Rows.{find_by-holds, All-map}
use teamos_backend.Directory.{UserProfile, Department, find_department}
use teamos_backend.Staff.Model.{UpdateDepartmentDto}
use teamos_backend.Staff.Departments.{is_staff_of, patch_department}
use teamos_backend.Staff.Users.{given}

-- Whose department is one of their organization.
abbrev pub is_placed : List Department → Key → Option Key → Bool
is_placed ds org none = true
is_placed ds org (some k) = is_some (find_department ds org k)

abbrev pub IsPlaced : List Department → UserProfile → Type 0
IsPlaced ds p = is_placed ds p.organization_id p.department_id ≡ true

pub find_department-add :
    (ds : List Department) (d : Department) (org k : Key)
    → is_some (find_department ds org k) ≡ true
    → is_some (find_department (ds ++ d ∷ []) org k) ≡ true
find_department-add [] d org k h = let bad : false ≡ true = h in cc
find_department-add (x ∷ ds) d org k h = elim (Bool-cases (x.id == k && x.organization_id == org)) [
  | inl e ↦ rw e
  | inr e ↦ rw e (find_department-add ds d org k (rw e at h))
]

pub find_department-patch :
    (dto : UpdateDepartmentDto) (j : Key) (ds : List Department) (org k : Key)
    → is_some (find_department (update_by (λ d. d.id == j) (patch_department dto) ds) org k)
      ≡ is_some (find_department ds org k)
find_department-patch dto j [] org k = refl
find_department-patch dto j (x ∷ ds) org k = ground (arith, find_department-patch dto j ds org k)

pub find_department-delete :
    (j : Key) (ds : List Department) (org k : Key)
    → (k == j) ≡ false
    → is_some (find_department (delete_by (λ d. d.id == j) ds) org k)
      ≡ is_some (find_department ds org k)
find_department-delete j [] org k h = refl
find_department-delete j (x ∷ ds) org k h = ground (arith, find_department-delete j ds org k h)

-- Profiles stay placed when every department that is found stays found.
pub placed_still :
    (old new : List Department) (ps : List UserProfile)
    → ((org k : Key)
        → is_some (find_department old org k) ≡ true
        → is_some (find_department new org k) ≡ true)
    → All (IsPlaced old) ps
    → All (IsPlaced new) ps
placed_still old new ps step placed =
    All-map (IsPlaced old) (IsPlaced new) ps (λ p. still p.organization_id p.department_id) placed
  where
    still : (org : Key) (d : Option Key) → is_placed old org d ≡ true → is_placed new org d ≡ true
    still org none h = refl
    still org (some k) h = step org k h

pub department-org :
    (org k : Key) (ds : List Department) (d : Department)
    → find_department ds org k ≡ some d
    → (d.id ≡ k) × (d.organization_id ≡ org)
department-org org k ds d h =
    let held : (d.id == k && d.organization_id == org) ≡ true =
      find_by-holds (λ d. d.id == k && d.organization_id == org) ds h in
    (ground arith, ground arith)

-- Without staff, no profile has the department.
pub no_staff :
    (d : Department) (ps : List UserProfile)
    → count_by (is_staff_of d) ps ≡ 0
    → All (λ p. is_staff_of d p ≡ false) ps
no_staff d [] h = tt
no_staff d (p ∷ ps) h = elim (Bool-cases (is_staff_of d p)) [
  | inl e ↦ let bad : suc (count_by (is_staff_of d) ps) ≡ 0 = (rw e at h) in absurd (ground arith)
  | inr e ↦ (e, no_staff d ps (rw e at h))
]

pub still_placed :
    (k : Key) (ds : List Department) (d : Department) (org : Key) (department : Option Key)
    → d.id ≡ k
    → same_key department (some d.id) ≡ false
    → is_placed ds org department ≡ true
    → is_placed (delete_by (λ d. d.id == k) ds) org department ≡ true
still_placed k ds d org none same other h = refl
still_placed k ds d org (some j) same other h =
    find_department-delete k ds org j (ap (λ i. j == i) (sym same) ∙ other) ∙ h

pub given-placed :
    (ds : List Department) (org : Key) (new old : Option Key)
    → is_placed ds org new ≡ true
    → is_placed ds org old ≡ true
    → is_placed ds org (given new old) ≡ true
given-placed ds org none old a b = b
given-placed ds org (some k) old a b = a
