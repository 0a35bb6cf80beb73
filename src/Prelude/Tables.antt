-- ===== src/Prelude/Tables.antt =====
-- Database tables as lists of rows, and the Prisma calls that the services make on them.
-- Identifiers are UUID strings that are only compared; 0 stands for the empty string, the one
-- identifier that JavaScript takes for false.
use Prim.Native.Nat.{ℕ, zero, suc}
use Prim.Native.String.{String}
use mathlib.Core.Bool.{Bool, true, false, not, ◌||◌}
use mathlib.Core.Option.{Option, none, some}
use mathlib.Core.List.{List, [], ◌∷◌}
use teamos_backend.Prelude.Tests.{◌==◌, leb, if◌then◌else◌}

abbrev pub Key : Type 0
Key = ℕ

-- JavaScript's reading of an optional id: missing, `null` and '' are all false.
abbrev pub truthy : Option Key → Option Key
truthy none = none
truthy (some zero) = none
truthy (some (suc n)) = some (suc n)

-- JavaScript's reading of an optional text: missing, `null` and '' are all false.
abbrev pub truthy_text : Option String → Option String
truthy_text none = none
truthy_text (some String.[]) = none
truthy_text (some (String.◌∷◌ c s)) = some (String.◌∷◌ c s)

-- `a === b` on optional ids.
abbrev pub same_key : Option Key → Option Key → Bool
same_key none none = true
same_key none (some _) = false
same_key (some _) none = false
same_key (some a) (some b) = a == b

abbrev pub is_some {ℓ} : {A : Type ℓ} → Option A → Bool
is_some none = false
is_some (some _) = true

abbrev pub contains : List Key → Key → Bool
contains [] a = false
contains (x ∷ xs) a = a == x || contains xs a

module _ {ℓ} {A : Type ℓ} where
  abbrev pub length : List A → ℕ
  length [] = 0
  length (_ ∷ xs) = suc (length xs)

  -- `findFirst`, `findUnique`
  abbrev pub find_by : (A → Bool) → List A → Option A
  find_by p [] = none
  find_by p (x ∷ xs) = if p x then some x else find_by p xs

  -- `findMany`
  abbrev pub filter_by : (A → Bool) → List A → List A
  filter_by p [] = []
  filter_by p (x ∷ xs) = let rest = filter_by p xs in if p x then x ∷ rest else rest

  -- `update`, `updateMany`
  abbrev pub update_by : (A → Bool) → (A → A) → List A → List A
  update_by p f [] = []
  update_by p f (x ∷ xs) = (if p x then f x else x) ∷ update_by p f xs

  -- `delete`
  abbrev pub delete_by : (A → Bool) → List A → List A
  delete_by p = filter_by (λ x. not (p x))

  -- `count`
  abbrev pub count_by : (A → Bool) → List A → ℕ
  count_by p [] = 0
  count_by p (x ∷ xs) = let n = count_by p xs in if p x then suc n else n

  abbrev pub any_by : (A → Bool) → List A → Bool
  any_by p [] = false
  any_by p (x ∷ xs) = p x || any_by p xs

  abbrev pub All {κ} : (A → Type κ) → List A → Type κ
  All P [] = Unit
  All P (x ∷ xs) = P x × All P xs

  abbrev pub is_empty : List A → Bool
  is_empty [] = true
  is_empty (_ ∷ _) = false

  -- `orderBy: { field: 'asc' }`; rows that tie keep the table's order.
  abbrev pub insert_by : (A → ℕ) → A → List A → List A
  insert_by f x [] = x ∷ []
  insert_by f x (y ∷ ys) = if leb (f x) (f y) then x ∷ y ∷ ys else y ∷ insert_by f x ys

  abbrev pub sort_by : (A → ℕ) → List A → List A
  sort_by f [] = []
  sort_by f (x ∷ xs) = insert_by f x (sort_by f xs)
