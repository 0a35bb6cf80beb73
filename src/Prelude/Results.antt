-- ===== src/Prelude/Results.antt =====
-- Requests that can be refused. A service method throws one of NestJS's HTTP exceptions
-- (`Status`) with a message (`R`, one enumeration per service); an error of the database is an
-- internal one.
use mathlib.Core.Path.{◌≡◌, refl}
use mathlib.Core.Logic.{◌↔◌, ◌⊎◌, inl, inr}
use native.Mathlib.Omega.{arith}
use mathlib.Core.Bool.{Bool, true, false}
use mathlib.Core.Option.{Option, none, some}

pub data Status : Type 0 where
  bad_request forbidden not_found conflict internal_error : Status

pub data Result (R A : Type 0) : Type 0 where
  ok : A → Result R A
  err : Status → R → Result R A

infixl 5 ◌>>=◌ ◌>>◌
abbrev pub ◌>>=◌ : {R A B : Type 0} → Result R A → (A → Result R B) → Result R B
ok a >>= f = f a
err s r >>= f = err s r

abbrev pub ◌>>◌ : {R A B : Type 0} → Result R A → Result R B → Result R B
m >> k = m >>= λ _. k

-- `if (c) throw new …Exception(…)`
abbrev pub throw_if : {R : Type 0} → Bool → Status → R → Result R (Unit {0})
throw_if true s r = err s r
throw_if false s r = ok tt

-- `if (!row) throw new …Exception(…)`
abbrev pub or_throw : {R A : Type 0} → Option A → Status → R → Result R A
or_throw none s r = err s r
or_throw (some a) s r = ok a

pub ok-eq :
    {R A S : Type 0} {a b : A} {s t : S}
    → ◌≡◌ {A = Result R (A × S)} (ok (a, s)) (ok (b, t))
    → a ≡ b
ok-eq h = cc

pub some-eq {ℓ} : {A : Type ℓ} {a b : A} → ◌≡◌ {A = Option A} (some a) (some b) → a ≡ b
some-eq h = cc

-- To split on the outcome of a check and keep the equation.
pub Result-cases :
    {R A : Type 0} (m : Result R A)
    → ((s : Status) × (r : R) × (m ≡ err s r)) ⊎ ((a : A) × (m ≡ ok a))
Result-cases (ok a) = inr (a, refl)
Result-cases (err s r) = inl (s, r, refl)

-- The store after a request: a refused one has left it as it was.
abbrev pub store_after : {R A S : Type 0} → S → Result R (A × S) → S
store_after old (ok (_, new)) = new
store_after old (err _ _) = old

-- What holds before a request and after each write that its check lets pass, holds after it.
pub store_after-keeps :
    {R A B S : Type 0} (P : S → Type 0) (old : S) (m : Result R A) (f : A → B × S)
    → P old
    → ((a : A) → m ≡ ok a → P (f a).1)
    → P (store_after old (m >>= λ a. ok (f a)))
store_after-keeps P old (ok a) f h k = k a refl
store_after-keeps P old (err s r) f h k = h

-- A request answers exactly when its check passes.
pub answers_iff :
    {R A B : Type 0} (m : Result R A) (f : A → B)
    → ((b : B) × ((m >>= λ a. ok (f a)) ≡ ok b)) ↔ ((a : A) × (m ≡ ok a))
answers_iff (ok a) f = (λ h. (a, refl), λ h. (f a, refl))
answers_iff (err s r) f = (λ (b, h). absurd (ground arith), λ (a, h). absurd (ground arith))
