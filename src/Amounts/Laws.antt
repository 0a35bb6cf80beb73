-- ===== src/Amounts/Laws.antt =====
-- The operations on numbers, and the order laws that some theorems ask of them.
use teamos_backend.Prelude.{ℕ, ◌+◌, ◌-◌, ◌*◌, ◌/◌, ◌≡◌, Bool, true, false, ◌==◌, ltb, arith}

-- Floating-point arithmetic: `0`, `a + b`, `a - b`, `a * b`, `a / b`, a whole number such as an
-- array's length, `a === 0`, `a < b`, `Number.isInteger(a)`, `Math.round(a * 100) / 100` and
-- `Math.round(a)`.
pub record Amounts (V : Type 0) : Type 0 where
  pub nil : V
  pub plus : V → V → V
  pub minus : V → V → V
  pub times : V → V → V
  pub over : V → V → V
  pub from_count : ℕ → V
  pub is_nil : V → Bool
  pub lt : V → V → Bool
  pub is_integer : V → Bool
  pub round_cents : V → V
  pub round : V → V

-- `<` on numbers that are not NaN, and that it keeps the order of whole numbers.
pub record IsOrdered {V : Type 0} (num : Amounts V) : Type 0 where
  pub lt_irrefl : (a : V) → num.lt a a ≡ false
  pub lt_trans : (a b c : V) → num.lt a b ≡ true → num.lt b c ≡ true → num.lt a c ≡ true
  pub le_lt_trans : (a b c : V) → num.lt a c ≡ true → num.lt a b ≡ false → num.lt b c ≡ true
  pub lt-from_count : (m n : ℕ) → num.lt (num.from_count m) (num.from_count n) ≡ ltb m n

-- Whole amounts: an instance for the runs, which meets the laws.
abbrev pub whole : Amounts ℕ
whole = record {
  nil = 0;
  plus = λ a b. a + b;
  minus = λ a b. a - b;
  times = λ a b. a * b;
  over = λ a b. a / b;
  from_count = λ n. n;
  is_nil = λ n. n == 0;
  lt = ltb;
  is_integer = λ _. true;
  round_cents = λ a. a;
  round = λ a. a;
}

pub whole-IsOrdered : IsOrdered whole
whole-IsOrdered = record {
  lt_irrefl = λ a. ground arith;
  lt_trans = λ a b c h k. ground arith;
  le_lt_trans = λ a b c h k. ground arith;
  lt-from_count = λ m n. ground arith;
}
