-- ===== src/Prelude/Bits.antt =====
-- `|`, `&`, `<<` and `>>` on numbers: laws at variables, by the lowest binary digit.
use Prim.Native.Nat.{
  ℕ, zero, suc, ◌+◌, ◌*◌, ◌/◌, ◌%◌, ◌≤◌, ◌<◌, min, max, bit_and, bit_or, digits, bit_and-bitwise,
  bit_or-bitwise,
}
use mathlib.Core.Path.{◌≡◌, refl, sym, ap, ap₂, ◌∙◌}
use native.Mathlib.Omega.{arith}
use mathlib.Core.Logic.{inl, inr}
use cpp_matching_engine.Prelude.Tests.{leb, Bool-cases}

-- An operation on single digits: `base` for the digits that only the second number has, and `f` where
-- both have one.
module _ (base : ℕ → ℕ) (f op : ℕ → ℕ → ℕ) (unrolled : (x y : ℕ) → op x y ≡ digits base f x x y)
    (bottom : (y : ℕ) → base y ≡ base (y / 2) * 2 + f 0 (y % 2)) where
  one_more : (n x y : ℕ) → x ≤ n → digits base f (suc n) x y ≡ digits base f n x y
  one_more zero zero y h = refl
  one_more (suc n) zero y h = refl
  one_more zero (suc x) y h = absurd (omega arith)
  one_more (suc n) (suc x) y h = omega (arith, one_more n (suc x / 2) (y / 2) (omega arith))

  many_more : (n x y : ℕ) → x ≤ n → digits base f n x y ≡ digits base f x x y
  many_more zero zero y h = refl
  many_more zero (suc x) y h = absurd (omega arith)
  many_more (suc n) x y h = elim (Bool-cases (leb x n)) [
    | inl e ↦ one_more n x y (ground arith) ∙ many_more n x y (ground arith)
    | inr e ↦ let same : x ≡ suc n = ground arith in ap (λ k. digits base f k x y) (sym same)
  ]

  by_digit : (x y : ℕ) → op x y ≡ op (x / 2) (y / 2) * 2 + f (x % 2) (y % 2)
  by_digit zero y = omega (arith, unrolled 0 y, unrolled 0 (y / 2), bottom y)
  by_digit (suc x) y =
      let half = many_more x (suc x / 2) (y / 2) (omega arith) in
      omega (arith, half, unrolled (suc x) y, unrolled (suc x / 2) (y / 2))

pub bit_and_step : (a b : ℕ) → bit_and a b ≡ bit_and (a / 2) (b / 2) * 2 + min (a % 2) (b % 2)
bit_and_step = by_digit (λ y. 0) min bit_and bit_and-bitwise (λ y. omega arith)

pub bit_or_step : (a b : ℕ) → bit_or a b ≡ bit_or (a / 2) (b / 2) * 2 + max (a % 2) (b % 2)
bit_or_step = by_digit (λ y. y) max bit_or bit_or-bitwise (λ y. omega arith)

-- An operation with 0 as its second number, when that gives `g`.
module _ (f op : ℕ → ℕ → ℕ) (step : (a b : ℕ) → op a b ≡ op (a / 2) (b / 2) * 2 + f (a % 2) (b % 2))
    (g : ℕ → ℕ) (from : op 0 0 ≡ g 0) (grows : (a : ℕ) → g (a / 2) * 2 + f (a % 2) 0 ≡ g a) where
  right_zero : (n a : ℕ) → a ≤ n → op a 0 ≡ g a
  right_zero n zero h = from
  right_zero zero (suc a) h = absurd (omega arith)
  right_zero (suc n) (suc a) h =
      let half = right_zero n (suc a / 2) (omega arith) in
      omega (arith, step (suc a) 0, half, grows (suc a))

pub bit_and-zero : (a : ℕ) → bit_and a 0 ≡ 0
bit_and-zero a =
    right_zero min bit_and bit_and_step (λ x. 0) refl (λ x. omega arith) a a (omega arith)

pub bit_or-zero : (a : ℕ) → bit_or a 0 ≡ a
bit_or-zero a = right_zero max bit_or bit_or_step (λ x. x) refl (λ x. omega arith) a a (omega arith)

zero-bit_or : (b : ℕ) → bit_or 0 b ≡ b
zero-bit_or b = bit_or-bitwise 0 b

-- 2 ^ n by recursion.
abbrev pub power : ℕ → ℕ
power zero = 1
power (suc n) = 2 * power n

-- The digits below `n` and those above are treated apart by an operation on single digits.
module _ (op f : ℕ → ℕ → ℕ) (step : (a b : ℕ) → op a b ≡ op (a / 2) (b / 2) * 2 + f (a % 2) (b % 2))
    (nothing : op 0 0 ≡ 0) where
  digits-split :
      (n a b l m : ℕ)
      → l < power n
      → m < power n
      → op (a * power n + l) (b * power n + m) ≡ op a b * power n + op l m
  digits-split zero a b zero zero h k =
      let above : a * power zero + 0 ≡ a = omega arith in
      let over : b * power zero + 0 ≡ b = omega arith in omega (arith, ap₂ op above over, nothing)
  digits-split zero a b (suc l) m h k = absurd (omega arith)
  digits-split zero a b l (suc m) h k = absurd (omega arith)
  digits-split (suc n) a b l m h k =
      let upper : (a * power (suc n) + l) / 2 ≡ a * power n + l / 2 = grind arith in
      let lower : (b * power (suc n) + m) / 2 ≡ b * power n + m / 2 = grind arith in
      let bit : (a * power (suc n) + l) % 2 ≡ l % 2 = grind arith in
      let digit : (b * power (suc n) + m) % 2 ≡ m % 2 = grind arith in
      let ih = digits-split n a b (l / 2) (m / 2) (omega arith) (omega arith) in
      rw
        (
          step (a * power (suc n) + l) (b * power (suc n) + m),
          upper,
          lower,
          bit,
          digit,
          ih,
          step l m,
        )
        (omega arith)

pub bit_or-split :
    (n a b l m : ℕ)
    → l < power n
    → m < power n
    → bit_or (a * power n + l) (b * power n + m) ≡ bit_or a b * power n + bit_or l m
bit_or-split = digits-split bit_or max bit_or_step refl

pub bit_and-split :
    (n a b l m : ℕ)
    → l < power n
    → m < power n
    → bit_and (a * power n + l) (b * power n + m) ≡ bit_and a b * power n + bit_and l m
bit_and-split = digits-split bit_and min bit_and_step refl

-- A number of n ones in base two.
abbrev ones : ℕ → ℕ
ones zero = 0
ones (suc n) = 2 * ones n + 1

ones-bit_and : (n a : ℕ) → a < power n → bit_and a (ones n) ≡ a
ones-bit_and zero a h = omega (arith, bit_and-zero a)
ones-bit_and (suc n) a h =
    let half : (2 * ones n + 1) / 2 ≡ ones n = omega arith in
    rw (bit_and_step a (ones (suc n)), half, ones-bit_and n (a / 2) (omega arith)) (omega arith)

-- A byte is cut out of a number by a mask, and goes above what is smaller by an `|`.
pub bit_and-mask :
    (n h b l : ℕ)
    → b < 256
    → l < power n
    → bit_and ((h * 256 + b) * power n + l) (255 * power n) ≡ b * power n
bit_and-mask n h b l p q =
    let low = bit_and-split n (h * 256 + b) 255 l 0 q (omega arith) in
    let high = bit_and-split 8 h 0 b 255 p (omega arith) in
    let byte : bit_and (h * 256 + b) 255 ≡ b =
      omega (arith, high, ones-bit_and 8 b p, bit_and-zero h) in
    let whole : 255 * power n + 0 ≡ 255 * power n = omega arith in
    sym (ap (λ x. bit_and ((h * 256 + b) * power n + l) x) whole)
    ∙ rw (low, byte, bit_and-zero l) (omega arith)

pub bit_or-above : (n a l : ℕ) → l < power n → bit_or (a * power n) l ≡ a * power n + l
bit_or-above n a l h =
    let whole : a * power n + 0 ≡ a * power n = omega arith in
    let below : 0 * power n + l ≡ l = omega arith in
    sym (ap₂ bit_or whole below)
    ∙ bit_or-split n a 0 0 l (omega arith) h
    ∙ ap₂ (λ x y. x * power n + y) (bit_or-zero a) (zero-bit_or l)

pub bit_or-below : (n a l : ℕ) → l < power n → bit_or l (a * power n) ≡ a * power n + l
bit_or-below n a l h =
    let whole : a * power n + 0 ≡ a * power n = omega arith in
    let below : 0 * power n + l ≡ l = omega arith in
    sym (ap₂ bit_or below whole)
    ∙ bit_or-split n 0 a l 0 h (omega arith)
    ∙ ap₂ (λ x y. x * power n + y) (zero-bit_or a) (bit_or-zero l)

-- A byte goes into the gap between a number and what is smaller.
pub bit_or-between :
    (n a b l : ℕ)
    → b < 256
    → l < power n
    → bit_or (a * 256 * power n + l) (b * power n) ≡ (a * 256 + b) * power n + l
bit_or-between n a b l h k =
    let whole : b * power n + 0 ≡ b * power n = omega arith in
    sym (ap (bit_or (a * 256 * power n + l)) whole)
    ∙ bit_or-split n (a * 256) b l 0 k (omega arith)
    ∙ ap₂ (λ x y. x * power n + y) (bit_or-above 8 a b h) (bit_or-zero l)

pub power_positive : (n : ℕ) → 0 < power n
power_positive zero = omega arith
power_positive (suc n) = omega (arith, power_positive n)
