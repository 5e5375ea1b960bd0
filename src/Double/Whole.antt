-- ===== src/Double/Whole.antt =====
-- Whole numbers as doubles: an instance on which the definitions run, and which meets the laws.
use cpp_matching_engine.Prelude.{◌≡◌, Bool, true, not, ◌/◌, ◌*◌, arith, nat_beq, ◌+◌, ◌↔◌, refl}
use cpp_matching_engine.Prelude.Int.{ℤ, pos_part, neg_part, sub_ℕ, ltb_ℤ}
use cpp_matching_engine.Double.{Double, IsOrdered}

abbrev add_ℤ : ℤ → ℤ → ℤ
add_ℤ a b = sub_ℕ (pos_part a + pos_part b) (neg_part a + neg_part b)

abbrev neg_ℤ : ℤ → ℤ
neg_ℤ a = sub_ℕ (neg_part a) (pos_part a)

abbrev mul_ℤ : ℤ → ℤ → ℤ
mul_ℤ a b =
    sub_ℕ (pos_part a * pos_part b + neg_part a * neg_part b)
      (pos_part a * neg_part b + neg_part a * pos_part b)

abbrev div_ℤ : ℤ → ℤ → ℤ
div_ℤ a b =
    sub_ℕ (pos_part a / pos_part b + neg_part a / neg_part b)
      (pos_part a / neg_part b + neg_part a / pos_part b)

abbrev eq_ℤ : ℤ → ℤ → Bool
eq_ℤ a b = nat_beq (pos_part a + neg_part b) (pos_part b + neg_part a)

instance abbrev pub whole : Double ℤ
whole = record {
  lt = ltb_ℤ;
  le = λ a b. not (ltb_ℤ b a);
  eq = eq_ℤ;
  add = add_ℤ;
  sub = λ a b. add_ℤ a (neg_ℤ b);
  mul = mul_ℤ;
  div = div_ℤ;
  neg = neg_ℤ;
  round = λ a. a;
  sqrt = λ a. a;
  of_int = λ a. a;
}

whole_eq : (a b : ℤ) → (eq_ℤ a b ≡ true) ↔ (a ≡ b)
whole_eq a b = ground arith

pub whole-IsOrdered : IsOrdered ℤ
whole-IsOrdered = record {
  lt_irrefl = λ a. ground arith;
  lt_trans = λ a b c h k. ground arith;
  lt_total = λ a b h k. ground arith;
  le_iff = λ a b. refl;
  eq_iff = whole_eq;
}
