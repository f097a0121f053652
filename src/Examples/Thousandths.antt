-- ===== src/Examples/Thousandths.antt =====
-- Fixed-point numbers that keep the laws of the analytics service's numbers: a number is a count of
-- thousandths, and 0.5 to the power of x is taken as 1 - x, down to nought.
use native.Mathlib.Nat.{
  le-div_iff_mul-le, div-le_of_le-mul, div-mul-le_self, mul_comm, mul-le-mul_left,
}
use intelli_store.Prelude.{
  ℕ, ◌+◌, ◌-◌, ◌*◌, ◌/◌, ◌≤◌, ◌<◌, min, ◌≡◌, refl, ◌⊎◌, true, arith, leb, leb→le, ltb,
}
use intelli_store.Analytics.Double.{Double, IsDouble}

abbrev pub Thousandths : Type 0
Thousandths = ℕ

instance abbrev pub thousandths : Double ℕ
thousandths = record {
  lit = λ n k. n * 1000 / k;
  of_nat = λ n. n * 1000;
  plus = λ x y. x + y;
  times = λ x y. x * y / 1000;
  divided_by = λ x y. x * 1000 / y;
  minimum = λ x y. min x y;
  pow = λ b x. 1000 - x;
  log = λ x. x;
  round = λ x. (x + 500) / 1000 * 1000;
  floor = λ x. x / 1000;
  le = leb;
  gt = λ x y. ltb y x;
  is_finite = λ x. true;
  show = λ x. "n";
  to_fixed_1 = λ x. "n";
}

div_mono : (a b y : ℕ) → a ≤ b → 0 < y → a / y ≤ b / y
div_mono a b y h p =
    (le-div_iff_mul-le {k = y} {x = a / y} {y = b} p).1 (omega (arith, div-mul-le_self a y, h))

scaled_mono : (c x y : ℕ) → x ≤ y → c * x / 1000 ≤ c * y / 1000
scaled_mono c x y h = omega (arith, mul-le-mul_left c h)

scaled_nought : (c : ℕ) → c * 0 / 1000 ≡ 0
scaled_nought c = omega arith

scaled_one : (c : ℕ) → c * 1000 / 1000 ≡ c
scaled_one c = omega arith

le→leb : (a b : ℕ) → a ≤ b → leb a b ≡ true
le→leb a b h = ground arith

total : (x y : ℕ) → (leb x y ≡ true) ⊎ (leb y x ≡ true)
total x y = ground arith

pub thousandths-IsDouble : IsDouble ℕ
thousandths-IsDouble = record {
  refl_of_le = λ x y h. ground arith;
  le_trans = λ x y z h k. ground arith;
  le_total = λ x y h k. total x y;
  of_nat_mono = λ m n h. ground arith;
  of_nat_nonneg = λ n. ground arith;
  lit_pos = λ n h k. (ground arith, refl);
  plus_mono = λ a b x y h k i j. ground arith;
  plus_nought = refl;
  times_mono = λ n k x y a b c e h. le→leb _ _ (scaled_mono (n * 1000 / k) x y (leb→le x y h));
  times_nought = λ n k a b c. scaled_nought (n * 1000 / k);
  times_one = λ n k a b c. scaled_one (n * 1000 / k);
  times_comm = λ x y. rw (mul_comm x y) refl;
  divided_by_nonneg = λ x y h p. ground arith;
  divided_by_mono =
      λ x x' y h p. le→leb _ _ (div_mono (x * 1000) (x' * 1000) y (ground arith) (ground arith));
  divided_by_le =
      λ x y h p. le→leb _ _ (div-le_of_le-mul y {m = x * 1000} {n = 1000} (ground arith));
  minimum_le = λ x y h k. ground arith;
  minimum_mono = λ x x' y h k. ground arith;
  minimum_nonneg = λ x y h k. ground arith;
  gt_le = λ x y h. ground arith;
  half_nonneg = λ x h. ground arith;
  half_le = λ x h. ground arith;
  half_anti = λ x y h k. ground arith;
  round_mono = λ x y h. ground arith;
  round_nought = refl;
  round_hundred = refl;
  weights = refl;
}
