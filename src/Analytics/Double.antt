-- ===== src/Analytics/Double.antt =====
-- The numbers of JavaScript, as far as the analytics service computes with them
-- (services/ai-analytics-service/src/scoring/temperature-scoring.ts, services/analytics.service.ts).
-- They are a parameter: the operations, and the laws that IEEE 754 and ECMAScript give them.
use intelli_store.Prelude.{ℕ, ◌^◌, ◌≤◌, String, ◌≡◌, ◌⊎◌, Bool, true}

pub record Double {ℓ} (D : Type ℓ) : Type ℓ where
  -- The literal n / k, as 0.7 is 7 / 10, and a whole number that the program computed.
  pub lit : ℕ → ℕ → D
  pub of_nat : ℕ → D
  pub plus : D → D → D
  pub times : D → D → D
  pub divided_by : D → D → D
  -- `Math.min`, `Math.pow`, `Math.log`, `Math.round` and `Math.floor`; the last is used as an index.
  pub minimum : D → D → D
  pub pow : D → D → D
  pub log : D → D
  pub round : D → D
  pub floor : D → ℕ
  -- `<=` and `>`
  pub le : D → D → Bool
  pub gt : D → D → Bool
  pub is_finite : D → Bool
  -- In a template literal, and `toFixed(1)`.
  pub show : D → String
  pub to_fixed_1 : D → String

module _ {ℓ} {D : Type ℓ} ⦃d : Double D⦄ where
  infix 4 ◌≼◌
  abbrev pub ◌≼◌ : D → D → Type 0
  x ≼ y = d.le x y ≡ true

  abbrev pub nought : D
  nought = d.lit 0 1

  abbrev pub hundred : D
  hundred = d.lit 100 1

  abbrev pub IsPositive : D → Type 0
  IsPositive x = (d.gt x nought ≡ true) × (d.is_finite x ≡ true)

-- NaN is the value that is not `<=` itself. Rounding is monotone, so each operation is, where neither
-- NaN nor an infinity times nought can come out.
pub record IsDouble {ℓ} (D : Type ℓ) ⦃d : Double D⦄ : Type ℓ where
  pub refl_of_le : (x y : D) → x ≼ y → (x ≼ x) × (y ≼ y)
  pub le_trans : (x y z : D) → x ≼ y → y ≼ z → x ≼ z
  pub le_total : (x y : D) → x ≼ x → y ≼ y → (x ≼ y) ⊎ (y ≼ x)
  pub of_nat_mono : (m n : ℕ) → m ≤ n → d.of_nat m ≼ d.of_nat n
  pub of_nat_nonneg : (n : ℕ) → nought ≼ d.of_nat n
  pub lit_pos : (n : ℕ) → 1 ≤ n → n ≤ 2 ^ 53 → IsPositive (d.lit n 1)
  pub plus_mono : (a b x y : D) → nought ≼ a → a ≼ b → nought ≼ x → x ≼ y → d.plus a x ≼ d.plus b y
  pub plus_nought : d.plus nought nought ≡ nought
  pub times_mono :
      (n k : ℕ) (x y : D)
      → 1 ≤ n
      → n ≤ 100
      → 1 ≤ k
      → k ≤ 10
      → x ≼ y
      → d.times (d.lit n k) x ≼ d.times (d.lit n k) y
  pub times_nought : (n k : ℕ) → n ≤ 100 → 1 ≤ k → k ≤ 10 → d.times (d.lit n k) nought ≡ nought
  pub times_one : (n k : ℕ) → n ≤ 100 → 1 ≤ k → k ≤ 10 → d.times (d.lit n k) (d.lit 1 1) ≡ d.lit n k
  pub times_comm : (x y : D) → d.times x y ≡ d.times y x
  pub divided_by_nonneg : (x y : D) → nought ≼ x → IsPositive y → nought ≼ d.divided_by x y
  pub divided_by_mono : (x x' y : D) → x ≼ x' → IsPositive y → d.divided_by x y ≼ d.divided_by x' y
  pub divided_by_le : (x y : D) → x ≼ y → IsPositive y → d.divided_by x y ≼ d.lit 1 1
  pub minimum_le : (x y : D) → x ≼ x → y ≼ y → d.minimum x y ≼ y
  pub minimum_mono : (x x' y : D) → x ≼ x' → y ≼ y → d.minimum x y ≼ d.minimum x' y
  pub minimum_nonneg : (x y : D) → nought ≼ x → nought ≼ y → nought ≼ d.minimum x y
  pub gt_le : (x y : D) → d.gt x y ≡ true → y ≼ x
  pub half_nonneg : (x : D) → nought ≼ x → nought ≼ d.pow (d.lit 5 10) x
  pub half_le : (x : D) → nought ≼ x → d.pow (d.lit 5 10) x ≼ d.lit 1 1
  pub half_anti : (x y : D) → nought ≼ x → x ≼ y → d.pow (d.lit 5 10) y ≼ d.pow (d.lit 5 10) x
  pub round_mono : (x y : D) → x ≼ y → d.round x ≼ d.round y
  pub round_nought : d.round nought ≡ nought
  pub round_hundred : d.round hundred ≡ hundred
  -- 0.7 * 100 + 0.3 * 100
  pub weights : d.plus (d.times (d.lit 7 10) hundred) (d.times (d.lit 3 10) hundred) ≡ hundred
