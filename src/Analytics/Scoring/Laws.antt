-- ===== src/Analytics/Scoring/Laws.antt =====
-- The temperature grows with use, and is a percentage.
use intelli_store.Prelude.{ℕ, ◌-◌, ◌≤◌, ◌≡◌, refl, inl, inr, Option, none, some, arith, Bool-cases}
use intelli_store.Analytics.Double.{Double, IsDouble, IsPositive, ◌≼◌, hundred, nought}
use intelli_store.Analytics.Scoring.{
  ScoringOptions, TemperatureInput, cold, days_since, diff_days, frequency_score, hot,
  recency_score, score_file_temperature, score_of, tier_of,
}

-- A later time, or any time where there was none.
abbrev pub IsLater : Option ℕ → Option ℕ → Type 0
IsLater none t = Unit
IsLater (some s) none = ⊥
IsLater (some s) (some t) = s ≤ t

-- A half-life and a cap for which no division goes wrong.
abbrev pub IsValid : {D : Type 0} → ⦃d : Double D⦄ → ScoringOptions D → Type 0
IsValid o = IsPositive o.recency_half_life_days × IsPositive o.frequency_cap

module _ {D : Type 0} ⦃d : Double D⦄ (law : IsDouble D) (o : ScoringOptions D)
    (valid : IsValid o) where
  open law use {
    divided_by_le, divided_by_mono, divided_by_nonneg, gt_le, half_anti, half_le, half_nonneg,
    le_trans, lit_pos, minimum_le, minimum_mono, minimum_nonneg, of_nat_mono, of_nat_nonneg,
    plus_mono, plus_nought, refl_of_le, round_hundred, round_mono, round_nought, times_comm,
    times_mono, times_nought, times_one, weights,
  }

  diff_days-nonneg : (now t : ℕ) → nought ≼ diff_days {D = D} now t
  diff_days-nonneg now t =
      divided_by_nonneg _ _ (of_nat_nonneg (now - t)) (lit_pos 86400000 (omega arith) (omega arith))

  diff_days-anti : (now s t : ℕ) → s ≤ t → diff_days {D = D} now t ≼ diff_days now s
  diff_days-anti now s t h =
      divided_by_mono _ _ _ (of_nat_mono (now - t) (now - s) (omega arith))
        (lit_pos 86400000 (omega arith) (omega arith))

  recency-nonneg : (now t : ℕ) → nought ≼ d.divided_by (diff_days now t) o.recency_half_life_days
  recency-nonneg now t = divided_by_nonneg _ _ (diff_days-nonneg now t) valid.0

  refl_nought : nought {D = D} ≼ nought
  refl_nought = (refl_of_le nought (d.of_nat 0) (of_nat_nonneg 0)).0

  refl_cap : o.frequency_cap ≼ o.frequency_cap
  refl_cap = (refl_of_le _ _ (gt_le _ _ valid.1.0)).1

  -- A positive constant keeps a number of at least nought there.
  times_nonneg :
      (n k : ℕ) (x : D)
      → 1 ≤ n
      → n ≤ 100
      → 1 ≤ k
      → k ≤ 10
      → nought ≼ x
      → nought ≼ d.times (d.lit n k) x
  times_nonneg n k x n1 n100 k1 k10 h =
      let h' : d.times (d.lit n k) nought ≼ d.times (d.lit n k) x =
        times_mono n k _ _ n1 n100 k1 k10 h in
      rw (times_nought n k n100 k1 k10) at h'

  recency_score-nonneg :
      (now : ℕ) (last : Option ℕ) → nought ≼ recency_score o (days_since now last)
  recency_score-nonneg now none = refl_nought
  recency_score-nonneg now (some t) =
      times_nonneg 100 1 _ (omega arith) (omega arith) (omega arith) (omega arith)
        (half_nonneg _ (recency-nonneg now t))

  recency_score-le : (now : ℕ) (last : Option ℕ) → recency_score o (days_since now last) ≼ hundred
  recency_score-le now none = gt_le _ _ (lit_pos 100 (omega arith) (omega arith)).0
  recency_score-le now (some t) =
      let h : recency_score o (days_since now (some t)) ≼ d.times hundred (d.lit 1 1) =
        times_mono 100 1 _ _ (omega arith) (omega arith) (omega arith) (omega arith)
          (half_le _ (recency-nonneg now t)) in
      rw (times_one 100 1 (omega arith) (omega arith) (omega arith)) at h

  recency_score-mono :
      (now : ℕ) (s t : Option ℕ)
      → IsLater s t
      → recency_score o (days_since now s) ≼ recency_score o (days_since now t)
  recency_score-mono now none t h = recency_score-nonneg now t
  recency_score-mono now (some s) none h = absurd h
  recency_score-mono now (some s) (some t) h =
      times_mono 100 1 _ _ (omega arith) (omega arith) (omega arith) (omega arith) (
        half_anti _ _ (recency-nonneg now t)
          (divided_by_mono _ _ _ (diff_days-anti now s t h) valid.0))

  capped-refl : (n : ℕ) → d.of_nat n ≼ d.of_nat n
  capped-refl n = of_nat_mono n n (omega arith)

  frequency_score-nonneg : (n : ℕ) → nought ≼ frequency_score o n
  frequency_score-nonneg n = rw (times_comm _ hundred) (
      times_nonneg 100 1 _ (omega arith) (omega arith) (omega arith) (omega arith) (
        divided_by_nonneg _ _ (minimum_nonneg _ _ (of_nat_nonneg n) (gt_le _ _ valid.1.0)) valid.1))

  frequency_score-le : (n : ℕ) → frequency_score o n ≼ hundred
  frequency_score-le n =
      let capped = d.divided_by (d.minimum (d.of_nat n) o.frequency_cap) o.frequency_cap in
      let h : d.times hundred capped ≼ d.times hundred (d.lit 1 1) =
        times_mono 100 1 _ _ (omega arith) (omega arith) (omega arith) (omega arith)
          (divided_by_le _ _ (minimum_le _ _ (capped-refl n) refl_cap) valid.1) in
      rw (times_comm capped hundred)
        (rw (times_one 100 1 (omega arith) (omega arith) (omega arith)) at h)

  frequency_score-mono : (m n : ℕ) → m ≤ n → frequency_score o m ≼ frequency_score o n
  frequency_score-mono m n h =
      rw
        (
          times_comm _ hundred,
          times_comm (d.divided_by (d.minimum (d.of_nat n) o.frequency_cap) o.frequency_cap)
              hundred,
        )
        (times_mono 100 1 _ _ (omega arith) (omega arith) (omega arith) (omega arith)
          (divided_by_mono _ _ _ (minimum_mono _ _ _ (of_nat_mono m n h) refl_cap) valid.1))

  -- The two parts with their weights.
  weighted-mono :
      (r r' f f' : D)
      → nought ≼ r
      → r ≼ r'
      → nought ≼ f
      → f ≼ f'
      → d.round (d.plus (d.times (d.lit 7 10) r) (d.times (d.lit 3 10) f))
        ≼ d.round (d.plus (d.times (d.lit 7 10) r') (d.times (d.lit 3 10) f'))
  weighted-mono r r' f f' r0 rr f0 ff = round_mono _ _ (
      plus_mono _ _ _ _
        (times_nonneg 7 10 r (omega arith) (omega arith) (omega arith) (omega arith) r0)
        (times_mono 7 10 r r' (omega arith) (omega arith) (omega arith) (omega arith) rr)
        (times_nonneg 3 10 f (omega arith) (omega arith) (omega arith) (omega arith) f0)
        (times_mono 3 10 f f' (omega arith) (omega arith) (omega arith) (omega arith) ff))

  -- A score is a percentage.
  pub score_of-IsPercentage :
      (now : ℕ) (x : TemperatureInput) → (nought ≼ score_of now x o) × (score_of now x o ≼ hundred)
  score_of-IsPercentage now x =
      let r0 = recency_score-nonneg now x.last_accessed_at in
      let f0 = frequency_score-nonneg x.access_count in
      let low = weighted-mono nought _ nought _ refl_nought r0 refl_nought f0 in
      let high =
        weighted-mono _ hundred _ hundred r0 (recency_score-le now x.last_accessed_at) f0
          (frequency_score-le x.access_count) in
      (
        rw
            (
              times_nought 7 10 (omega arith) (omega arith) (omega arith),
              times_nought 3 10 (omega arith) (omega arith) (omega arith),
              plus_nought,
              round_nought,
            )
            at low,
        rw (weights, round_hundred) at high,
      )

  tier_of-hot : (s t : D) → s ≼ t → tier_of o s ≡ hot → tier_of o t ≡ hot
  tier_of-hot s t h e = elim (Bool-cases (d.le o.hot_threshold s)) [
    | inl b ↦ rw (le_trans _ _ _ b h) refl
    | inr b ↦ absurd (let x : cold ≡ hot = rw b at e in cc)
  ]

  -- Under laws of floating-point numbers, and with a positive, finite half-life and cap: a score is
  -- between 0 and 100, and a file that was accessed at least as often, and at least as late, as
  -- another has no lower score, and is hot if the other is.
  pub score_file_temperature_mono :
      (now : ℕ) (x y : TemperatureInput)
      → x.access_count ≤ y.access_count
      → IsLater x.last_accessed_at y.last_accessed_at
      → let a = score_file_temperature now x o in
        let b = score_file_temperature now y o in
        (nought ≼ a.score)
        × (a.score ≼ b.score)
        × (b.score ≼ hundred)
        × (a.tier ≡ hot → b.tier ≡ hot)
  unfolding score_file_temperature
  score_file_temperature_mono now x y count late =
      let le =
        weighted-mono _ _ _ _ (recency_score-nonneg now x.last_accessed_at)
          (recency_score-mono now _ _ late) (frequency_score-nonneg x.access_count)
          (frequency_score-mono _ _ count) in
      ((score_of-IsPercentage now x).0, le, (score_of-IsPercentage now y).1, tier_of-hot _ _ le)
