-- ===== src/Analytics/Scoring.antt =====
-- services/ai-analytics-service/src/scoring/temperature-scoring.ts. Instants are milliseconds.
pub mod Laws
use intelli_store.Prelude.{
  ℕ, ◌-◌, String, ◌<>◌, Bool, true, false, ◌&&◌, not, Option, none, some, eqb, if◌then◌else◌,
}
use intelli_store.Analytics.Double.{Double, nought, hundred}

pub data StorageTier : Type 0 where
  hot cold : StorageTier

-- The optional `now` is an argument of its own.
pub record TemperatureInput : Type 0 where
  pub created_at : ℕ
  pub access_count : ℕ
  pub last_accessed_at : Option ℕ

pub record ScoringOptions (D : Type 0) : Type 0 where
  pub recency_half_life_days : D
  pub frequency_cap : D
  pub hot_threshold : D
  pub cold_age_threshold_days : D

pub record TemperatureResult (D : Type 0) : Type 0 where
  pub score : D
  pub tier : StorageTier
  pub recommendation : String

abbrev times_word : ℕ → String
times_word access_count = if eqb access_count 1 then "" else "s"

module _ {D : Type 0} ⦃d : Double D⦄ where
  -- The difference of two instants stops at 0, which is what `Math.max(0, …)` makes of it.
  abbrev pub diff_days : ℕ → ℕ → D
  diff_days later earlier = d.divided_by (d.of_nat (later - earlier)) (d.lit 86400000 1)

  abbrev pub days_since : ℕ → Option ℕ → Option D
  days_since now none = none
  days_since now (some t) = some (diff_days now t)

  abbrev pub recency_score : ScoringOptions D → Option D → D
  recency_score options none = nought
  recency_score options (some recency_days) =
      d.times hundred
        (d.pow (d.lit 5 10) (d.divided_by recency_days options.recency_half_life_days))

  abbrev pub frequency_score : ScoringOptions D → ℕ → D
  frequency_score options access_count =
      d.times
        (d.divided_by (d.minimum (d.of_nat access_count) options.frequency_cap)
          options.frequency_cap)
        hundred

  abbrev pub tier_of : ScoringOptions D → D → StorageTier
  tier_of options score = if d.le options.hot_threshold score then hot else cold

  -- `ageDays < options.coldAgeThresholdDays`
  abbrev too_new : ScoringOptions D → D → ℕ → Bool
  too_new options age_days access_count =
      eqb access_count 0 && d.gt options.cold_age_threshold_days age_days

  abbrev not_accessed : D → Option D → String
  not_accessed age_days none =
      ("Never accessed since upload " <> d.show (d.round age_days))
      <> " day(s) ago — consider archiving."
  not_accessed age_days (some recency_days) =
      ("Not accessed in " <> d.show (d.round recency_days))
      <> " day(s) — consider moving to cold/archive storage."

  abbrev pub build_recommendation : StorageTier → D → Option D → ℕ → ScoringOptions D → String
  build_recommendation hot age_days recency_days access_count options =
      ((("Frequently accessed (" <> d.show (d.of_nat access_count)) <> " time")
        <> times_word access_count)
      <> ") — keep on hot storage."
  build_recommendation cold age_days recency_days access_count options =
      if too_new options age_days access_count
      then ("Uploaded " <> d.show (d.round age_days))
        <> " day(s) ago with no accesses yet — too new to classify confidently."
      else not_accessed age_days recency_days

  abbrev pub score_of : ℕ → TemperatureInput → ScoringOptions D → D
  score_of now input options = d.round (
      d.plus (d.times (d.lit 7 10) (recency_score options (days_since now input.last_accessed_at)))
        (d.times (d.lit 3 10) (frequency_score options input.access_count)))

  unfoldable pub score_file_temperature :
      ℕ → TemperatureInput → ScoringOptions D → TemperatureResult D
  score_file_temperature now input options =
      let age_days = diff_days now input.created_at in
      let recency_days = days_since now input.last_accessed_at in
      let score = score_of now input options in
      let tier = tier_of options score in
      record {
        score = score;
        tier = tier;
        recommendation = build_recommendation tier age_days recency_days input.access_count options;
      }
