-- ===== src/Analytics/Service.antt =====
-- services/ai-analytics-service/src/services/analytics.service.ts. The requests of `Promise.all`, which
-- only read, run one after another.
pub mod Laws
pub mod Overview
use intelli_store.Prelude.{
  ℕ, zero, suc, ◌+◌, ◌-◌, String, ◌<>◌, Bool, true, false, ◌&&◌, Option, none, some, List, [], ◌∷◌,
  ◌++◌, map, filter, length, ltb, leb, eqb, if◌then◌else◌,
}
use intelli_store.Prelude.Sorting.{insertion_sort}
use intelli_store.Effects.{Exec, pure, ◌>>=◌}
use intelli_store.Analytics.{
  AccessTable, FileAccessStats, count_of, find_by_file_ids, last_of, of_file_id,
}
use intelli_store.Analytics.Double.{Double}
use intelli_store.Analytics.Scoring.{
  ScoringOptions, StorageTier, TemperatureInput, TemperatureResult, cold, hot,
  score_file_temperature,
}
use intelli_store.Analytics.Reports.{
  cold_recommendation, deduplication_recommendation, diagnostics_recommendations,
  node_capacity_recommendations,
}
use intelli_store.Analytics.Clients.{
  DiagnosticsDto, FileWithLatestVersionDto, MetadataClient, ReplicationClient, StorageNodeDto,
  SystemStatsDto,
}

pub record FileRecommendation (D : Type 0) : Type 0 where
  pub file_id : String
  pub file_name : String
  pub size_bytes : ℕ
  pub access_count : ℕ
  pub last_accessed_at : Option ℕ
  pub temperature : TemperatureResult D

-- `hot` and `cold` are the fields of `fileTemperatureBreakdown`.
pub record OverviewResult (D : Type 0) : Type 0 where
  pub storage : SystemStatsDto
  pub nodes : List StorageNodeDto
  pub diagnostics : DiagnosticsDto
  pub hot : ℕ
  pub cold : ℕ
  pub recommendations : List String

pub record AnalyticsService (D W : Type 0) : Type 0 where
  pub metadata_client : MetadataClient W
  pub replication_client : ReplicationClient W
  -- The table of the access statistics.
  pub stats : W → AccessTable
  pub scoring_options : ScoringOptions D
  -- `new Date()` for the n-th file of a list.
  pub now : ℕ → ℕ

-- `new Map(stats.map((s) => [s.fileId, s])).get(fileId)`: the last entry of an id is the one kept.
abbrev pub map_get : String → AccessTable → Option FileAccessStats
map_get file_id [] = none
map_get file_id (s ∷ stats) = elim (map_get file_id stats) [
  | none ↦ (if of_file_id file_id s then some s else none)
  | some t ↦ some t
]

abbrev size_or_zero : FileWithLatestVersionDto → ℕ
size_or_zero f = elim f.latest_version [ none ↦ 0 | some v ↦ v.size_bytes ]

abbrev pub is_hot : StorageTier → Bool
is_hot hot = true
is_hot cold = false

abbrev pub input_of : FileWithLatestVersionDto → Option FileAccessStats → TemperatureInput
input_of f stat = record {
  created_at = f.file.created_at;
  access_count = count_of stat;
  last_accessed_at = last_of stat;
}

module _ {D : Type 0} ⦃d : Double D⦄ where
  abbrev recommendation_of :
      ScoringOptions D → ℕ → AccessTable → FileWithLatestVersionDto → FileRecommendation D
  recommendation_of options now stats f =
      let stat = map_get f.file.id stats in
      record {
        file_id = f.file.id;
        file_name = f.file.file_name;
        size_bytes = size_or_zero f;
        access_count = count_of stat;
        last_accessed_at = last_of stat;
        temperature = score_file_temperature now (input_of f stat) options;
      }

  -- The callback of `map`, which reads the clock for each file.
  abbrev pub recommend_each :
      ScoringOptions D
      → (ℕ → ℕ)
      → ℕ
      → AccessTable
      → List FileWithLatestVersionDto
      → List (FileRecommendation D)
  recommend_each options now n stats [] = []
  recommend_each options now n stats (f ∷ files) =
      recommendation_of options (now n) stats f ∷ recommend_each options now (n + 1) stats files

  -- `.sort((a, b) => a.temperature.score - b.temperature.score)`, which is stable.
  abbrev pub sort_by_score : List (FileRecommendation D) → List (FileRecommendation D)
  sort_by_score = insertion_sort λ a b. d.le a.temperature.score b.temperature.score

module _ {D W : Type 0} ⦃d : Double D⦄ (S : AnalyticsService D W) where
  open S use {metadata_client, replication_client, scoring_options}

  unfoldable pub get_file_recommendations : String → Exec W (List (FileRecommendation D))
  get_file_recommendations bearer_token = do
    files ← metadata_client.list_files bearer_token
    stats ← λ w. pure (find_by_file_ids (map (λ f. f.file.id) files) (S.stats w)) w
    pure (sort_by_score (recommend_each scoring_options S.now 0 stats files))

  abbrev pub overview_of :
      SystemStatsDto
      → List StorageNodeDto
      → DiagnosticsDto
      → List (FileRecommendation D)
      → OverviewResult D
  overview_of storage nodes diagnostics files =
      let n = length (filter (λ f. is_hot f.temperature.tier) files) in
      let m = length files - n in
      record {
        storage = storage;
        nodes = nodes;
        diagnostics = diagnostics;
        hot = n;
        cold = m;
        recommendations =
            node_capacity_recommendations d nodes
            ++ diagnostics_recommendations d diagnostics
            ++ deduplication_recommendation d storage
            ++ cold_recommendation d m;
      }

  pub get_overview : String → Exec W (OverviewResult D)
  get_overview bearer_token = do
    storage ← metadata_client.get_system_stats bearer_token
    nodes ← replication_client.get_nodes bearer_token
    diagnostics ← replication_client.get_diagnostics bearer_token
    files ← get_file_recommendations bearer_token
    pure (overview_of storage nodes diagnostics files)
