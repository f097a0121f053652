-- ===== src/Examples/Analysing.antt =====
-- services/ai-analytics-service: two files, one of them accessed twice, and one node that is nearly full.
use mathlib.Core.List.{Permᴰ}
use intelli_store.Prelude.{
  ℕ, ◌+◌, String, ◌≡◌, refl, true, false, none, some, List, [], ◌∷◌, map, arith, All,
}
use intelli_store.Prelude.Sorting.{Sorted}
use intelli_store.Effects.{ok, pure}
use intelli_store.Analytics.{AccessTable}
use intelli_store.Analytics.Double.{◌≼◌, hundred, nought}
use intelli_store.Analytics.Scoring.{ScoringOptions, TemperatureInput, hot, score_file_temperature}
use intelli_store.Analytics.Scoring.Laws.{score_file_temperature_mono}
use intelli_store.Analytics.Clients.{
  DiagnosticsDto, FileWithLatestVersionDto, StorageNodeDto, SystemStatsDto,
}
use intelli_store.Analytics.Service.{AnalyticsService, FileRecommendation, get_file_recommendations}
use intelli_store.Analytics.Service.Laws.{IsEntry, get_file_recommendations-IsRanking}
use intelli_store.Examples.Thousandths.{thousandths, thousandths-IsDouble}

abbrev options : ScoringOptions ℕ
options = record {
  recency_half_life_days = 14000;
  frequency_cap = 20000;
  hot_threshold = 50000;
  cold_age_threshold_days = 30000;
}

abbrev files : List FileWithLatestVersionDto
files = file "f" ∷ file "g" ∷ []
  where
    file : String → FileWithLatestVersionDto
    file id = record {
      file = record {
        id = id;
        owner_id = "alice";
        file_name = "notes.txt";
        is_deleted = false;
        created_at = 0;
        updated_at = 0;
      };
      latest_version = none;
    }

abbrev rows : AccessTable
rows =
    record {
      file_id = "f";
      access_count = 2;
      first_accessed_at = some 5;
      last_accessed_at = some 7;
    }
    ∷ []

abbrev node : StorageNodeDto
node = record {
  id = "1";
  name = "a";
  bucket = "a";
  is_healthy = true;
  last_heartbeat_at = none;
  capacity_bytes = 10;
  used_bytes = 9;
}

abbrev stats : SystemStatsDto
stats = record {
  total_files = 2;
  total_versions = 0;
  total_chunks = 0;
  total_bytes = 0;
  logical_chunk_bytes = 5;
  physical_chunk_bytes = 3;
  deduped_bytes = 2;
}

abbrev diagnostics : DiagnosticsDto
diagnostics = record {
  total_nodes = 1;
  healthy_nodes = 1;
  unhealthy_nodes = 0;
  under_replicated_chunk_count = 3;
}

abbrev service : AnalyticsService ℕ AccessTable
service = record {
  metadata_client = record { list_files = λ t. pure files; get_system_stats = λ t. pure stats };
  replication_client = record {
    get_nodes = λ t. pure (node ∷ []);
    get_diagnostics = λ t. pure diagnostics;
  };
  stats = λ w. w;
  scoring_options = options;
  now = λ n. 10 + n;
}

abbrev seen : ℕ → ℕ → TemperatureInput
seen count last = record { created_at = 0; access_count = count; last_accessed_at = some last }

score_file_temperature_mono_example :
    let a = score_file_temperature 10 (seen 2 5) options in
    let b = score_file_temperature 10 (seen 3 7) options in
    (nought ≼ a.score) × (a.score ≼ b.score) × (b.score ≼ hundred) × (a.tier ≡ hot → b.tier ≡ hot)
score_file_temperature_mono_example =
    score_file_temperature_mono thousandths-IsDouble options ((refl, refl), (refl, refl)) 10
      (seen 2 5) (seen 3 7) (omega arith) (omega arith)

get_file_recommendations-IsRanking_example :
    (rs : List (FileRecommendation ℕ)) × (get_file_recommendations service "token" rows
      ≡ (ok rs, rows))
    × Permᴰ (map (λ r. r.file_id) rs) (map (λ f. f.file.id) files)
    × All (IsEntry service rows) rs
    × Sorted (λ a b. a.temperature.score ≼ b.temperature.score) rs
get_file_recommendations-IsRanking_example =
    get_file_recommendations-IsRanking service thousandths-IsDouble ((refl, refl), (refl, refl))
      rows (tt, tt) "token" rows rows files refl refl
