-- ===== src/Analytics.antt =====
-- services/ai-analytics-service/src/repositories/access-stats.repository.ts, and the consumer of
-- file-accessed events in services/ai-analytics-service/src/index.ts.
pub mod Laws
pub mod Double
pub mod Scoring
pub mod Clients
pub mod Reports
pub mod Service
pub mod Routes
use intelli_store.Prelude.{
  ℕ, ◌+◌, String, Bool, Option, none, some, List, [], ◌∷◌, ◌++◌, ◌==◌, filter, find?, includes,
  update_where,
}
use intelli_store.Effects.{Exec, pure}
use intelli_store.SharedTypes.{FileAccessedEvent}

pub record FileAccessStats : Type 0 where
  pub file_id : String
  pub access_count : ℕ
  pub first_accessed_at : Option ℕ
  pub last_accessed_at : Option ℕ

abbrev pub AccessTable : Type 0
AccessTable = List FileAccessStats

abbrev pub of_file_id : String → FileAccessStats → Bool
of_file_id file_id s = s.file_id == file_id

abbrev pub accessed_again : ℕ → FileAccessStats → FileAccessStats
accessed_again accessed_at s = record s {
  access_count = s.access_count + 1;
  last_accessed_at = some accessed_at;
}

abbrev pub first_access : String → ℕ → FileAccessStats
first_access file_id accessed_at = record {
  file_id = file_id;
  access_count = 1;
  first_accessed_at = some accessed_at;
  last_accessed_at = some accessed_at;
}

abbrev pub find_by_file_id : String → AccessTable → Option FileAccessStats
find_by_file_id file_id = find? (of_file_id file_id)

abbrev pub find_by_file_ids : List String → AccessTable → AccessTable
find_by_file_ids ids = filter (λ s. includes ids s.file_id)

abbrev recorded : Option FileAccessStats → String → ℕ → AccessTable → AccessTable
recorded (some _) file_id accessed_at =
    update_where (of_file_id file_id) (accessed_again accessed_at)
recorded none file_id accessed_at = λ rows. rows ++ first_access file_id accessed_at ∷ []

-- INSERT … ON CONFLICT (file_id) DO UPDATE.
pub record_access : String → ℕ → AccessTable → AccessTable
record_access file_id accessed_at rows =
    recorded (find_by_file_id file_id rows) file_id accessed_at rows

-- The handler of the queue.
pub handle_file_access : FileAccessedEvent → Exec AccessTable (Unit {0})
handle_file_access event rows = pure tt (record_access event.file_id event.accessed_at rows)

-- `stat?.accessCount ?? 0` and `stat?.lastAccessedAt ?? null`.
abbrev pub count_of : Option FileAccessStats → ℕ
count_of none = 0
count_of (some s) = s.access_count

abbrev pub last_of : Option FileAccessStats → Option ℕ
last_of none = none
last_of (some s) = s.last_accessed_at
