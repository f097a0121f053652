-- ===== src/Analytics/Clients.antt =====
-- services/ai-analytics-service/src/clients: metadata.client.ts and replication.client.ts, over `fetch`.
use intelli_store.Prelude.{ℕ, String, Bool, Option, List}
use intelli_store.Effects.{Exec, Result, ok, err, error, app_error, bad_gateway}
use intelli_store.SharedTypes.{success, failure}
use intelli_store.Storage.Interfaces.{FileRecordDto, FileVersionDto}
use intelli_store.Storage.Client.{Fetched, Request, get, not_json, replied, unreachable}

-- A file's record and version have the fields that the storage service's client gives them.
pub record FileWithLatestVersionDto : Type 0 where
  pub file : FileRecordDto
  pub latest_version : Option FileVersionDto

pub record SystemStatsDto : Type 0 where
  pub total_files : ℕ
  pub total_versions : ℕ
  pub total_chunks : ℕ
  pub total_bytes : ℕ
  pub logical_chunk_bytes : ℕ
  pub physical_chunk_bytes : ℕ
  pub deduped_bytes : ℕ

pub record StorageNodeDto : Type 0 where
  pub id : String
  pub name : String
  pub bucket : String
  pub is_healthy : Bool
  pub last_heartbeat_at : Option ℕ
  pub capacity_bytes : ℕ
  pub used_bytes : ℕ

pub record DiagnosticsDto : Type 0 where
  pub total_nodes : ℕ
  pub healthy_nodes : ℕ
  pub unhealthy_nodes : ℕ
  pub under_replicated_chunk_count : ℕ

pub record MetadataClient (W : Type 0) : Type 0 where
  pub list_files : String → Exec W (List FileWithLatestVersionDto)
  pub get_system_stats : String → Exec W SystemStatsDto

pub record ReplicationClient (W : Type 0) : Type 0 where
  pub get_nodes : String → Exec W (List StorageNodeDto)
  pub get_diagnostics : String → Exec W DiagnosticsDto

-- `fetch` for each type of reply.
pub record Fetch (W : Type 0) : Type 0 where
  pub fetch_files : Request → W → Fetched (List FileWithLatestVersionDto) × W
  pub fetch_stats : Request → W → Fetched SystemStatsDto × W
  pub fetch_nodes : Request → W → Fetched (List StorageNodeDto) × W
  pub fetch_diagnostics : Request → W → Fetched DiagnosticsDto × W

-- What a `request` makes of the reply; `service` is the name in the message.
abbrev reply_of : {A : Type 0} → String → Fetched A → Result A
reply_of message unreachable = err (app_error (bad_gateway message))
reply_of message (not_json parser) = err (error parser)
reply_of message (replied status (failure code m)) =
    err (app_error (record { status_code = status; code = code; message = m }))
reply_of message (replied status (success a)) = ok a

module _ {W : Type 0} (F : Fetch W) where
  abbrev metadata_request :
      {A : Type 0} → (Request → W → Fetched A × W) → String → String → Exec W A
  metadata_request fetch path bearer_token w =
      let (r, w') = fetch (record { method = get; path = path; bearer_token = bearer_token }) w in
      (reply_of "Metadata service is unreachable" r, w')

  abbrev replication_request :
      {A : Type 0} → (Request → W → Fetched A × W) → String → String → Exec W A
  replication_request fetch path bearer_token w =
      let (r, w') = fetch (record { method = get; path = path; bearer_token = bearer_token }) w in
      (reply_of "Replication service is unreachable" r, w')

  abbrev pub http_metadata_client : MetadataClient W
  http_metadata_client = record {
    list_files = metadata_request F.fetch_files "/files";
    get_system_stats = metadata_request F.fetch_stats "/files/_stats";
  }

  abbrev pub http_replication_client : ReplicationClient W
  http_replication_client = record {
    get_nodes = replication_request F.fetch_nodes "/nodes";
    get_diagnostics = replication_request F.fetch_diagnostics "/diagnostics";
  }
