-- ===== src/SharedTypes.antt =====
-- packages/shared-types/src/index.ts: the reply envelope and the domain events.
use intelli_store.Prelude.{ℕ, String, List}

-- `ApiResponse<T>`: `{ success: true, data }` or `{ success: false, error: { code, message } }`.
pub data ApiResponse {ℓ} (A : Type ℓ) : Type ℓ where
  success : A → ApiResponse A
  failure : String → String → ApiResponse A

pub record User : Type 0 where
  pub id : String
  pub email : String
  pub display_name : String
  pub created_at : ℕ
  pub updated_at : ℕ

pub record ChunkUploadedEvent : Type 0 where
  pub chunk_id : String
  pub storage_key : String
  pub size_bytes : ℕ

pub record ChunkUploadedBatchEvent : Type 0 where
  pub file_id : String
  pub owner_id : String
  pub file_name : String
  pub version_id : String
  pub version_number : ℕ
  pub chunks : List ChunkUploadedEvent

pub record FileAccessedEvent : Type 0 where
  pub file_id : String
  pub owner_id : String
  pub file_name : String
  pub version_id : String
  pub version_number : ℕ
  pub accessed_at : ℕ

abbrev pub events_exchange : String
events_exchange = "intellistore.events"

abbrev pub chunk_uploaded_key : String
chunk_uploaded_key = "chunk.uploaded"

abbrev pub file_accessed_key : String
file_accessed_key = "file.accessed"
