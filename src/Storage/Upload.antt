-- ===== src/Storage/Upload.antt =====
-- services/storage-service/src/services/upload.service.ts. The class's fields are the record
-- `UploadService`; the log lines are left out.
pub mod Dedup
pub mod Counts
pub mod Stored
pub mod Cleanup
pub mod Failure
use intelli_store.Prelude.{
  ℕ, ◌+◌, String, ◌<>◌, List, [], ◌∷◌, ◌++◌, map, length, eqb, if◌then◌else◌,
}
use intelli_store.Effects.{
  Exec, app_error, never_returns, bad_request, pure, throw, catch, unless, or_throw, ◌>>=◌, ◌>>◌,
}
use intelli_store.SharedTypes.{ChunkUploadedEvent}
use intelli_store.Storage.Chunking.{Bytes, ChunkPiece, split_into_chunks}
use intelli_store.Storage.Interfaces.{
  StorageBackend, MetadataClient, EventPublisher, ChunkPayload, AddVersionPayload,
  RegisterFileResult, VersionDetailResult, ChunkDto,
}

pub record DedupInfo : Type 0 where
  pub total_chunks : ℕ
  pub stored_chunks : ℕ
  pub deduped_chunks : ℕ
  pub bytes_saved : ℕ

-- What `storeChunks` returns.
pub record StoredChunks : Type 0 where
  pub newly_written_keys : List String
  pub payload : AddVersionPayload
  pub dedup : DedupInfo

-- The loop's variables.
pub record Progress : Type 0 where
  pub newly_written_keys : List String
  pub deduped_chunks : ℕ
  pub bytes_saved : ℕ

abbrev pub no_progress : Progress
no_progress = record { newly_written_keys = []; deduped_chunks = 0; bytes_saved = 0 }

-- The key is the chunk's checksum.
abbrev pub chunk_key : String → String
chunk_key checksum = "chunks/" <> checksum

abbrev pub payload_of : ChunkPiece → ChunkPayload
payload_of piece = record {
  chunk_index = piece.index;
  size_bytes = piece.size_bytes;
  checksum = piece.checksum;
  storage_key = chunk_key piece.checksum;
}

abbrev pub event_chunk : ChunkDto → ChunkUploadedEvent
event_chunk chunk = record {
  chunk_id = chunk.id;
  storage_key = chunk.storage_key;
  size_bytes = chunk.size_bytes;
}

pub record UploadService (W : Type 0) : Type 0 where
  pub storage_backend : StorageBackend W
  pub metadata_client : MetadataClient W
  pub event_publisher : EventPublisher W
  pub chunk_size_bytes : ℕ
  pub sha256 : Bytes → String

module _ {W : Type 0} (B : StorageBackend W) where
  -- One round of the loop in `storeChunks`.
  unfoldable pub store_piece : ChunkPiece → Progress → Exec W Progress
  store_piece piece acc = do
    found ← B.exists (chunk_key piece.checksum)
    if found
        then pure (record acc {
          deduped_chunks = acc.deduped_chunks + 1;
          bytes_saved = acc.bytes_saved + piece.size_bytes;
        })
        else do
          B.put (chunk_key piece.checksum) piece.bytes
          pure (record acc {
            newly_written_keys = acc.newly_written_keys ++ chunk_key piece.checksum ∷ [];
          })

  unfoldable pub store_pieces : List ChunkPiece → Progress → Exec W Progress
  store_pieces [] acc = pure acc
  store_pieces (piece ∷ pieces) acc = do acc' ← store_piece piece acc; store_pieces pieces acc'

  -- `Promise.allSettled` of the deletions: their outcomes are dropped.
  unfoldable pub delete_all : List String → W → W
  delete_all [] w = w
  delete_all (key ∷ keys) w = delete_all keys (B.delete key w).1

  unfoldable pub register_with_cleanup : {A : Type 0} → List String → Exec W A → Exec W A
  register_with_cleanup keys register = catch register (λ e w. throw e (delete_all keys w))

abbrev pub stored_chunks :
    (Bytes → String) → Bytes → String → List ChunkPiece → Progress → StoredChunks
stored_chunks sha256 buffer mime_type pieces acc = record {
  newly_written_keys = acc.newly_written_keys;
  payload = record {
    mime_type = mime_type;
    checksum = sha256 buffer;
    chunks = map payload_of pieces;
  };
  dedup = record {
    total_chunks = length pieces;
    stored_chunks = length acc.newly_written_keys;
    deduped_chunks = acc.deduped_chunks;
    bytes_saved = acc.bytes_saved;
  };
}

module _ {W : Type 0} (U : UploadService W) where
  open U use {storage_backend, metadata_client, event_publisher, chunk_size_bytes, sha256}

  unfoldable pub store_chunks : Bytes → String → Exec W StoredChunks
  store_chunks buffer mime_type =
      unless (eqb (length buffer) 0) (app_error (bad_request "Cannot upload an empty file")) do
        pieces ← or_throw (split_into_chunks sha256 buffer chunk_size_bytes) never_returns
        acc ← store_pieces storage_backend pieces no_progress
        pure (stored_chunks sha256 buffer mime_type pieces acc)

  unfoldable pub upload_new_file :
      String → String → String → Bytes → Exec W (RegisterFileResult × DedupInfo)
  upload_new_file bearer_token file_name mime_type buffer = do
    stored ← store_chunks buffer mime_type
    result ← register_with_cleanup storage_backend stored.newly_written_keys (
        metadata_client.register_file bearer_token
          (record { file_name = file_name; version = stored.payload }))
    event_publisher.publish_chunk_uploaded (record {
      file_id = result.file.id;
      owner_id = result.file.owner_id;
      file_name = result.file.file_name;
      version_id = result.version.id;
      version_number = result.version.version_number;
      chunks = map event_chunk result.chunks;
    })
    pure (result, stored.dedup)

  pub upload_new_version :
      String → String → String → Bytes → Exec W (VersionDetailResult × DedupInfo)
  upload_new_version bearer_token file_id mime_type buffer = do
    stored ← store_chunks buffer mime_type
    result ←
        register_with_cleanup storage_backend stored.newly_written_keys
          (metadata_client.add_version bearer_token file_id stored.payload)
    detail ← metadata_client.get_file_detail bearer_token file_id
    event_publisher.publish_chunk_uploaded (record {
      file_id = file_id;
      owner_id = detail.file.owner_id;
      file_name = detail.file.file_name;
      version_id = result.version.id;
      version_number = result.version.version_number;
      chunks = map event_chunk result.chunks;
    })
    pure (result, stored.dedup)
