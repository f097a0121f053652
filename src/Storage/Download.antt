-- ===== src/Storage/Download.antt =====
-- services/storage-service/src/services/download.service.ts.
pub mod Laws
pub mod RoundTrip
use intelli_store.Prelude.{ℕ, String, not, Option, none, some, List, [], ◌∷◌, map, ◌==◌}
use intelli_store.Effects.{
  Exec, app_error, not_found, integrity_failure, pure, throw, unless, ◌>>=◌, ◌>>◌,
}
use intelli_store.Storage.Chunking.{Bytes, concat}
use intelli_store.Storage.Interfaces.{
  StorageBackend, MetadataClient, EventPublisher, FileDetailResult, VersionDetailResult,
  FileVersionDto,
}

pub record DownloadResult : Type 0 where
  pub buffer : Bytes
  pub file_name : String
  pub mime_type : String
  pub version_number : ℕ

pub record DownloadService (W : Type 0) : Type 0 where
  pub storage_backend : StorageBackend W
  pub metadata_client : MetadataClient W
  pub event_publisher : EventPublisher W
  pub sha256 : Bytes → String
  -- `Date.now()`
  pub now : W → ℕ

-- `versionNumber ?? fileDetail.versions[0].versionNumber`, after the test that there is one.
abbrev pub target_version : Option ℕ → List FileVersionDto → Option ℕ
target_version asked [] = none
target_version none (latest ∷ _) = some latest.version_number
target_version (some n) (_ ∷ _) = some n

abbrev pub or_no_versions : {W : Type 0} → Option ℕ → Exec W ℕ
or_no_versions none = throw (app_error (not_found "File has no versions"))
or_no_versions (some n) = pure n

module _ {W : Type 0} (D : DownloadService W) where
  open D use {storage_backend, metadata_client, event_publisher, sha256, now}

  -- The reads of `Promise.all`, in their order.
  unfoldable pub get_all : List String → Exec W (List Bytes)
  get_all [] = pure []
  get_all (key ∷ keys) = do
    buffer ← storage_backend.get key
    buffers ← get_all keys
    pure (buffer ∷ buffers)

  -- The check, the event and the result, once the buffers are there.
  unfoldable pub deliver :
      String → FileDetailResult → VersionDetailResult → List Bytes → Exec W DownloadResult
  deliver file_id file_detail detail buffers =
      unless (not (sha256 (concat buffers) == detail.version.checksum))
        (app_error (integrity_failure "Reconstructed file failed checksum verification"))
        do
          accessed_at ← λ w. pure (now w) w
          event_publisher.publish_file_accessed (record {
            file_id = file_id;
            owner_id = file_detail.file.owner_id;
            file_name = file_detail.file.file_name;
            version_id = detail.version.id;
            version_number = detail.version.version_number;
            accessed_at = accessed_at;
          })
          pure (record {
            buffer = concat buffers;
            file_name = file_detail.file.file_name;
            mime_type = detail.version.mime_type;
            version_number = detail.version.version_number;
          })

  unfoldable pub download : String → String → Option ℕ → Exec W DownloadResult
  download bearer_token file_id version_number = do
    file_detail ← metadata_client.get_file_detail bearer_token file_id
    target ← or_no_versions (target_version version_number file_detail.versions)
    detail ← metadata_client.get_version_detail bearer_token file_id target
    buffers ← get_all (map (λ c. c.storage_key) detail.chunks)
    deliver file_id file_detail detail buffers
