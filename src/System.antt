-- ===== src/System.antt =====
-- The storage service and the metadata service together: what services/storage-service/src/clients/metadata.client.ts
-- sends is handled by the routes of services/metadata-service/src/routes/file.route.ts. The world is a pair: the
-- storage service's own, and the metadata service's database.
pub mod Catalogue
pub mod Storing
pub mod Payloads
pub mod RoundTrip
use intelli_store.Prelude.{
  ℕ, String, ◌<>◌, ◌≡◌, false, Option, none, some, List, [], ◌∷◌, map, ◌==◌,
}
use intelli_store.Effects.{
  AppError, Exec, Failure, Result, app_error, bad_gateway, err, error, never_returns, ok,
}
use intelli_store.SharedTypes.{failure, success}
use intelli_store.Http.{Reply, json, no_body, no_reply}
use intelli_store.Storage.Interfaces.{
  AddVersionPayload, ChunkDto, ChunkPayload, EventPublisher, FileDetailResult, FileRecordDto,
  FileVersionDto, MetadataClient, RegisterFilePayload, RegisterFileResult, StorageBackend,
  VersionDetailResult,
}
use intelli_store.Storage.Client as Client
use intelli_store.Storage.Client.{Fetch, Fetched, not_json, replied, unreachable}
use intelli_store.Metadata.Files.{ChunkInput, ChunkRecord, Database, FileRecord, FileVersionRecord}
use intelli_store.Metadata.Service.{
  CreateFileInput, CreateVersionInput, FileDetail, RegisteredFile, VersionDetail,
}
use intelli_store.Metadata.Routes as Routes
use intelli_store.Metadata.Routes.{
  App, Body, Payload, detail, handle, other, received_json, registered, typed, version,
}

-- The rows as the client reads them back: JSON keeps the names of the fields.
abbrev file_dto : FileRecord → FileRecordDto
file_dto f = record {
  id = f.id;
  owner_id = f.owner_id;
  file_name = f.file_name;
  is_deleted = f.is_deleted;
  created_at = f.created_at;
  updated_at = f.updated_at;
}

abbrev version_dto : FileVersionRecord → FileVersionDto
version_dto v = record {
  id = v.id;
  file_id = v.file_id;
  version_number = v.version_number;
  size_bytes = v.size_bytes;
  mime_type = v.mime_type;
  checksum = v.checksum;
  created_at = v.created_at;
}

abbrev pub chunk_dto : ChunkRecord → ChunkDto
chunk_dto c = record {
  id = c.id;
  file_version_id = c.file_version_id;
  chunk_index = c.chunk_index;
  size_bytes = c.size_bytes;
  checksum = c.checksum;
  storage_key = c.storage_key;
}

abbrev pub registered_dto : RegisteredFile → RegisterFileResult
registered_dto r = record {
  file = file_dto r.file;
  version = version_dto r.version;
  chunks = map chunk_dto r.chunks;
}

abbrev pub file_detail_dto : FileDetail → FileDetailResult
file_detail_dto r = record { file = file_dto r.file; versions = map version_dto r.versions }

abbrev pub version_detail_dto : VersionDetail → VersionDetailResult
version_detail_dto r = record { version = version_dto r.version; chunks = map chunk_dto r.chunks }

-- What the client sends, as the service's schemas read it.
abbrev pub chunk_input : ChunkPayload → ChunkInput
chunk_input c = record {
  chunk_index = c.chunk_index;
  size_bytes = c.size_bytes;
  checksum = c.checksum;
  storage_key = c.storage_key;
}

abbrev pub version_input : AddVersionPayload → CreateVersionInput
version_input p = record {
  mime_type = p.mime_type;
  checksum = p.checksum;
  chunks = map chunk_input p.chunks;
}

-- The payloads of the replies, each where the client expects it.
abbrev pub as_registered : Payload → Option RegisterFileResult
as_registered (registered r) = some (registered_dto r)
as_registered _ = none

abbrev pub as_version : Payload → Option VersionDetailResult
as_version (version r) = some (version_detail_dto r)
as_version _ = none

abbrev pub as_detail : Payload → Option FileDetailResult
as_detail (detail r) = some (file_detail_dto r)
as_detail _ = none

abbrev method_of : Client.Method → Routes.Method
method_of Client.get = Routes.get
method_of Client.post = Routes.post

abbrev expected : {R : Type 0} → ℕ → Option R → Fetched R
expected status none = not_json "no payload of this type"
expected status (some r) = replied status (success r)

abbrev pub fetched : {R : Type 0} → (Payload → Option R) → Reply Payload → Fetched R
fetched read (json status (success p)) = expected status (read p)
fetched read (json status (failure code message)) = replied status (failure code message)
fetched read (no_body status) = not_json "Unexpected end of JSON input"
fetched read no_reply = unreachable

-- How an error of the metadata service reaches the storage service.
abbrev pub over_http : Failure → Failure
over_http (app_error e) = app_error e
over_http (error message) =
    app_error
      (record { status_code = 500; code = "INTERNAL_ERROR"; message = "Internal server error" })
over_http never_returns = app_error (bad_gateway "Metadata service is unreachable")

abbrev pub answered : {R S : Type 0} → (R → S) → Result R → Result S
answered dto (ok r) = ok (dto r)
answered dto (err e) = err (over_http e)

-- `segments` splits and decodes a path.
abbrev received : (String → List String) → Client.Request → Body → Routes.Request
received segments r body = record {
  method = method_of r.method;
  path = segments r.path;
  q = none;
  authorization = some ("Bearer " <> r.bearer_token);
  body = body;
}

-- A body of JSON as it arrives, `json_bytes` being the bytes of what `JSON.stringify` makes of one.
abbrev sent_json : (Body → ℕ) → Body → Body
sent_json json_bytes b = received_json (json_bytes b) b

module _ {W : Type 0} where
  -- An operation of the storage service's own world, and one of the metadata service, called from it.
  abbrev pub in_storage : {R : Type 0} → Exec W R → Exec (W × Database) R
  in_storage m v = let (r, w) = m v.0 in (r, (w, v.1))

  abbrev pub remote : {R S : Type 0} → (R → S) → Exec Database R → Exec (W × Database) S
  remote dto m v = let (r, d) = m v.1 in (answered dto r, (v.0, d))

  abbrev pub backend_in : StorageBackend W → StorageBackend (W × Database)
  backend_in B = record {
    put = λ k bytes. in_storage (B.put k bytes);
    get = λ k. in_storage (B.get k);
    delete = λ k. in_storage (B.delete k);
    exists = λ k. in_storage (B.exists k);
  }

  abbrev pub publisher_in : EventPublisher W → EventPublisher (W × Database)
  publisher_in P = record {
    publish_chunk_uploaded = λ e. in_storage (P.publish_chunk_uploaded e);
    publish_file_accessed = λ e. in_storage (P.publish_file_accessed e);
  }

  -- `show` prints a number.
  module _ (A : App) (segments : String → List String) (show : ℕ → String)
      (json_bytes : Body → ℕ) where
    abbrev ask :
        {R : Type 0}
        → (Payload → Option R)
        → Routes.Request
        → W × Database
        → Fetched R × (W × Database)
    ask read r v = let (reply, d) = handle A r v.1 in (fetched read reply, (v.0, d))

    abbrev fetch : Fetch (W × Database)
    fetch = record {
      fetch_registration = λ r p. ask as_registered (
          received segments r
            (sent_json json_bytes (typed (some p.file_name) (version_input p.version))));
      fetch_version = λ r p.
          ask as_version
            (received segments r (sent_json json_bytes (typed none (version_input p))));
      fetch_file_detail = λ r. ask as_detail (received segments r other);
      fetch_version_detail = λ r. ask as_version (received segments r other);
      show = show;
    }

    abbrev pub metadata_client_in : MetadataClient (W × Database)
    metadata_client_in = Client.http_metadata_client fetch
