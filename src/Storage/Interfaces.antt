-- ===== src/Storage/Interfaces.antt =====
-- What the storage service's classes are given: the storage backend, the client of the metadata
-- service and the event publisher (storage/storage-backend.ts, clients/metadata.client.ts,
-- events/event-publisher.ts). `W` is the world that they act on.
use intelli_store.Prelude.{ℕ, String, ◌≡◌, ◌≢◌, ◌⊎◌, Bool, true, false, Option, none, some, List}
use intelli_store.Effects.{Exec, ok}
use intelli_store.SharedTypes.{ChunkUploadedBatchEvent, FileAccessedEvent}
use intelli_store.Storage.Chunking.{Bytes}

pub record StorageBackend (W : Type 0) : Type 0 where
  pub put : String → Bytes → Exec W (Unit {0})
  pub get : String → Exec W Bytes
  pub delete : String → Exec W (Unit {0})
  pub exists : String → Exec W Bool

pub record ChunkPayload : Type 0 where
  pub chunk_index : ℕ
  pub size_bytes : ℕ
  pub checksum : String
  pub storage_key : String

pub record AddVersionPayload : Type 0 where
  pub mime_type : String
  pub checksum : String
  pub chunks : List ChunkPayload

pub record RegisterFilePayload : Type 0 where
  pub file_name : String
  pub version : AddVersionPayload
  pub open version use *

-- Instants are numbers of milliseconds.
pub record FileRecordDto : Type 0 where
  pub id : String
  pub owner_id : String
  pub file_name : String
  pub is_deleted : Bool
  pub created_at : ℕ
  pub updated_at : ℕ

pub record FileVersionDto : Type 0 where
  pub id : String
  pub file_id : String
  pub version_number : ℕ
  pub size_bytes : ℕ
  pub mime_type : String
  pub checksum : String
  pub created_at : ℕ

pub record ChunkDto : Type 0 where
  pub id : String
  pub file_version_id : String
  pub chunk_index : ℕ
  pub size_bytes : ℕ
  pub checksum : String
  pub storage_key : String

pub record RegisterFileResult : Type 0 where
  pub file : FileRecordDto
  pub version : FileVersionDto
  pub chunks : List ChunkDto

pub record FileDetailResult : Type 0 where
  pub file : FileRecordDto
  pub versions : List FileVersionDto

pub record VersionDetailResult : Type 0 where
  pub version : FileVersionDto
  pub chunks : List ChunkDto

pub record MetadataClient (W : Type 0) : Type 0 where
  pub register_file : String → RegisterFilePayload → Exec W RegisterFileResult
  pub add_version : String → String → AddVersionPayload → Exec W VersionDetailResult
  pub get_file_detail : String → String → Exec W FileDetailResult
  pub get_version_detail : String → String → ℕ → Exec W VersionDetailResult

pub record EventPublisher (W : Type 0) : Type 0 where
  pub publish_chunk_uploaded : ChunkUploadedBatchEvent → Exec W (Unit {0})
  pub publish_file_accessed : FileAccessedEvent → Exec W (Unit {0})

-- What an object store promises of its objects, `object w k` being what is stored under `k`. A
-- failed `put` may have written all the same; `exists` may answer `false` for an object that is
-- there, since both backends answer so on any error.
pub record IsObjectStore {W : Type 0} (B : StorageBackend W) (object : W → String → Option Bytes)
    : Type 0 where
  pub put-ok :
      (k : String) (d : Bytes) (w : W) → (B.put k d w).0 ≡ ok tt → object (B.put k d w).1 k ≡ some d
  pub put_self :
      (k : String) (d : Bytes) (w : W)
      → (object (B.put k d w).1 k ≡ object w k) ⊎ (object (B.put k d w).1 k ≡ some d)
  pub put_ne :
      (k : String) (d : Bytes) (w : W) (j : String) → j ≢ k → object (B.put k d w).1 j ≡ object w j
  pub exists_same : (k : String) (w : W) (j : String) → object (B.exists k w).1 j ≡ object w j
  pub exists-true : (k : String) (w : W) → (B.exists k w).0 ≡ ok true → object w k ≢ none
  pub get_same : (k : String) (w : W) (j : String) → object (B.get k w).1 j ≡ object w j
  pub get-ok : (k : String) (w : W) (d : Bytes) → (B.get k w).0 ≡ ok d → object w k ≡ some d
  pub delete_ne : (k : String) (w : W) (j : String) → j ≢ k → object (B.delete k w).1 j ≡ object w j

-- A backend without transient errors: `exists` tells the truth and `delete` deletes.
pub record IsReliable {W : Type 0} (B : StorageBackend W) (object : W → String → Option Bytes)
    : Type 0 where
  pub exists-false : (k : String) (w : W) → (B.exists k w).0 ≡ ok false → object w k ≡ none
  pub delete_self : (k : String) (w : W) → object (B.delete k w).1 k ≡ none
  pub get-some : (k : String) (w : W) (d : Bytes) → object w k ≡ some d → (B.get k w).0 ≡ ok d

-- The metadata service keeps its rows elsewhere: its calls leave the objects alone.
pub record LeavesObjects {W : Type 0} (M : MetadataClient W) (object : W → String → Option Bytes)
    : Type 0 where
  pub register_file_same :
      (t : String) (p : RegisterFilePayload) (w : W) (j : String)
      → object (M.register_file t p w).1 j ≡ object w j
  pub get_file_detail_same :
      (t f : String) (w : W) (j : String) → object (M.get_file_detail t f w).1 j ≡ object w j
  pub get_version_detail_same :
      (t f : String) (n : ℕ) (w : W) (j : String)
      → object (M.get_version_detail t f n w).1 j ≡ object w j
