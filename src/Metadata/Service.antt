-- ===== src/Metadata/Service.antt =====
-- services/metadata-service/src/services/file.service.ts. Its queries do not fail, but for the INSERT
-- that a constraint refuses.
pub mod Access
pub mod Versions
pub mod RoundTrip
pub mod Isolation
use intelli_store.Prelude.{
  ℕ, String, Bool, true, false, ◌&&◌, ◌||◌, not, Option, none, some, List, map, ◌==◌, sum_of,
  if◌then◌else◌,
}
use intelli_store.Effects.{
  Exec, Failure, app_error, bad_request, not_found, pure, throw, unless, or_throw, ◌>>=◌, ◌>>◌,
}
use intelli_store.Metadata.Files.{
  FileRecord, FileVersionRecord, ChunkRecord, ChunkInput, SystemStats, Database, Engine,
  create_file, create_version, find_file_by_id, find_version, get_system_stats, latest_version,
  list_chunks, list_files_by_owner, list_versions, search_by_owner, soft_delete_file,
}

pub record CreateVersionInput : Type 0 where
  pub mime_type : String
  pub checksum : String
  pub chunks : List ChunkInput

pub record CreateFileInput : Type 0 where
  pub file_name : String
  pub mime_type : String
  pub checksum : String
  pub chunks : List ChunkInput

pub record FileWithLatestVersion : Type 0 where
  pub file : FileRecord
  pub latest : Option FileVersionRecord

pub record FileDetail : Type 0 where
  pub file : FileRecord
  pub versions : List FileVersionRecord

pub record VersionDetail : Type 0 where
  pub version : FileVersionRecord
  pub chunks : List ChunkRecord

pub record RegisteredFile : Type 0 where
  pub file : FileRecord
  pub version : FileVersionRecord
  pub chunks : List ChunkRecord

abbrev pub total_size : List ChunkInput → ℕ
total_size = sum_of λ c. c.size_bytes

-- A query of one value.
abbrev pub selects : {A : Type 0} → (Database → A) → Exec Database A
selects f d = pure (f d) d

abbrev owned : String → Option FileRecord → Exec Database FileRecord
owned owner_id none = throw (app_error (not_found "File not found"))
owned owner_id (some file) =
    unless (not (file.owner_id == owner_id)) (app_error (not_found "File not found")) (pure file)

pub get_owned_file : String → String → Exec Database FileRecord
get_owned_file owner_id file_id = do file ← selects (find_file_by_id file_id); owned owner_id file

module _ (E : Engine) where
  pub register_file : String → CreateFileInput → Exec Database RegisteredFile
  register_file owner_id input = do
    file ← create_file E owner_id input.file_name
    (version, chunks) ←
        create_version E file.id (total_size input.chunks) input.mime_type input.checksum
          input.chunks
    pure (record { file = file; version = version; chunks = chunks })

  pub add_version : String → String → CreateVersionInput → Exec Database VersionDetail
  add_version owner_id file_id input = do
    get_owned_file owner_id file_id
    (version, chunks) ←
        create_version E file_id (total_size input.chunks) input.mime_type input.checksum
          input.chunks
    pure (record { version = version; chunks = chunks })

  abbrev pub with_latest_versions : List FileRecord → Database → List FileWithLatestVersion
  with_latest_versions files d =
      map (λ f. record { file = f; latest = latest_version E f.id d }) files

  pub list_files : String → Exec Database (List FileWithLatestVersion)
  list_files owner_id = do
    files ← selects (list_files_by_owner E owner_id)
    selects (with_latest_versions files)

  pub search_files : String → String → Exec Database (List FileWithLatestVersion)
  search_files owner_id query = do
    let trimmed = E.trim query
    unless (trimmed == "") (app_error (bad_request "Search query must not be empty")) (do
      files ← selects (search_by_owner E owner_id trimmed)
      selects (with_latest_versions files))

  pub get_file : String → String → Exec Database FileDetail
  get_file owner_id file_id = do
    file ← get_owned_file owner_id file_id
    versions ← selects (list_versions E file.id)
    pure (record { file = file; versions = versions })

  pub get_version : String → String → ℕ → Exec Database VersionDetail
  get_version owner_id file_id version_number = do
    get_owned_file owner_id file_id
    found ← selects (find_version file_id version_number)
    version ← or_throw found (app_error (not_found "Version not found"))
    chunks ← selects (list_chunks E version.id)
    pure (record { version = version; chunks = chunks })

  pub delete_file : String → String → Exec Database (Unit {0})
  delete_file owner_id file_id = do
    get_owned_file owner_id file_id
    (λ d. pure tt (soft_delete_file file_id d))

  pub read_system_stats : Exec Database SystemStats
  read_system_stats = selects (get_system_stats E)
