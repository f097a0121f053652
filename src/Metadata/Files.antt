-- ===== src/Metadata/Files.antt =====
-- services/metadata-service/src/repositories/file.repository.ts: the tables `files`, `file_versions`
-- and `chunks` of migrations/001_create_files_tables.sql, and the queries as functions on their rows.
-- `toFile`, `toFileVersion` and `toChunk` rename columns, so a row and a record are one.
use intelli_store.Prelude.{
  ℕ, ◌+◌, ◌-◌, String, ◌<>◌, Bool, true, false, ◌&&◌, not, Option, none, some, List, [], ◌∷◌, ◌++◌,
  ◌==◌, filter, find?, update_where, length, leb, eqb, if◌then◌else◌, sum_of,
}
use intelli_store.Prelude.Sorting.{Postgres}
use intelli_store.Effects.{Exec, error, pure, throw, continue_catch, ◌>>=◌, ◌>>◌}

pub record FileRecord : Type 0 where
  pub id : String
  pub owner_id : String
  pub file_name : String
  pub is_deleted : Bool
  pub created_at : ℕ
  pub updated_at : ℕ

pub record FileVersionRecord : Type 0 where
  pub id : String
  pub file_id : String
  pub version_number : ℕ
  pub size_bytes : ℕ
  pub mime_type : String
  pub checksum : String
  pub created_at : ℕ

pub record ChunkRecord : Type 0 where
  pub id : String
  pub file_version_id : String
  pub chunk_index : ℕ
  pub size_bytes : ℕ
  pub checksum : String
  pub storage_key : String

pub record ChunkInput : Type 0 where
  pub chunk_index : ℕ
  pub size_bytes : ℕ
  pub checksum : String
  pub storage_key : String

pub record SystemStats : Type 0 where
  pub total_files : ℕ
  pub total_versions : ℕ
  pub total_chunks : ℕ
  pub total_bytes : ℕ
  pub logical_chunk_bytes : ℕ
  pub physical_chunk_bytes : ℕ
  pub deduped_bytes : ℕ

-- The three tables, the number of ids that the database has given, and its clock.
pub record Database : Type 0 where
  pub files : List FileRecord
  pub versions : List FileVersionRecord
  pub chunks : List ChunkRecord
  pub ids : ℕ
  pub clock : ℕ

-- What PostgreSQL and JavaScript's strings bring: new ids, ILIKE with an escape of `\`, the
-- replacement of each `\`, `%` and `_` by itself after a `\`, and `trim`.
pub record Engine : Type 1 where
  pub postgres : Postgres
  pub gen_random_uuid : ℕ → String
  pub ilike : String → String → Bool
  pub escape_like : String → String
  pub trim : String → String

abbrev pub live : FileRecord → Bool
live f = not f.is_deleted

abbrev pub owned_by : String → FileRecord → Bool
owned_by owner_id f = f.owner_id == owner_id

abbrev pub of_file : String → FileVersionRecord → Bool
of_file file_id v = v.file_id == file_id

abbrev pub first : {A : Type 0} → List A → Option A
first [] = none
first (x ∷ xs) = some x

-- COALESCE(MAX(version_number), 0).
abbrev pub max_version : List FileVersionRecord → ℕ
max_version [] = 0
max_version (v ∷ vs) =
    let rest = max_version vs in if leb rest v.version_number then v.version_number else rest

abbrev pub next_version : String → Database → ℕ
next_version file_id d = max_version (filter (of_file file_id) d.versions) + 1

abbrev pub find_file_by_id : String → Database → Option FileRecord
find_file_by_id id d = find? (λ f. f.id == id && live f) d.files

abbrev pub find_version : String → ℕ → Database → Option FileVersionRecord
find_version file_id version_number d =
    find? (λ v. of_file file_id v && eqb v.version_number version_number) d.versions

abbrev pub soft_delete_file : String → Database → Database
soft_delete_file id d = record d {
  files =
      update_where (λ f. f.id == id) (λ f. record f { is_deleted = true; updated_at = d.clock })
        d.files;
}

-- The first number that an INT column refuses.
abbrev pub int_limit : ℕ
int_limit = 2147483648

abbrev pub same_chunk : String → ℕ → ChunkRecord → Bool
same_chunk version_id chunk_index c =
    c.file_version_id == version_id && eqb c.chunk_index chunk_index

abbrev pub has_same_key : ChunkRecord → ChunkRecord → Bool
has_same_key c x = c.storage_key == x.storage_key && eqb c.size_bytes x.size_bytes

-- SELECT DISTINCT storage_key, size_bytes.
abbrev pub distinct_chunks : List ChunkRecord → List ChunkRecord
distinct_chunks [] = []
distinct_chunks (c ∷ cs) =
    let rest = distinct_chunks cs in
    if eqb (length (filter (has_same_key c) rest)) 0 then c ∷ rest else rest

module _ (E : Engine) where
  open E use {postgres, gen_random_uuid, ilike, escape_like}

  unfoldable pub create_file : String → String → Exec Database FileRecord
  create_file owner_id file_name d =
      let file : FileRecord = record {
        id = gen_random_uuid d.ids;
        owner_id = owner_id;
        file_name = file_name;
        is_deleted = false;
        created_at = d.clock;
        updated_at = d.clock;
      } in
      pure file (record d { files = d.files ++ file ∷ []; ids = d.ids + 1 })

  abbrev pub list_files_by_owner : String → Database → List FileRecord
  list_files_by_owner owner_id d =
      postgres.order_by_desc (λ f. f.created_at)
        (filter (λ f. owned_by owner_id f && live f) d.files)

  abbrev pub like_pattern : String → String
  like_pattern query = ("%" <> escape_like query) <> "%"

  abbrev pub search_by_owner : String → String → Database → List FileRecord
  search_by_owner owner_id query d =
      postgres.order_by_desc (λ f. f.created_at)
        (filter (λ f. (owned_by owner_id f && live f) && ilike f.file_name (like_pattern query))
          d.files)

  abbrev pub list_versions : String → Database → List FileVersionRecord
  list_versions file_id d =
      postgres.order_by_desc (λ v. v.version_number) (filter (of_file file_id) d.versions)

  abbrev pub latest_version : String → Database → Option FileVersionRecord
  latest_version file_id d = first (list_versions file_id d)

  abbrev pub list_chunks : String → Database → List ChunkRecord
  list_chunks version_id d =
      postgres.order_by (λ c. c.chunk_index)
        (filter (λ c. c.file_version_id == version_id) d.chunks)

  -- INSERT INTO chunks, whose `chunk_index` is an INT, and which UNIQUE (file_version_id, chunk_index) may refuse.
  unfoldable pub insert_chunk : String → ChunkInput → Exec Database ChunkRecord
  insert_chunk version_id chunk d =
      let row : ChunkRecord = record {
        id = gen_random_uuid d.ids;
        file_version_id = version_id;
        chunk_index = chunk.chunk_index;
        size_bytes = chunk.size_bytes;
        checksum = chunk.checksum;
        storage_key = chunk.storage_key;
      } in
      if leb int_limit chunk.chunk_index
      then throw (error "value out of range for type integer") d
      else if eqb (length (filter (same_chunk version_id chunk.chunk_index) d.chunks)) 0
      then pure row (record d { chunks = d.chunks ++ row ∷ []; ids = d.ids + 1 })
      else throw (error "duplicate key value violates unique constraint") d

  unfoldable pub insert_chunks :
      String → List ChunkInput → List ChunkRecord → Exec Database (List ChunkRecord)
  insert_chunks version_id [] rows = pure rows
  insert_chunks version_id (chunk ∷ chunks) rows = do
    row ← insert_chunk version_id chunk
    insert_chunks version_id chunks (rows ++ row ∷ [])

  abbrev pub version_row : String → ℕ → String → String → Database → FileVersionRecord
  version_row file_id size_bytes mime_type checksum d = record {
    id = gen_random_uuid d.ids;
    file_id = file_id;
    version_number = next_version file_id d;
    size_bytes = size_bytes;
    mime_type = mime_type;
    checksum = checksum;
    created_at = d.clock;
  }

  -- The statements between BEGIN and COMMIT.
  unfoldable pub version_statements :
      String
      → ℕ
      → String
      → String
      → List ChunkInput
      → Exec Database (FileVersionRecord × List ChunkRecord)
  version_statements file_id size_bytes mime_type checksum chunks = do
    version ← λ d. pure (version_row file_id size_bytes mime_type checksum d) (record d {
      versions = d.versions ++ version_row file_id size_bytes mime_type checksum d ∷ [];
      ids = d.ids + 1;
    })
    rows ← insert_chunks version.id chunks []
    (λ d. pure tt (record d {
      files = update_where (λ f. f.id == file_id) (λ f. record f { updated_at = d.clock }) d.files;
    }))
    pure (version, rows)

  -- ROLLBACK: what threw leaves the tables that BEGIN found.
  unfoldable pub create_version :
      String
      → ℕ
      → String
      → String
      → List ChunkInput
      → Exec Database (FileVersionRecord × List ChunkRecord)
  create_version file_id size_bytes mime_type checksum chunks d =
      continue_catch (λ e _. throw e d)
        (version_statements file_id size_bytes mime_type checksum chunks d)

  -- The latest version of a file that is not deleted, its size.
  abbrev pub latest_size : Database → FileRecord → ℕ
  latest_size d f = elim (latest_version f.id d) [ none ↦ 0 | some v ↦ v.size_bytes ]

  -- The difference may not fall below 0; see the law of these sums.
  unfoldable pub get_system_stats : Database → SystemStats
  get_system_stats d =
      let logical = sum_of (λ c. c.size_bytes) d.chunks in
      let physical = sum_of (λ c. c.size_bytes) (distinct_chunks d.chunks) in
      record {
        total_files = length (filter live d.files);
        total_versions = length d.versions;
        total_chunks = length d.chunks;
        total_bytes = sum_of (latest_size d) (filter live d.files);
        logical_chunk_bytes = logical;
        physical_chunk_bytes = physical;
        deduped_bytes = logical - physical;
      }
