-- ===== src/Examples/Cataloguing.antt =====
-- services/metadata-service: two users, and files with and without versions.
use intelli_store.Prelude.{
  arith, ℕ, suc, ◌≤◌, String, ◌≡◌, refl, ◌⊎◌, Bool, true, false, some, List, [], ◌∷◌, ◌++◌, ◌==◌,
  All, filter, eqb, if◌then◌else◌,
}
use intelli_store.Prelude.Sorting.{insertion_postgres}
use intelli_store.Effects.{Failure, ok, err, app_error, not_found}
use intelli_store.Metadata.Files.{
  ChunkInput, ChunkRecord, Database, Engine, FileRecord, FileVersionRecord, create_file,
  create_version, find_file_by_id, latest_version, of_file,
}
use intelli_store.Metadata.Service.{
  CreateFileInput, RegisteredFile, delete_file, get_file, list_files, register_file, search_files,
}
use intelli_store.Metadata.Service.Access.{Visible, delete_file-hides, list_and_search-Visible}
use intelli_store.Metadata.Service.RoundTrip.{IsFresh, IsReadBack, register_file-IsReadBack}
use intelli_store.Metadata.Service.Versions.{create_version-latest, register_file-cases}

abbrev pub engine : Engine
engine = record {
  postgres = insertion_postgres;
  gen_random_uuid = λ n. if eqb n 0 then "f0" else "other";
  ilike = λ name pattern. true;
  escape_like = λ s. s;
  trim = λ s. s;
}

abbrev file : String → String → Bool → FileRecord
file id owner_id is_deleted = record {
  id = id;
  owner_id = owner_id;
  file_name = "notes";
  is_deleted = is_deleted;
  created_at = 1;
  updated_at = 1;
}

abbrev version : String → ℕ → FileVersionRecord
version file_id n = record {
  id = "v";
  file_id = file_id;
  version_number = n;
  size_bytes = 5;
  mime_type = "text/plain";
  checksum = "sum";
  created_at = 1;
}

abbrev pub database : Database
database = record {
  files = file "a" "alice" false ∷ file "b" "bob" false ∷ file "c" "alice" true ∷ [];
  versions = version "a" 2 ∷ version "a" 1 ∷ version "b" 7 ∷ [];
  chunks =
      record {
        id = "k0";
        file_version_id = "v";
        chunk_index = 0;
        size_bytes = 5;
        checksum = "x";
        storage_key = "chunks/x";
      }
      ∷ record {
        id = "k1";
        file_version_id = "w";
        chunk_index = 0;
        size_bytes = 5;
        checksum = "x";
        storage_key = "chunks/x";
      }
      ∷ [];
  ids = 1;
  clock = 9;
}

abbrev chunk : ChunkInput
chunk = record { chunk_index = 0; size_bytes = 5; checksum = "x"; storage_key = "chunks/x" }

-- The second chunk has the index of the first.
abbrev clashing : CreateFileInput
clashing = record {
  file_name = "new";
  mime_type = "text/plain";
  checksum = "sum";
  chunks = chunk ∷ chunk ∷ [];
}

create_version-latest_example :
    let (r, d') = create_version engine "a" 5 "text/plain" "sum" (chunk ∷ []) database in
    ((v : FileVersionRecord) × (rows : List ChunkRecord) × (r ≡ ok (v, rows))
      × (d'.versions ≡ database.versions ++ v ∷ [])
      × All (λ u. suc u.version_number ≤ v.version_number) (filter (of_file "a") database.versions)
      × (latest_version engine "a" d' ≡ some v))
    ⊎ ((x : Failure) × (r ≡ err x) × (d' ≡ database))
create_version-latest_example =
    create_version-latest engine "a" 5 "text/plain" "sum" (chunk ∷ []) database

register_file-cases_example :
    let (r, d') = register_file engine "alice" clashing database in
    let made = (create_file engine "alice" "new" database).0 in
    ((x : Failure) × (r ≡ err x)
      × (d'.versions ≡ database.versions)
      × ((f : FileRecord) × (made ≡ ok f)
          × (d'.files ≡ database.files ++ f ∷ [])
          × (f.owner_id ≡ "alice")
          × (f.file_name ≡ "new")
          × (f.is_deleted ≡ false)))
    ⊎ ((f : RegisteredFile) × (r ≡ ok f)
        × (made ≡ ok f.file)
        × (latest_version engine f.file.id d' ≡ some f.version)
        × (d'.versions ≡ database.versions ++ f.version ∷ []))
register_file-cases_example = register_file-cases engine "alice" clashing database

delete_file-hides_example :
    let (r, d') = delete_file engine "alice" "a" database in
    ((f : FileRecord) × (find_file_by_id "a" database ≡ some f)
      × (f.owner_id ≡ "alice")
      × (r ≡ ok tt)
      × ((anyone : String)
          → (get_file engine anyone "a" d').0 ≡ err (app_error (not_found "File not found")))
      × ((other : String)
          → ("a" == other) ≡ false
          → find_file_by_id other d' ≡ find_file_by_id other database))
    ⊎ ((r ≡ err (app_error (not_found "File not found"))) × (d' ≡ database))
delete_file-hides_example = delete_file-hides engine "alice" "a" database

list_and_search-Visible_example :
    Visible "alice" (list_files engine "alice" database).0
    × Visible "alice" (search_files engine "alice" "note" database).0
    × ((list_files engine "alice" database).1 ≡ database)
    × ((search_files engine "alice" "note" database).1 ≡ database)
list_and_search-Visible_example = list_and_search-Visible engine "alice" "note" database

-- An engine whose ids are all told apart, as far as they are used here.
abbrev fresh_engine : Engine
fresh_engine = record engine {
  gen_random_uuid = λ n. if eqb n 1 then "f1" else if eqb n 2 then "v2" else "other";
}

abbrev proper : CreateFileInput
proper = record clashing { chunks = record chunk { chunk_index = 1 } ∷ chunk ∷ [] }

fresh : IsFresh fresh_engine database
fresh = record {
  no_file = (refl, (refl, (refl, tt)));
  no_version = (refl, (refl, (refl, tt)));
  no_chunk = (refl, (refl, tt));
}

register_file-IsReadBack_example :
    let (r, d') = register_file fresh_engine "alice" proper database in
    (f : RegisteredFile) × (r ≡ ok f)
    × (f.version.version_number ≡ 1)
    × IsReadBack fresh_engine "alice" proper d' f
register_file-IsReadBack_example =
    register_file-IsReadBack fresh_engine "alice" proper database fresh ((refl, tt), (tt, tt))
      (omega arith, (omega arith, tt))
