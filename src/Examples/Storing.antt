-- ===== src/Examples/Storing.antt =====
-- services/storage-service: three bytes in chunks of two, on a store that is a function.
use mathlib.Core.Option.{none-ne-some, some-injective}
use intelli_store.Prelude.{
  String, ◌≡◌, refl, sym, ap, subst, ◌∙◌, inl, inr, ◌⊎◌, false, none, some, List, [], ◌∷◌, map,
  arith, eq_iff, All,
}
use intelli_store.Effects.{ok, err, error}
use intelli_store.Storage.Chunking.{Bytes, ChunkPiece, piece_of, split_into_chunks, split_loop}
use intelli_store.Storage.Chunking.Laws.{IsSplit, split_into_chunks-IsSplit, split_loop-zero}
use intelli_store.Storage.Interfaces.{
  MetadataClient, EventPublisher, LeavesObjects, FileDetailResult, FileVersionDto, FileRecordDto,
  VersionDetailResult,
}
use intelli_store.Storage.Upload.{
  Progress, StoredChunks, UploadService, delete_all, no_progress, payload_of, store_chunks,
  store_piece, store_pieces, upload_new_file,
}
use intelli_store.Storage.Upload.Dedup.{IsAddressed}
use intelli_store.Storage.Upload.Stored.{IsComplete, store_chunks-IsComplete}
use intelli_store.Storage.Upload.Failure.{cleanup_race, failed_upload_restores}
use intelli_store.Storage.Download.{DownloadResult, download}
use intelli_store.Storage.Download.RoundTrip.{download-upload, download_service}
use intelli_store.Examples.Shelf.{Store, backend, lawful, object, reliable}

-- Two chunks occur, and their checksums differ.
abbrev pub checksum : Bytes → String
checksum [] = "empty"
checksum (x ∷ []) = "one"
checksum (x ∷ y ∷ []) = "two"
checksum (x ∷ y ∷ z ∷ xs) = "more"

abbrev pub Occurs : Bytes → Type 0
Occurs d = (d ≡ 1 ∷ 2 ∷ []) ⊎ (d ≡ 3 ∷ [])

pub collision_free : (a b : Bytes) → Occurs a → Occurs b → checksum a ≡ checksum b → a ≡ b
collision_free a b (inl p) (inl q) h = p ∙ sym q
collision_free a b (inr p) (inr q) h = p ∙ sym q
collision_free a b (inl p) (inr q) h =
    absurd (let e = (eq_iff _ _).1 (sym (ap checksum p) ∙ h ∙ ap checksum q) in cc)
collision_free a b (inr p) (inl q) h =
    absurd (let e = (eq_iff _ _).1 (sym (ap checksum p) ∙ h ∙ ap checksum q) in cc)

abbrev sample_file : FileRecordDto
sample_file = record {
  id = "f";
  owner_id = "alice";
  file_name = "notes.txt";
  is_deleted = false;
  created_at = 5;
  updated_at = 5;
}

abbrev sample_version : FileVersionDto
sample_version = record {
  id = "v";
  file_id = "f";
  version_number = 1;
  size_bytes = 3;
  mime_type = "text/plain";
  checksum = "more";
  created_at = 5;
}

abbrev file_detail : FileDetailResult
file_detail = record { file = sample_file; versions = sample_version ∷ [] }

abbrev pub version_detail : VersionDetailResult
version_detail = record {
  version = sample_version;
  chunks =
      record {
        id = "c0";
        file_version_id = "v";
        chunk_index = 0;
        size_bytes = 2;
        checksum = "two";
        storage_key = "chunks/two";
      }
      ∷ record {
        id = "c1";
        file_version_id = "v";
        chunk_index = 1;
        size_bytes = 1;
        checksum = "one";
        storage_key = "chunks/one";
      }
      ∷ [];
}

-- A metadata service that refuses what it is asked to register, and knows one file.
abbrev metadata : MetadataClient Store
metadata = record {
  register_file = λ token payload w. (err (error "refused"), w);
  add_version = λ token file_id payload w. (err (error "refused"), w);
  get_file_detail = λ token file_id w. (ok file_detail, w);
  get_version_detail = λ token file_id n w. (ok version_detail, w);
}

leaves : LeavesObjects metadata object
leaves = record {
  register_file_same = λ t p w j. refl;
  get_file_detail_same = λ t f w j. refl;
  get_version_detail_same = λ t f n w j. refl;
}

abbrev pub publisher : EventPublisher Store
publisher = record {
  publish_chunk_uploaded = λ event w. (ok tt, w);
  publish_file_accessed = λ event w. (ok tt, w);
}

abbrev pub service : UploadService Store
service = record {
  storage_backend = backend;
  metadata_client = metadata;
  event_publisher = publisher;
  chunk_size_bytes = 2;
  sha256 = checksum;
}

abbrev pub buffer : Bytes
buffer = 1 ∷ 2 ∷ 3 ∷ []

abbrev pub no_objects : Store
no_objects k = none

abbrev pieces : List ChunkPiece
pieces = piece_of checksum 0 (1 ∷ 2 ∷ []) ∷ piece_of checksum 1 (3 ∷ []) ∷ []

abbrev pub stored : StoredChunks
stored = record {
  newly_written_keys = "chunks/two" ∷ "chunks/one" ∷ [];
  payload = record { mime_type = "text/plain"; checksum = "more"; chunks = map payload_of pieces };
  dedup = record { total_chunks = 2; stored_chunks = 2; deduped_chunks = 0; bytes_saved = 0 };
}

abbrev pub after_upload : Store
after_upload = (store_chunks service buffer "text/plain" no_objects).1

split_run : split_into_chunks checksum buffer 2 ≡ some pieces
unfolding split_into_chunks split_loop
split_run = refl

stored_run : (store_chunks service buffer "text/plain" no_objects).0 ≡ ok stored
unfolding store_chunks store_pieces store_piece split_into_chunks split_loop
stored_run = refl

pub occur :
    (ps : List ChunkPiece)
    → split_into_chunks checksum buffer 2 ≡ some ps
    → All (λ p. Occurs p.bytes) ps
occur ps h =
    subst (All (λ p. Occurs p.bytes)) (some-injective _ _ (sym split_run ∙ h))
      (inl refl, (inr refl, tt))

addressed : IsAddressed checksum Occurs backend object lawful no_objects
addressed = record { at = λ c d h. absurd (none-ne-some d h) }

store_chunks-IsComplete_example :
    IsComplete service Occurs object lawful buffer no_objects after_upload stored
store_chunks-IsComplete_example =
    store_chunks-IsComplete service Occurs object lawful collision_free buffer "text/plain"
      no_objects (omega arith) (omega arith) occur addressed stored_run

complete : IsComplete service Occurs object lawful buffer no_objects after_upload stored
complete =
    store_chunks-IsComplete service Occurs object lawful collision_free buffer "text/plain"
      no_objects (omega arith) (omega arith) occur addressed stored_run

abbrev pub result : DownloadResult
result = record {
  buffer = buffer;
  file_name = "notes.txt";
  mime_type = "text/plain";
  version_number = 1;
}

pub downloaded :
    (download (download_service service (λ _. 9)) "token" "f" none after_upload).0 ≡ ok result
downloaded =
    download-upload service (λ _. 9) Occurs object lawful reliable leaves (λ e u. refl) buffer
      no_objects after_upload after_upload "token" "f" none file_detail 1 version_detail complete
      (λ j d h. h) refl refl refl refl refl

failed_upload_restores_example :
    ((upload_new_file service "token" "notes.txt" "text/plain" buffer no_objects).0
      ≡ err (error "refused"))
    × ((j : String)
        → (upload_new_file service "token" "notes.txt" "text/plain" buffer no_objects).1 j ≡ none)
failed_upload_restores_example =
    failed_upload_restores service object lawful reliable leaves "token" "notes.txt" "text/plain"
      buffer no_objects stored_run refl

split_into_chunks-IsSplit_example :
    (ps : List ChunkPiece) × (split_into_chunks checksum buffer 2 ≡ some ps)
    × IsSplit checksum 2 0 buffer ps
split_into_chunks-IsSplit_example = split_into_chunks-IsSplit checksum buffer 2 (omega arith)

split_loop-zero_example : split_loop checksum 50 buffer 0 0 0 ≡ none
split_loop-zero_example = split_loop-zero checksum 50 buffer 0 (omega arith)

abbrev first_progress : Progress
first_progress = record no_progress { newly_written_keys = "chunks/one" ∷ [] }

abbrev second_progress : Progress
second_progress = record no_progress { deduped_chunks = 1; bytes_saved = 1 }

abbrev shared : ChunkPiece
shared = piece_of checksum 0 (3 ∷ [])

abbrev after_both : Store
after_both =
    (store_piece backend shared no_progress (store_piece backend shared no_progress no_objects).1).1

first_run : (store_piece backend shared no_progress no_objects).0 ≡ ok first_progress
unfolding store_piece
first_run = refl

second_run :
    (store_piece backend shared no_progress (store_piece backend shared no_progress no_objects).1).0
    ≡ ok second_progress
unfolding store_piece
second_run = refl

cleanup_race_example :
    (second_progress.newly_written_keys ≡ [])
    × (second_progress.deduped_chunks ≡ 1)
    × (object (delete_all backend first_progress.newly_written_keys after_both) "chunks/one" ≡ none)
cleanup_race_example =
    cleanup_race backend object lawful reliable shared no_objects first_progress second_progress
      refl first_run second_run
