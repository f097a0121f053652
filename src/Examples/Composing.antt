-- ===== src/Examples/Composing.antt =====
-- Storage service and metadata service together: alice uploads three bytes and downloads them.
use mathlib.Core.Option.{none-ne-some}
use intelli_store.Prelude.{
  ℕ, ◌+◌, ◌*◌, ◌≤◌, length, length-map, String, ◌<>◌, ◌≡◌, refl, false, true, Option, some, List,
  [], ◌∷◌, ◌==◌, arith, if◌then◌else◌,
}
use intelli_store.Prelude.Sorting.{insertion_postgres}
use intelli_store.Effects.{ok}
use intelli_store.Auth.Tokens.{access, payload, verify_token}
use intelli_store.Http.{Authenticated, require_auth}
use intelli_store.Storage.Chunking.{Bytes, split_into_chunks, split_loop}
use intelli_store.Storage.Interfaces.{AddVersionPayload, RegisterFileResult}
use intelli_store.Storage.Upload.{
  UploadService, store_chunks, store_piece, store_pieces, upload_new_file,
}
use intelli_store.Storage.Upload.Dedup.{IsAddressed}
use intelli_store.Storage.Download.{download}
use intelli_store.Storage.Download.RoundTrip.{download_service}
use intelli_store.Metadata.Files.{Database}
use intelli_store.Metadata.Service.RoundTrip.{IsFresh}
use intelli_store.Metadata.Routes.{App, Body, typed}
use intelli_store.System.{chunk_input, metadata_client_in, version_input}
use intelli_store.System.Catalogue.{IsCatalogue, IsRouted, metadata_client_in-IsCatalogue}
use intelli_store.System.Storing.{backend_in-IsObjectStore, object_in, upload_service}
use intelli_store.System.RoundTrip.{upload-download}
use intelli_store.Examples.Shelf.{Store, backend, lawful, object, reliable}
use intelli_store.Examples.Storing.{
  Occurs, buffer, checksum, collision_free, no_objects, occur, publisher, stored,
}

abbrev app : App
app = record {
  engine = record {
    postgres = insertion_postgres;
    gen_random_uuid = λ n. "f";
    ilike = λ name pattern. true;
    escape_like = λ s. s;
    trim = λ s. s;
  };
  jwt = record {
    verify = λ token secret. some (payload (some "alice") (some "alice@x") (some access));
  };
  headers = record { after_prefix = λ prefix header. some "token" };
  jwt_secret = "secret";
  text_length = λ s. 9;
  to_integer = λ s. some 1;
  uptime = λ d. "12.5";
  iso_now = λ d. "2025-01-01T00:00:00.000Z";
}

abbrev segments : String → List String
segments path =
    if path == "/files"
    then "files" ∷ []
    else if path == "/files/f"
    then "files" ∷ "f" ∷ []
    else if path == "/files/f/versions"
    then "files" ∷ "f" ∷ "versions" ∷ []
    else "files" ∷ "f" ∷ "versions" ∷ "1" ∷ []

abbrev show : ℕ → String
show n = "1"

-- Two hundred bytes for each chunk, and as many for the rest.
abbrev json_bytes : Body → ℕ
json_bytes (typed name v) = 200 * length v.chunks + 200
json_bytes b = 0

counted :
    (t : Option String) (p : AddVersionPayload)
    → length p.chunks ≤ json_bytes (typed t (version_input p))
counted t p = omega (arith, length-map p.chunks chunk_input)

abbrev alice : Authenticated
alice = record { id = "alice"; email = "alice@x"; bearer_token = "token" }

valid : require_auth app.headers app.jwt app.jwt_secret (some ("Bearer " <> "token")) ≡ ok alice
unfolding require_auth verify_token
valid = refl

routed : IsRouted app segments show "f"
routed = record {
  root = refl;
  file = refl;
  versions = refl;
  numbered = λ n. refl;
  no_stats = refl;
  no_search = refl;
}

metadata_client_in-IsCatalogue_example :
    IsCatalogue Store app segments show json_bytes "token" alice valid "f"
metadata_client_in-IsCatalogue_example =
    metadata_client_in-IsCatalogue Store app segments show json_bytes "token" alice valid "f" routed

hashes : (b : Bytes) → (checksum b == "") ≡ false
hashes [] = refl
hashes (x ∷ []) = refl
hashes (x ∷ y ∷ []) = refl
hashes (x ∷ y ∷ z ∷ xs) = refl

abbrev no_rows : Database
no_rows = record { files = []; versions = []; chunks = []; ids = 0; clock = 7 }

abbrev both : UploadService (Store × Database)
both = upload_service backend (metadata_client_in app segments show json_bytes) publisher 2 checksum

abbrev start : Store × Database
start = (no_objects, no_rows)

addressed :
    IsAddressed checksum Occurs both.storage_backend
      (object_in backend object)
      (backend_in-IsObjectStore backend object lawful)
      start
addressed = record { at = λ c d h. absurd (none-ne-some d h) }

fresh : IsFresh app.engine no_rows
fresh = record { no_file = tt; no_version = tt; no_chunk = tt }

stored_run : (store_chunks both buffer "text/plain" start).0 ≡ ok stored
unfolding store_chunks store_pieces store_piece split_into_chunks split_loop
stored_run = refl

upload-download_example :
    let (r, v') = upload_new_file both "token" "notes.txt" "text/plain" buffer start in
    (result : RegisterFileResult) × (r ≡ ok (result, stored.dedup))
    × (result.version.version_number ≡ 1)
    × ((w : Store)
        → ((j : String) (d : Bytes) → object v'.0 j ≡ some d → object w j ≡ some d)
        → (download (download_service both (λ _. 9)) "token" result.file.id Option.none (w, v'.1)).0
          ≡ ok (record {
            buffer = buffer;
            file_name = "notes.txt";
            mime_type = "text/plain";
            version_number = 1;
          }))
upload-download_example =
    upload-download app segments show "token" alice valid (λ k. routed) refl backend object lawful
      reliable publisher (λ e w. refl) (λ e w j. refl) (λ e w. refl) 2 checksum Occurs json_bytes
      counted collision_free hashes (λ _. 9) "notes.txt" "text/plain" buffer start (omega arith)
      (omega arith) refl refl occur addressed fresh stored_run (omega arith)
