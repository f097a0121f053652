-- ===== src/System/RoundTrip.antt =====
-- Upload and download through both services: what is uploaded is what the owner downloads.
use intelli_store.Prelude.{
  ℕ, ◌<◌, ◌≤◌, arith, le→leb, length-map, String, ◌<>◌, ◌≡◌, refl, sym, ap, false, leb, subst, ◌∙◌,
  true, false, Option, none, some, List, [], ◌∷◌, map, length, All, ◌==◌,
}
use mathlib.Core.Path.{subst⁻¹}
use intelli_store.Prelude.Ordered.{Ascending, eq_of_perm}
use intelli_store.Effects.{continue, ok}
use intelli_store.SharedTypes.{ChunkUploadedBatchEvent, FileAccessedEvent}
use intelli_store.Http.{Authenticated, json_limit, require_auth}
use intelli_store.Storage.Chunking.{Bytes, ChunkPiece, split_into_chunks}
use intelli_store.Storage.Interfaces.{
  AddVersionPayload, EventPublisher, FileDetailResult, IsObjectStore, IsReliable, LeavesObjects,
  MetadataClient, RegisterFileResult, StorageBackend,
}
use intelli_store.Storage.Upload.{
  StoredChunks, UploadService, event_chunk, register_with_cleanup, store_chunks, upload_new_file,
}
use intelli_store.Storage.Upload.Dedup.{IsAddressed, Keeps}
use intelli_store.Storage.Upload.Stored.{IsComplete, store_chunks-IsComplete}
use intelli_store.Storage.Client.{http_metadata_client}
use intelli_store.Storage.Download.{download}
use intelli_store.Storage.Download.RoundTrip.{download-upload, download_service}
use intelli_store.Metadata.Files.{Database, int_limit}
use intelli_store.Metadata.Service.{CreateFileInput, RegisteredFile, register_file}
use intelli_store.Metadata.Service.RoundTrip.{IsFresh, IsReadBack, register_file-IsReadBack}
use intelli_store.Metadata.Routes.{App, Body, all_chunks, create_file_schema, is_file_name, typed}
use intelli_store.System.{
  answered, chunk_dto, chunk_input, file_detail_dto, version_detail_dto, metadata_client_in,
  registered_dto, version_input,
}
use intelli_store.System.Payloads.{
  inputs_of-all_chunks, keys-chunk_dto, keys-chunk_input, rows-Ascending, some_inputs,
}
use intelli_store.System.Catalogue.{IsCatalogue, IsRouted, metadata_client_in-IsCatalogue}
use intelli_store.System.Storing.{
  Ascending-Distinct, backend_in-IsObjectStore, backend_in-IsReliable, inputs_of,
  inputs_of-Ascending, inputs_of-below, object_in, store_chunks_same, upload_service,
}

-- The storage service of a user, in the world of both services.
module _ {W : Type 0} (A : App) (segments : String → List String) (show : ℕ → String)
    (token : String) (user : Authenticated)
    (valid : require_auth A.headers A.jwt A.jwt_secret (some ("Bearer " <> token)) ≡ ok user)
    (routed : (k : ℕ) → IsRouted A segments show (A.engine.gen_random_uuid k))
    (first : A.to_integer (show 1) ≡ some 1) (B : StorageBackend W)
    (object : W → String → Option Bytes) (L : IsObjectStore B object) (R : IsReliable B object)
    (P : EventPublisher W)
    (announced : (e : ChunkUploadedBatchEvent) (w : W) → (P.publish_chunk_uploaded e w).0 ≡ ok tt)
    (leaves : (e : ChunkUploadedBatchEvent) (w : W) (j : String)
      → object (P.publish_chunk_uploaded e w).1 j ≡ object w j)
    (accessed : (e : FileAccessedEvent) (w : W) → (P.publish_file_accessed e w).0 ≡ ok tt)
    (chunk_size_bytes : ℕ) (sha256 : Bytes → String) (Occurs : Bytes → Type 0)
    (json_bytes : Body → ℕ)
    (counted : (t : Option String) (p : AddVersionPayload)
      → length p.chunks ≤ json_bytes (typed t (version_input p)))
    (collision_free : (a b : Bytes) → Occurs a → Occurs b → sha256 a ≡ sha256 b → a ≡ b)
    (hashes : (b : Bytes) → (sha256 b == "") ≡ false) (now : W × Database → ℕ) where
  abbrev pub client : MetadataClient (W × Database)
  client = metadata_client_in A segments show json_bytes

  abbrev pub service : UploadService (W × Database)
  service = upload_service B client P chunk_size_bytes sha256

  client-LeavesObjects : LeavesObjects client (object_in B object)
  unfolding http_metadata_client
  client-LeavesObjects = record {
    register_file_same = λ t p v j. refl;
    get_file_detail_same = λ t f v j. refl;
    get_version_detail_same = λ t f n v j. refl;
  }

  module _ (name mime_type : String) (buffer : Bytes) (v : W × Database) {s : StoredChunks}
      (sized : 0 < chunk_size_bytes) (nonempty : 0 < length buffer)
      (named : is_file_name A name ≡ true) (typed_mime : (mime_type == "") ≡ false)
      (occur : (pieces : List ChunkPiece)
        → split_into_chunks sha256 buffer chunk_size_bytes ≡ some pieces
        → All (λ p. Occurs p.bytes) pieces)
      (addressed : IsAddressed sha256 Occurs service.storage_backend
        (object_in B object)
        (backend_in-IsObjectStore B object L)
        v)
      (fresh : IsFresh A.engine v.1) (stored : (store_chunks service buffer mime_type v).0 ≡ ok s)
      (small : json_bytes (typed (some name) (version_input s.payload)) ≤ json_limit) where
    complete :
        IsComplete service Occurs
          (object_in B object)
          (backend_in-IsObjectStore B object L)
          buffer
          v
          (store_chunks service buffer mime_type v).1
          s
    complete =
        store_chunks-IsComplete service Occurs (object_in B object)
          (backend_in-IsObjectStore B object L) collision_free buffer mime_type v sized nonempty
          occur addressed stored

    abbrev input : CreateFileInput
    input = record {
      file_name = name;
      mime_type = s.payload.mime_type;
      checksum = s.payload.checksum;
      chunks = (version_input s.payload).chunks;
    }

    inputs : input.chunks ≡ inputs_of complete.parts
    inputs = ap (λ cs. (version_input (record s.payload { chunks = cs })).chunks) complete.listed

    accepted : create_file_schema A (typed (some name) (version_input s.payload)) ≡ some input
    accepted =
        let (mime, _) =
          store_chunks_same B client P chunk_size_bytes sha256 buffer mime_type v stored in
        let ok_mime : (s.payload.mime_type == "") ≡ false = rw mime typed_mime in
        let ok_sum : (s.payload.checksum == "") ≡ false = rw complete.hashed (hashes buffer) in
        let ok_some : leb 1 (length input.chunks) ≡ true = rw inputs (
          some_inputs chunk_size_bytes (length buffer) complete.parts nonempty
            complete.split.enough) in
        let ok_all : all_chunks input.chunks ≡ true = rw inputs (
          inputs_of-all_chunks sha256 hashes chunk_size_bytes complete.parts
            complete.split.pieces) in
        rw (named, ok_mime, ok_sum, ok_some, ok_all) refl

    -- The registration, as the metadata service answers it.
    abbrev database : Database
    database = (store_chunks service buffer mime_type v).1.1

    ascending : Ascending (λ c. c.chunk_index) input.chunks
    ascending = rw inputs (inputs_of-Ascending 0 complete.parts complete.split.numbered)

    -- Each chunk is at least a byte of JSON, so the indices are small.
    bounded : All (λ c. c.chunk_index < int_limit) input.chunks
    bounded =
        let few : length (inputs_of complete.parts) ≤ int_limit =
          subst (λ cs. length cs ≤ int_limit) inputs
            (omega (
              arith,
              length-map s.payload.chunks chunk_input,
              counted (some name) s.payload,
              small,
            )) in
        subst⁻¹ (λ cs. All (λ c. c.chunk_index < int_limit) cs) inputs
          (inputs_of-below 0 int_limit complete.parts complete.split.numbered (omega (arith, few)))

    still-IsFresh : IsFresh A.engine database
    still-IsFresh =
        subst (IsFresh A.engine)
          (sym (store_chunks_same B client P chunk_size_bytes sha256 buffer mime_type v stored).1)
          fresh

    module _ (f : RegisteredFile) (e : (register_file A.engine user.id input database).0 ≡ ok f)
        (number : f.version.version_number ≡ 1)
        (back : IsReadBack A.engine user.id input
          (register_file A.engine user.id input database).1
          f) where
      abbrev after : W → W × Database
      after w = (w, (register_file A.engine user.id input database).1)

      catalogue : IsCatalogue W A segments show json_bytes token user valid f.file.id
      catalogue =
          metadata_client_in-IsCatalogue W A segments show json_bytes token user valid f.file.id
            (subst (IsRouted A segments show) (sym back.given.1) (routed back.given.0))

      abbrev announcement : ChunkUploadedBatchEvent
      announcement =
          let r = registered_dto f in
          record {
            file_id = r.file.id;
            owner_id = r.file.owner_id;
            file_name = r.file.file_name;
            version_id = r.version.id;
            version_number = r.version.version_number;
            chunks = map event_chunk r.chunks;
          }

      upload_run :
          let w = (store_chunks service buffer mime_type v).1.0 in
          upload_new_file service token name mime_type buffer v
          ≡ (ok (registered_dto f, s.dedup), after (P.publish_chunk_uploaded announcement w).1)
      unfolding upload_new_file register_with_cleanup
      upload_run =
          let v₁ = (store_chunks service buffer mime_type v).1 in
          let registered =
            catalogue.registers (record { file_name = name; version = s.payload }) input v₁
              (le→leb _ _ small) accepted in
          rw (stored, continue) (rw registered (rw e (rw (announced announcement v₁.0) refl)))

      in_index_order : back.read.chunks ≡ f.chunks
      in_index_order =
          eq_of_perm (λ c. c.chunk_index) back.same_chunks back.in_order
            (rows-Ascending f.chunks (rw back.as_given ascending))

      abbrev detail : FileDetailResult
      detail = file_detail_dto (record { file = back.shown; versions = f.version ∷ [] })

      same_keys :
          map (λ c. c.storage_key) (version_detail_dto back.read).chunks
          ≡ map (λ c. c.storage_key) s.payload.chunks
      same_keys =
          ap (λ cs. map (λ c. c.storage_key) (map chunk_dto cs)) in_index_order
          ∙ keys-chunk_dto f.chunks
          ∙ ap (map (λ c. c.storage_key)) back.as_given
          ∙ keys-chunk_input s.payload.chunks

      download_run :
          (w : W)
          → Keeps sha256 Occurs service.storage_backend
              (object_in B object)
              (backend_in-IsObjectStore B object L)
              (store_chunks service buffer mime_type v).1
              (after w)
          → (download (download_service service now) token f.file.id none (after w)).0
            ≡ ok (record {
              buffer = buffer;
              file_name = name;
              mime_type = mime_type;
              version_number = 1;
            })
      download_run w later =
          let (mime, _) =
            store_chunks_same B client P chunk_size_bytes sha256 buffer mime_type v stored in
          let detailed : client.get_file_detail token f.file.id (after w) ≡ (ok detail, after w) =
            catalogue.details (after w)
            ∙ ap (λ r. (answered file_detail_dto r.0, (w, r.1))) back.detailed in
          let read : (client.get_version_detail token f.file.id 1 (after w)).0
              ≡ ok (version_detail_dto back.read) =
            ap (λ r. r.0) (catalogue.version_details 0 (after w) first)
            ∙ ap (answered version_detail_dto) back.returned in
          let reached : (client.get_file_detail token f.file.id (after w)).1 ≡ after w =
            ap (λ r. r.1) detailed in
          download-upload service now Occurs (object_in B object)
            (backend_in-IsObjectStore B object L) (backend_in-IsReliable B object R)
            client-LeavesObjects (λ e v. accessed e v.0) buffer v
            (store_chunks service buffer mime_type v).1 (after w) token f.file.id none detail 1
            (version_detail_dto back.read) complete later (ap (λ r. r.0) detailed) (ap some number)
            (ap (λ u. (client.get_version_detail token f.file.id 1 u).0) reached ∙ read) same_keys
            (ap (λ r. r.checksum) back.same_version ∙ back.checked)
          ∙ (λ i. ok (record {
            buffer = buffer;
            file_name = back.named i;
            mime_type = (ap (λ r. r.mime_type) back.same_version ∙ back.typed ∙ mime) i;
            version_number = (ap (λ r. r.version_number) back.same_version ∙ number) i;
          }))

    -- For a user's access token, an ORDER BY of any kind, ids that the router can tell from its words,
    -- a JSON with at least a byte for each chunk, and a lawful reliable backend whose objects the
    -- announcement leaves alone: if the chunks of a buffer with bytes were stored, and the registration
    -- of them is at most 100kb of JSON, the upload under a name of 1 to 255 units and a type that is not
    -- empty returns version 1 of a file; and however the objects then grow, a download of this file
    -- with the same token gives back the bytes, the name, the type and version 1.
    pub upload-download :
        let (r, v') = upload_new_file service token name mime_type buffer v in
        (result : RegisterFileResult) × (r ≡ ok (result, s.dedup))
        × (result.version.version_number ≡ 1)
        × ((w : W)
            → ((j : String) (d : Bytes) → object v'.0 j ≡ some d → object w j ≡ some d)
            → (download (download_service service now) token result.file.id none (w, v'.1)).0
              ≡ ok (record {
                buffer = buffer;
                file_name = name;
                mime_type = mime_type;
                version_number = 1;
              }))
    upload-download =
        let (f, e, number, back) =
          register_file-IsReadBack A.engine user.id input database still-IsFresh
            (Ascending-Distinct input.chunks ascending) bounded in
        rw (upload_run f e number back) (
          registered_dto f,
          refl,
          number,
          λ w later. download_run f e number back w (λ j d h. later j d (leaves _ _ j ∙ h)),
        )
