-- ===== src/Storage/Download/RoundTrip.antt =====
-- A download of what was uploaded gives the uploaded bytes back.
use intelli_store.Prelude.{
  ℕ, String, ◌≡◌, refl, sym, ap, ◌∙◌, Option, some, List, [], ◌∷◌, map, All, eq_iff,
}
use intelli_store.Effects.{ok, continue}
use intelli_store.SharedTypes.{FileAccessedEvent}
use intelli_store.Storage.Chunking.{Bytes, ChunkPiece, concat}
use intelli_store.Storage.Chunking.Laws.{bytes_of}
use intelli_store.Storage.Interfaces.{
  IsObjectStore, IsReliable, LeavesObjects, FileDetailResult, VersionDetailResult,
}
use intelli_store.Storage.Upload.{UploadService, StoredChunks, chunk_key, payload_of}
use intelli_store.Storage.Upload.Dedup.{Keeps}
use intelli_store.Storage.Upload.Stored.{IsComplete}
use intelli_store.Storage.Download.{DownloadService, target_version, get_all, deliver, download}

-- `initServices` of services/storage-service/src/container.ts builds both services on one backend,
-- one client and one publisher.
abbrev pub download_service : {W : Type 0} → UploadService W → (W → ℕ) → DownloadService W
download_service U now = record {
  storage_backend = U.storage_backend;
  metadata_client = U.metadata_client;
  event_publisher = U.event_publisher;
  sha256 = U.sha256;
  now = now;
}

module _ {W : Type 0} (D : DownloadService W) (object : W → String → Option Bytes)
    (L : IsObjectStore D.storage_backend object) (R : IsReliable D.storage_backend object) where
  abbrev pub IsPresent : W → ChunkPiece → Type 0
  IsPresent v p = object v (chunk_key p.checksum) ≡ some p.bytes

  All-IsPresent :
      (v v' : W) (ps : List ChunkPiece)
      → ((j : String) (d : Bytes) → object v j ≡ some d → object v' j ≡ some d)
      → All (IsPresent v) ps
      → All (IsPresent v') ps
  All-IsPresent v v' [] k h = tt
  All-IsPresent v v' (p ∷ ps) k h = (k _ _ h.0, All-IsPresent v v' ps k h.1)

  get_all-present :
      (ps : List ChunkPiece) (v : W)
      → All (IsPresent v) ps
      → (get_all D (map (λ p. chunk_key p.checksum) ps) v).0 ≡ ok (bytes_of ps)
  unfolding get_all
  get_all-present [] v h = refl
  get_all-present (p ∷ ps) v h =
      let k = chunk_key p.checksum in
      let v' = (D.storage_backend.get k v).1 in
      let rest =
        get_all-present ps v' (All-IsPresent v v' ps (λ j d e. L.get_same k v j ∙ e) h.1) in
      rw (R.get-some k v p.bytes h.0, continue) (rw (rest, continue))

  -- Delivery of buffers whose checksum is the version's.
  deliver_intact :
      (file_id : String) (fd : FileDetailResult) (vd : VersionDetailResult) (bs : List Bytes)
      (v : W)
      → ((e : FileAccessedEvent) (u : W) → (D.event_publisher.publish_file_accessed e u).0 ≡ ok tt)
      → D.sha256 (concat bs) ≡ vd.version.checksum
      → (deliver D file_id fd vd bs v).0
        ≡ ok (record {
          buffer = concat bs;
          file_name = fd.file.file_name;
          mime_type = vd.version.mime_type;
          version_number = vd.version.version_number;
        })
  unfolding deliver
  deliver_intact file_id fd vd bs v published h =
      rw ((eq_iff _ _).1 h) (rw (published _ _, continue))

  download_run :
      (token file_id : String) (asked : Option ℕ) (v : W) (fd : FileDetailResult) (n : ℕ)
      (vd : VersionDetailResult) (bs : List Bytes)
      → let v₁ = (D.metadata_client.get_file_detail token file_id v).1 in
        let v₂ = (D.metadata_client.get_version_detail token file_id n v₁).1 in
        (D.metadata_client.get_file_detail token file_id v).0 ≡ ok fd
        → target_version asked fd.versions ≡ some n
        → (D.metadata_client.get_version_detail token file_id n v₁).0 ≡ ok vd
        → (get_all D (map (λ c. c.storage_key) vd.chunks) v₂).0 ≡ ok bs
        → download D token file_id asked v
          ≡ deliver D file_id fd vd bs (get_all D (map (λ c. c.storage_key) vd.chunks) v₂).1
  unfolding download
  download_run token file_id asked v fd n vd bs e f g b =
      rw (e, continue) (rw f (rw (g, continue) (rw (b, continue))))

map-payload_of :
    (ps : List ChunkPiece)
    → map (λ c. c.storage_key) (map payload_of ps) ≡ map (λ p. chunk_key p.checksum) ps
map-payload_of [] = refl
map-payload_of (p ∷ ps) = ap (λ ks. chunk_key p.checksum ∷ ks) (map-payload_of ps)

module _ {W : Type 0} (U : UploadService W) (now : W → ℕ) (Occurs : Bytes → Type 0)
    (object : W → String → Option Bytes) (L : IsObjectStore U.storage_backend object)
    (R : IsReliable U.storage_backend object) (M : LeavesObjects U.metadata_client object)
    (published : (e : FileAccessedEvent) (u : W)
      → (U.event_publisher.publish_file_accessed e u).0 ≡ ok tt) where
  -- Let `storeChunks` have returned on a buffer, and let the world go on in any way that loses no
  -- object. If the metadata service then answers with the payload's storage keys and checksum for
  -- the version that is asked for, the download returns exactly the uploaded bytes.
  pub download-upload :
      (buffer : Bytes) (w v u : W) {s : StoredChunks} (token file_id : String) (asked : Option ℕ)
      (fd : FileDetailResult) (n : ℕ) (vd : VersionDetailResult)
      → IsComplete U Occurs object L buffer w v s
      → Keeps U.sha256 Occurs U.storage_backend object L v u
      → (U.metadata_client.get_file_detail token file_id u).0 ≡ ok fd
      → target_version asked fd.versions ≡ some n
      → (U.metadata_client.get_version_detail token file_id n
          (U.metadata_client.get_file_detail token file_id u).1).0
        ≡ ok vd
      → map (λ c. c.storage_key) vd.chunks ≡ map (λ c. c.storage_key) s.payload.chunks
      → vd.version.checksum ≡ s.payload.checksum
      → (download (download_service U now) token file_id asked u).0
        ≡ ok (record {
          buffer = buffer;
          file_name = fd.file.file_name;
          mime_type = vd.version.mime_type;
          version_number = vd.version.version_number;
        })
  download-upload buffer w v u {s} token file_id asked fd n vd c later e f g keys sums =
      rw (download_run D object L R token file_id asked u fd n vd _ e f g read) (
        deliver_intact D object L R file_id fd vd _ _ published
          (ap U.sha256 c.split.whole ∙ sym (sums ∙ c.hashed))
        ∙ rw c.split.whole)
    where
      D : DownloadService W
      D = download_service U now

      u₂ : W
      u₂ =
          (U.metadata_client.get_version_detail token file_id n
            (U.metadata_client.get_file_detail token file_id u).1).1

      there : All (λ p. object u₂ (chunk_key p.checksum) ≡ some p.bytes) c.parts
      there =
          All-IsPresent D object L R v u₂ c.parts
            (λ j d h.
              M.get_version_detail_same _ _ _ _ j ∙ M.get_file_detail_same _ _ _ j ∙ later j d h)
            c.present

      read : (get_all D (map (λ c'. c'.storage_key) vd.chunks) u₂).0 ≡ ok (bytes_of c.parts)
      read =
          ap (λ ks. (get_all D ks u₂).0)
            (keys ∙ ap (map (λ c'. c'.storage_key)) c.listed ∙ map-payload_of c.parts)
          ∙ get_all-present D object L R c.parts u₂ there
