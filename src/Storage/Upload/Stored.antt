-- ===== src/Storage/Upload/Stored.antt =====
-- What `storeChunks` promises, over the split and the loop.
use intelli_store.Prelude.{
  ◌+◌, ◌≤◌, ◌<◌, String, ◌≡◌, refl, sym, ap, ◌∙◌, false, Option, some, List, [], map, length,
  length-map, All, arith, eqb,
}
use intelli_store.Effects.{Result, ok, err, continue, pure, app_error, bad_request}
use intelli_store.Storage.Chunking.{Bytes, ChunkPiece, split_into_chunks}
use intelli_store.Storage.Chunking.Laws.{IsSplit, split_into_chunks-IsSplit}
use intelli_store.Storage.Interfaces.{IsObjectStore}
use intelli_store.Storage.Upload.{
  UploadService, StoredChunks, Progress, no_progress, chunk_key, payload_of, stored_chunks,
  store_pieces, store_chunks,
}
use intelli_store.Storage.Upload.Dedup.{IsAddressed, Keeps, store_pieces-StoresAll}
use intelli_store.Storage.Upload.Counts.{store_pieces-Counted}

module _ {W : Type 0} (U : UploadService W) where
  -- An empty upload is refused with status 400 before anything is touched.
  store_chunks-nil :
      (mime_type : String) (w : W)
      → store_chunks U [] mime_type w
        ≡ (err (app_error (bad_request "Cannot upload an empty file")), w)
  unfolding store_chunks
  store_chunks-nil mime_type w = refl

  store_chunks-split :
      (buffer : Bytes) (mime_type : String) (w : W) (pieces : List ChunkPiece)
      → 0 < length buffer
      → split_into_chunks U.sha256 buffer U.chunk_size_bytes ≡ some pieces
      → store_chunks U buffer mime_type w
        ≡ continue
            (store_pieces U.storage_backend pieces no_progress w)
            (λ acc. pure (stored_chunks U.sha256 buffer mime_type pieces acc))
  unfolding store_chunks
  store_chunks-split buffer mime_type w pieces h e =
      let nonempty : eqb (length buffer) 0 ≡ false = ground arith in rw (nonempty, e)

  continue-pure :
      {A : Type 0} (r : Result Progress × W) (f : Progress → A) {a : A}
      → (continue r (λ acc. pure (f acc))).0 ≡ ok a
      → (acc : Progress) × (r.0 ≡ ok acc)
        × (a ≡ f acc)
        × ((continue r (λ acc'. pure (f acc'))).1 ≡ r.1)
  continue-pure (ok acc, v) f h = (acc, refl, cc, refl)
  continue-pure (err x, v) f h = absurd (cc)

module _ {W : Type 0} (U : UploadService W) (Occurs : Bytes → Type 0)
    (object : W → String → Option Bytes) (L : IsObjectStore U.storage_backend object) where
  -- What a return of `storeChunks` guarantees.
  pub record IsComplete (buffer : Bytes) (w v : W) (s : StoredChunks) : Type 0 where
    pub parts : List ChunkPiece
    pub split : IsSplit U.sha256 U.chunk_size_bytes 0 buffer parts
    pub listed : s.payload.chunks ≡ map payload_of parts
    pub hashed : s.payload.checksum ≡ U.sha256 buffer
    pub present : All (λ p. object v (chunk_key p.checksum) ≡ some p.bytes) parts
    pub kept : Keeps U.sha256 Occurs U.storage_backend object L w v
    pub addressed : IsAddressed U.sha256 Occurs U.storage_backend object L v
    pub total : s.dedup.total_chunks ≡ length s.payload.chunks
    pub balance : s.dedup.stored_chunks + s.dedup.deduped_chunks ≡ s.dedup.total_chunks
    pub saving : s.dedup.bytes_saved ≤ length buffer

  -- Where the store is content-addressed and no two different chunks that occur have one checksum,
  -- a return of `storeChunks` on a buffer with bytes left every piece of it in the store under the
  -- key that the payload lists, lost no object, kept the store content-addressed, and counted each
  -- chunk once, as stored or as deduplicated.
  pub store_chunks-IsComplete :
      (collision_free : (a b : Bytes) → Occurs a → Occurs b → U.sha256 a ≡ U.sha256 b → a ≡ b)
      (buffer : Bytes) (mime_type : String) (w : W) {s : StoredChunks}
      → 0 < U.chunk_size_bytes
      → 0 < length buffer
      → ((pieces : List ChunkPiece)
          → split_into_chunks U.sha256 buffer U.chunk_size_bytes ≡ some pieces
          → All (λ p. Occurs p.bytes) pieces)
      → IsAddressed U.sha256 Occurs U.storage_backend object L w
      → (store_chunks U buffer mime_type w).0 ≡ ok s
      → IsComplete buffer w (store_chunks U buffer mime_type w).1 s
  store_chunks-IsComplete collision_free buffer mime_type w {s} hn hb occur a h =
      let (pieces, e, split) = split_into_chunks-IsSplit U.sha256 buffer U.chunk_size_bytes hn in
      let run = store_pieces U.storage_backend pieces no_progress w in
      let eq = store_chunks-split U buffer mime_type w pieces hb e in
      let (acc, done, is, same) =
        continue-pure U run (stored_chunks U.sha256 buffer mime_type pieces)
          (sym (ap (λ (r : Result StoredChunks × W). r.0) eq) ∙ h) in
      let stores =
        store_pieces-StoresAll U.sha256 Occurs U.storage_backend object L collision_free
          U.chunk_size_bytes pieces no_progress w split.pieces (occur pieces e) a in
      let counts = store_pieces-Counted U.storage_backend pieces no_progress w done in
      rw (ap (λ (r : Result StoredChunks × W). r.1) eq ∙ same, is)
        (record {
          parts = pieces;
          split = split;
          listed = refl;
          hashed = refl;
          present = stores.present acc done;
          kept = stores.kept;
          addressed = stores.addressed;
          total = sym (length-map pieces payload_of);
          balance = omega (arith, counts.rounds);
          saving = omega (arith, counts.saved, split.summed);
        })
