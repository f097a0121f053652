-- ===== src/System/Storing.antt =====
-- The storage service's steps in the world of both services: they leave the database alone.
use intelli_store.Prelude.{
  ℕ, ◌<◌, ◌≤◌, ◌+◌, String, ◌≡◌, refl, sym, ap, ◌∙◌, inl, inr, true, false, Option, List, [], ◌∷◌,
  map, length, All, All-map, arith, eqb, Bool-cases, Option-cases,
}
use intelli_store.Prelude.Ordered.{Ascending}
use intelli_store.Effects.{Result-cases, ok, continue}
use intelli_store.Storage.Chunking.{Bytes, ChunkPiece, split_into_chunks}
use intelli_store.Storage.Chunking.Laws.{Numbered}
use intelli_store.Storage.Interfaces.{
  EventPublisher, IsObjectStore, IsReliable, MetadataClient, StorageBackend,
}
use intelli_store.Storage.Upload.{
  Progress, StoredChunks, UploadService, chunk_key, no_progress, payload_of, stored_chunks,
  store_chunks, store_piece, store_pieces,
}
use intelli_store.Metadata.Files.{ChunkInput, Database}
use intelli_store.Metadata.Service.RoundTrip.{Distinct}
use intelli_store.System.{backend_in, chunk_input, publisher_in}

module _ {W : Type 0} (B : StorageBackend W) (object : W → String → Option Bytes) where
  abbrev pub object_in : W × Database → String → Option Bytes
  object_in v = object v.0

  pub backend_in-IsObjectStore : IsObjectStore B object → IsObjectStore (backend_in B) object_in
  backend_in-IsObjectStore L = record {
    put-ok = λ k d v. L.put-ok k d v.0;
    put_self = λ k d v. L.put_self k d v.0;
    put_ne = λ k d v. L.put_ne k d v.0;
    exists_same = λ k v. L.exists_same k v.0;
    exists-true = λ k v. L.exists-true k v.0;
    get_same = λ k v. L.get_same k v.0;
    get-ok = λ k v. L.get-ok k v.0;
    delete_ne = λ k v. L.delete_ne k v.0;
  }

  pub backend_in-IsReliable : IsReliable B object → IsReliable (backend_in B) object_in
  backend_in-IsReliable R = record {
    exists-false = λ k v. R.exists-false k v.0;
    delete_self = λ k v. R.delete_self k v.0;
    get-some = λ k v. R.get-some k v.0;
  }

module _ {W : Type 0} (B : StorageBackend W) where
  store_piece_same :
      (p : ChunkPiece) (acc : Progress) (v : W × Database)
      → (store_piece (backend_in B) p acc v).1.1 ≡ v.1
  unfolding store_piece
  store_piece_same p acc v = elim (Result-cases (B.exists (chunk_key p.checksum) v.0).0) [
    | inr (x, e) ↦ rw e refl
    | inl (true, e) ↦ rw e refl
    | inl (false, e) ↦
        let w = (B.exists (chunk_key p.checksum) v.0).1 in
        elim (Result-cases (B.put (chunk_key p.checksum) p.bytes w).0) [
          | inr (x, f) ↦ rw e (rw f refl)
          | inl (u, f) ↦ rw e (rw f refl)
        ]
  ]

  store_pieces_same :
      (ps : List ChunkPiece) (acc : Progress) (v : W × Database)
      → (store_pieces (backend_in B) ps acc v).1.1 ≡ v.1
  unfolding store_pieces
  store_pieces_same [] acc v = refl
  store_pieces_same (p ∷ ps) acc v = elim (Result-cases (store_piece (backend_in B) p acc v).0) [
    | inr (x, e) ↦ rw (e, continue) (store_piece_same p acc v)
    | inl (acc', e) ↦
        rw (e, continue)
          (store_pieces_same ps acc' (store_piece (backend_in B) p acc v).1
            ∙ store_piece_same p acc v)
  ]

module _ {W : Type 0} (B : StorageBackend W) (M : MetadataClient (W × Database))
    (P : EventPublisher W) (chunk_size_bytes : ℕ) (sha256 : Bytes → String) where
  -- `initServices` of services/storage-service/src/container.ts.
  abbrev pub upload_service : UploadService (W × Database)
  upload_service = record {
    storage_backend = backend_in B;
    metadata_client = M;
    event_publisher = publisher_in P;
    chunk_size_bytes = chunk_size_bytes;
    sha256 = sha256;
  }

  -- What `storeChunks` returned has the type that it was given, and the database is as before.
  pub store_chunks_same :
      (buffer : Bytes) (mime_type : String) (v : W × Database) {s : StoredChunks}
      → (store_chunks upload_service buffer mime_type v).0 ≡ ok s
      → (s.payload.mime_type ≡ mime_type)
        × ((store_chunks upload_service buffer mime_type v).1.1 ≡ v.1)
  unfolding store_chunks
  store_chunks_same buffer mime_type v {s} = elim (Bool-cases (eqb (length buffer) 0)) [
    | inl e ↦ rw e (λ h. absurd (cc))
    | inr e ↦ elim (Option-cases (split_into_chunks sha256 buffer chunk_size_bytes)) [
      | inl f ↦ rw (e, f) (λ h. absurd (cc))
      | inr (pieces, f) ↦
          let same = store_pieces_same B pieces no_progress v in
          elim (Result-cases (store_pieces (backend_in B) pieces no_progress v).0) [
            | inr (x, g) ↦ rw (e, f) (rw (g, continue) (λ h. absurd (cc)))
            | inl (acc, g) ↦
                rw (e, f)
                  (rw (g, continue)
                    (λ h.
                      let is : stored_chunks sha256 buffer mime_type pieces acc ≡ s = cc in
                      (sym (ap (λ t. t.payload.mime_type) is), same)))
          ]
    ]
  ]

-- The chunks of the payload are numbered, so that no two have one index, and ascend.
Numbered-above : (i : ℕ) (ps : List ChunkPiece) → Numbered i ps → All (λ p. i ≤ p.index) ps
Numbered-above i [] h = tt
Numbered-above i (p ∷ ps) h =
    (omega (arith, h.0), All-map _ ps (λ q k. omega (arith, k)) (Numbered-above (i + 1) ps h.1))

abbrev pub inputs_of : List ChunkPiece → List ChunkInput
inputs_of ps = map chunk_input (map payload_of ps)

inputs_of-above :
    (i : ℕ) (ps : List ChunkPiece)
    → All (λ p. i < p.index) ps
    → All (λ c. i < c.chunk_index) (inputs_of ps)
inputs_of-above i [] h = tt
inputs_of-above i (p ∷ ps) h = (h.0, inputs_of-above i ps h.1)

pub inputs_of-Ascending :
    (i : ℕ) (ps : List ChunkPiece) → Numbered i ps → Ascending (λ c. c.chunk_index) (inputs_of ps)
inputs_of-Ascending i [] h = tt
inputs_of-Ascending i (p ∷ ps) h = (
  inputs_of-above p.index ps
      (All-map _ ps (λ q k. omega (arith, k, h.0)) (Numbered-above (i + 1) ps h.1)),
  inputs_of-Ascending (i + 1) ps h.1,
)

pub inputs_of-below :
    (i m : ℕ) (ps : List ChunkPiece)
    → Numbered i ps
    → i + length (inputs_of ps) ≤ m
    → All (λ c. c.chunk_index < m) (inputs_of ps)
inputs_of-below i m [] h k = tt
inputs_of-below i m (p ∷ ps) h k =
    (omega (arith, h.0, k), inputs_of-below (i + 1) m ps h.1 (omega (arith, k)))

pub Ascending-Distinct : (cs : List ChunkInput) → Ascending (λ c. c.chunk_index) cs → Distinct cs
Ascending-Distinct [] h = tt
Ascending-Distinct (c ∷ cs) h =
    (All-map _ cs (λ y k. ground (arith, k)) h.0, Ascending-Distinct cs h.1)
