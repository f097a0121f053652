-- ===== src/Storage/Upload/Failure.antt =====
-- An upload whose registration fails: by itself it leaves the store as it was, and beside another
-- upload of the same content it takes that upload's chunk away.
use intelli_store.Prelude.{
  String, ◌≡◌, refl, sym, ◌∙◌, ◌≢◌, inl, inr, Option, none, some, List, [], ◌∷◌, length, eqb,
  Bool-cases, Option-cases,
}
use text.Mathlib.TextPositions.{eq_refl}
use intelli_store.Effects.{Result, Failure, ok, err, pure, continue, continue_catch}
use intelli_store.Storage.Chunking.{Bytes, ChunkPiece, split_into_chunks}
use intelli_store.Storage.Interfaces.{StorageBackend, IsObjectStore, IsReliable, LeavesObjects}
use intelli_store.Storage.Upload.{
  UploadService, StoredChunks, Progress, no_progress, chunk_key, stored_chunks, store_piece,
  store_chunks, delete_all, register_with_cleanup, upload_new_file,
}
use intelli_store.Storage.Upload.Dedup.{found_cases, put_cases}
use intelli_store.Storage.Upload.Cleanup.{
  Tracks, TracksRun, Tracks-refl, store_pieces-TracksRun, delete_all-object, delete_all-Tracks,
}

module _ {W : Type 0} (U : UploadService W) (object : W → String → Option Bytes)
    (L : IsObjectStore U.storage_backend object) (R : IsReliable U.storage_backend object) where
  StoredTracks : W → Result StoredChunks × W → Type 0
  StoredTracks w r =
      (s : StoredChunks)
      → r.0 ≡ ok s
      → Tracks U.storage_backend object L R w
          (record no_progress { newly_written_keys = s.newly_written_keys }) r.1

  finish-StoredTracks :
      (w : W) (buffer : Bytes) (mime_type : String) (pieces : List ChunkPiece)
      (r : Result Progress × W)
      → TracksRun U.storage_backend object L R w r
      → StoredTracks w
          (continue r (λ acc. pure (stored_chunks U.sha256 buffer mime_type pieces acc)))
  unfolding StoredTracks
  finish-StoredTracks w buffer mime_type pieces (ok acc, v) t s h =
      let e : acc.newly_written_keys ≡ s.newly_written_keys = cc in
      rw (← e) (record { fresh = (t acc refl).fresh; rest = (t acc refl).rest })
  finish-StoredTracks w buffer mime_type pieces (err x, v) t s h = absurd (cc)

  store_chunks-StoredTracks :
      (buffer : Bytes) (mime_type : String) (w : W)
      → StoredTracks w (store_chunks U buffer mime_type w)
  unfolding store_chunks StoredTracks
  store_chunks-StoredTracks buffer mime_type w = elim (Bool-cases (eqb (length buffer) 0)) [
    | inl e ↦ rw e (λ s h. absurd (cc))
    | inr e ↦ elim (Option-cases (split_into_chunks U.sha256 buffer U.chunk_size_bytes)) [
      | inl f ↦ rw (e, f) (λ s h. absurd (cc))
      | inr (pieces, f) ↦
          rw (e, f)
            (finish-StoredTracks w buffer mime_type pieces _ (
              store_pieces-TracksRun U.storage_backend object L R pieces w no_progress w
                (Tracks-refl U.storage_backend object L R w)))
    ]
  ]

  failed_upload_run :
      (token file_name mime_type : String) (buffer : Bytes) (w : W) {s : StoredChunks} {x : Failure}
      → (store_chunks U buffer mime_type w).0 ≡ ok s
      → (U.metadata_client.register_file token
          (record { file_name = file_name; version = s.payload })
          (store_chunks U buffer mime_type w).1).0
        ≡ err x
      → upload_new_file U token file_name mime_type buffer w ≡ (
        err x,
        delete_all U.storage_backend s.newly_written_keys
            (U.metadata_client.register_file token
              (record { file_name = file_name; version = s.payload })
              (store_chunks U buffer mime_type w).1).1,
      )
  unfolding upload_new_file register_with_cleanup
  failed_upload_run token file_name mime_type buffer w stored failed =
      rw (stored, continue) (rw (failed, continue_catch))

  -- If the backend is reliable and the metadata client leaves objects alone, then an upload whose
  -- chunks were stored and whose registration then fails throws the registration's error, and every
  -- object is what it was before the upload.
  pub failed_upload_restores :
      LeavesObjects U.metadata_client object
      → (token file_name mime_type : String) (buffer : Bytes) (w : W) {s : StoredChunks}
        {x : Failure}
      → (store_chunks U buffer mime_type w).0 ≡ ok s
      → (U.metadata_client.register_file token
          (record { file_name = file_name; version = s.payload })
          (store_chunks U buffer mime_type w).1).0
        ≡ err x
      → ((upload_new_file U token file_name mime_type buffer w).0 ≡ err x)
        × ((j : String)
            → object (upload_new_file U token file_name mime_type buffer w).1 j ≡ object w j)
  unfolding StoredTracks
  failed_upload_restores M token file_name mime_type buffer w {s} stored failed =
      rw (failed_upload_run token file_name mime_type buffer w stored failed) (
        refl,
        λ j.
            delete_all-Tracks U.storage_backend object L R w
              (record no_progress { newly_written_keys = s.newly_written_keys }) _
              (record {
                fresh = kept.fresh;
                rest = λ k h. M.register_file_same _ _ _ k ∙ kept.rest k h;
              })
              j,
      )
    where
      kept :
          Tracks U.storage_backend object L R w
            (record no_progress { newly_written_keys = s.newly_written_keys })
            (store_chunks U buffer mime_type w).1
      kept = store_chunks-StoredTracks buffer mime_type w s stored

module _ {W : Type 0} (B : StorageBackend W) (object : W → String → Option Bytes)
    (L : IsObjectStore B object) (R : IsReliable B object) where
  put_missing :
      (piece : ChunkPiece) (w : W) {acc : Progress}
      → object w (chunk_key piece.checksum) ≡ none
      → (store_piece B piece no_progress w).0 ≡ ok acc
      → (acc.newly_written_keys ≡ chunk_key piece.checksum ∷ [])
        × (object (store_piece B piece no_progress w).1 (chunk_key piece.checksum)
            ≡ some piece.bytes)
  unfolding store_piece
  put_missing piece w {acc} absent = elim (found_cases (B.exists k w).0) [
    | inl e ↦ absurd (L.exists-true k w e absent)
    | inr (inl e) ↦ elim (put_cases (B.put k piece.bytes (B.exists k w).1).0) [
      | inl f ↦ rw (e, continue) (rw (f, continue) (λ h. (cc, L.put-ok k piece.bytes _ f)))
      | inr (x, f) ↦ rw (e, continue) (rw (f, continue) (λ h. absurd (cc)))
    ]
    | inr (inr (x, e)) ↦ rw (e, continue) (λ h. absurd (cc))
  ]
    where
      k : String
      k = chunk_key piece.checksum

  skip_present :
      (piece : ChunkPiece) (w : W) {acc : Progress}
      → object w (chunk_key piece.checksum) ≢ none
      → (store_piece B piece no_progress w).0 ≡ ok acc
      → (acc.newly_written_keys ≡ []) × (acc.deduped_chunks ≡ 1)
  unfolding store_piece
  skip_present piece w {acc} present = elim (found_cases (B.exists k w).0) [
    | inl e ↦ rw (e, continue) (λ h. (cc, cc))
    | inr (inl e) ↦ absurd (present (R.exists-false k w e))
    | inr (inr (x, e)) ↦ rw (e, continue) (λ h. absurd (cc))
  ]
    where
      k : String
      k = chunk_key piece.checksum

  -- One upload stores a piece that was not in the store; a second upload of the same piece comes to
  -- its check before the first one cleans up, so it writes nothing and counts the piece as
  -- deduplicated. The first one's clean-up then removes the object, on which the second upload
  -- relies.
  pub cleanup_race :
      (piece : ChunkPiece) (w : W) (first second : Progress)
      → object w (chunk_key piece.checksum) ≡ none
      → (store_piece B piece no_progress w).0 ≡ ok first
      → (store_piece B piece no_progress (store_piece B piece no_progress w).1).0 ≡ ok second
      → let v = (store_piece B piece no_progress (store_piece B piece no_progress w).1).1 in
        (second.newly_written_keys ≡ [])
        × (second.deduped_chunks ≡ 1)
        × (object (delete_all B first.newly_written_keys v) (chunk_key piece.checksum) ≡ none)
  cleanup_race piece w first second absent h₁ h₂ =
      let (written, stored) = put_missing piece w absent h₁ in
      let (nothing, counted) = skip_present piece _ (λ e. cc (sym stored ∙ e)) h₂ in
      (nothing, counted, rw written (delete_all-object B object L R _ _ _ ∙ rw eq_refl))
