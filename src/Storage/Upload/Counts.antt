-- ===== src/Storage/Upload/Counts.antt =====
-- The counts of `DedupInfo`.
use intelli_store.Prelude.{
  ℕ, ◌+◌, ◌≤◌, ◌≡◌, List, [], ◌∷◌, length, sum_of, arith, length-append, ◌∙◌, sym, ap,
}
use intelli_store.Effects.{ok, >>=-eq-ok}
use intelli_store.Storage.Chunking.{ChunkPiece}
use intelli_store.Storage.Interfaces.{StorageBackend}
use intelli_store.Storage.Upload.{Progress, chunk_key, store_piece, store_pieces}

-- How far the loop has come over pieces that number `n` and hold `size` bytes.
pub record Counted (n size : ℕ) (before after : Progress) : Type 0 where
  pub rounds :
      length after.newly_written_keys + after.deduped_chunks
      ≡ length before.newly_written_keys + before.deduped_chunks + n
  pub saved : after.bytes_saved ≤ before.bytes_saved + size
  pub grows : before.bytes_saved ≤ after.bytes_saved

module _ {W : Type 0} (B : StorageBackend W) where
  store_piece-Counted :
      (piece : ChunkPiece) (acc : Progress) (w : W) {acc' : Progress}
      → (store_piece B piece acc w).0 ≡ ok acc'
      → Counted 1 piece.size_bytes acc acc'
  unfolding store_piece
  store_piece-Counted piece acc w h =
      ground (arith, length-append acc.newly_written_keys (chunk_key piece.checksum ∷ []))

  pub store_pieces-Counted :
      (pieces : List ChunkPiece) (acc : Progress) (w : W) {acc' : Progress}
      → (store_pieces B pieces acc w).0 ≡ ok acc'
      → Counted (length pieces) (sum_of (λ p. p.size_bytes) pieces) acc acc'
  unfolding store_pieces
  store_pieces-Counted [] acc w h = ground arith
  store_pieces-Counted (piece ∷ pieces) acc w h =
      let (next, e, f) = >>=-eq-ok (store_piece B piece acc) (store_pieces B pieces) w h in
      let first = store_piece-Counted piece acc w e in
      let rest = store_pieces-Counted pieces next _ (sym (ap (λ r. r.0) f) ∙ h) in omega arith
