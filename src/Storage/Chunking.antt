-- ===== src/Storage/Chunking.antt =====
-- services/storage-service/src/chunking/chunking.service.ts. SHA-256 is Node's `crypto` and a
-- parameter; a buffer is the list of its bytes.
pub mod Laws
use mathlib.Core.Option
use intelli_store.Prelude.{
  ℕ, zero, suc, ◌+◌, String, Option, none, some, List, [], ◌∷◌, ◌++◌, length, take, drop, ltb,
  if◌then◌else◌,
}

abbrev pub Bytes : Type 0
Bytes = List ℕ

pub record ChunkPiece : Type 0 where
  pub index : ℕ
  pub bytes : Bytes
  pub size_bytes : ℕ
  pub checksum : String

-- `buffer.subarray(from, to)`
abbrev pub subarray : Bytes → ℕ → ℕ → Bytes
subarray buffer from size = take size (drop from buffer)

-- `Buffer.concat`
abbrev pub concat : List Bytes → Bytes
concat [] = []
concat (b ∷ bs) = b ++ concat bs

module _ (sha256 : Bytes → String) where
  abbrev pub piece_of : ℕ → Bytes → ChunkPiece
  piece_of index bytes = record {
    index = index;
    bytes = bytes;
    size_bytes = length bytes;
    checksum = sha256 bytes;
  }

  -- The `for` loop, from `offset` and `index` on; `none` means that the rounds ran out.
  unfoldable pub split_loop : ℕ → Bytes → ℕ → ℕ → ℕ → Option (List ChunkPiece)
  split_loop zero buffer chunk_size offset index = none
  split_loop (suc rounds) buffer chunk_size offset index =
      let rest = split_loop rounds buffer chunk_size (offset + chunk_size) (index + 1) in
      let piece = piece_of index (subarray buffer offset chunk_size) in
      if ltb offset (length buffer) then Option.map (λ ps. piece ∷ ps) rest else some []

  unfoldable pub split_into_chunks : Bytes → ℕ → Option (List ChunkPiece)
  unfolding split_loop
  split_into_chunks buffer chunk_size = split_loop (length buffer + 1) buffer chunk_size 0 0
