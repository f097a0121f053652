-- ===== src/Storage/Chunking/Laws.antt =====
-- What the pieces of a split are, and that the loop ends exactly for a positive chunk size.
use intelli_store.Prelude.{
  ℕ, zero, suc, ◌+◌, ◌-◌, ◌*◌, ◌≤◌, ◌<◌, String, ◌≡◌, refl, sym, ap, ◌∙◌, inl, inr, Bool-cases,
  some, List, [], ◌∷◌, map, length, take, drop, All, sum_of, arith, ltb, none, length-take,
  length-drop, take-append-drop, lt→ltb,
}
use intelli_store.Storage.Chunking.{
  Bytes, ChunkPiece, subarray, concat, piece_of, split_loop, split_into_chunks,
}

drop-nil : (n : ℕ) → drop n [] ≡ concat []
drop-nil zero = refl
drop-nil (suc n) = refl

drop-drop : (m n : ℕ) (xs : Bytes) → drop n (drop m xs) ≡ drop (m + n) xs
drop-drop zero n xs = ap (λ k. drop k xs) (omega arith)
drop-drop (suc m) n [] = drop-nil n ∙ sym (drop-nil (suc m + n))
drop-drop (suc m) n (x ∷ xs) =
    drop-drop m n xs
    ∙ ap (λ k. drop k (x ∷ xs)) (let e : suc (m + n) ≡ suc m + n = omega arith in e)

drop-eq-nil : (n : ℕ) (xs : Bytes) → length xs ≤ n → drop n xs ≡ []
drop-eq-nil zero [] h = refl
drop-eq-nil zero (x ∷ xs) h = absurd (omega arith)
drop-eq-nil (suc n) [] h = refl
drop-eq-nil (suc n) (x ∷ xs) h = drop-eq-nil n xs (omega arith)

-- Consecutive indices from `i` on.
abbrev pub Numbered : ℕ → List ChunkPiece → Type 0
Numbered i [] = Unit
Numbered i (p ∷ ps) = (p.index ≡ i) × Numbered (i + 1) ps

-- Only the last piece may be shorter than the chunk size.
abbrev pub FullButLast : ℕ → List ChunkPiece → Type 0
FullButLast n [] = Unit
FullButLast n (p ∷ []) = Unit
FullButLast n (p ∷ q ∷ ps) = (p.size_bytes ≡ n) × FullButLast n (q ∷ ps)

abbrev pub bytes_of : List ChunkPiece → List Bytes
bytes_of = map λ p. p.bytes

module _ (sha256 : Bytes → String) where
  -- A piece records the size and the checksum of its own bytes, and fits in a chunk.
  pub record IsPiece (chunk_size : ℕ) (p : ChunkPiece) : Type 0 where
    pub sized : p.size_bytes ≡ length p.bytes
    pub hashed : p.checksum ≡ sha256 p.bytes
    pub positive : 0 < p.size_bytes
    pub fits : p.size_bytes ≤ chunk_size

  pub record IsSplit (chunk_size index : ℕ) (bytes : Bytes) (ps : List ChunkPiece) : Type 0 where
    pub whole : concat (bytes_of ps) ≡ bytes
    pub pieces : All (IsPiece chunk_size) ps
    pub numbered : Numbered index ps
    pub full : FullButLast chunk_size ps
    pub summed : sum_of (λ p. p.size_bytes) ps ≡ length bytes
    pub enough : length bytes ≤ length ps * chunk_size
    pub no_more : length ps * chunk_size < length bytes + chunk_size

  IsSplit-nil : (n i : ℕ) → 0 < n → IsSplit n i [] []
  IsSplit-nil n i h = record {
    whole = refl;
    pieces = tt;
    numbered = tt;
    full = tt;
    summed = refl;
    enough = omega arith;
    no_more = omega arith;
  }

  FullButLast-cons :
      (n i : ℕ) (bytes : Bytes) (ps : List ChunkPiece)
      → IsSplit n (i + 1) (drop n bytes) ps
      → FullButLast n (piece_of sha256 i (take n bytes) ∷ ps)
  FullButLast-cons n i bytes [] s = tt
  FullButLast-cons n i bytes (q ∷ ps) s = (
    omega (arith, length-take n bytes, length-drop n bytes, s.summed, s.pieces.0.positive),
    s.full,
  )

  IsSplit-cons :
      (n i : ℕ) (bytes : Bytes) (ps : List ChunkPiece)
      → 0 < n
      → 0 < length bytes
      → IsSplit n (i + 1) (drop n bytes) ps
      → IsSplit n i bytes (piece_of sha256 i (take n bytes) ∷ ps)
  IsSplit-cons n i bytes ps hn hb s = record {
    whole = rw s.whole (take-append-drop n bytes);
    pieces = (
      record {
        sized = refl;
        hashed = refl;
        positive = omega (arith, length-take n bytes);
        fits = omega (arith, length-take n bytes);
      },
      s.pieces,
    );
    numbered = (refl, s.numbered);
    full = FullButLast-cons n i bytes ps s;
    summed = omega (arith, length-take n bytes, length-drop n bytes, s.summed);
    enough = grind (arith, length-drop n bytes, s.enough);
    no_more = grind (arith, length-drop n bytes, s.no_more);
  }

  split_loop-IsSplit :
      (rounds : ℕ) (buffer : Bytes) (n offset index : ℕ)
      → 0 < n
      → length buffer - offset < rounds
      → (ps : List ChunkPiece) × (split_loop sha256 rounds buffer n offset index ≡ some ps)
        × IsSplit n index (drop offset buffer) ps
  unfolding split_loop
  split_loop-IsSplit zero buffer n offset index hn h = absurd (omega arith)
  split_loop-IsSplit (suc rounds) buffer n offset index hn h =
      elim (Bool-cases (ltb offset (length buffer))) [
        | inl more ↦
            let (ps, e, s) =
              split_loop-IsSplit rounds buffer n (offset + n) (index + 1) hn (ground arith) in
            (
              piece_of sha256 index (subarray buffer offset n) ∷ ps,
              rw (more, e),
              IsSplit-cons n index (drop offset buffer) ps hn
                  (ground (arith, length-drop offset buffer)) (rw (drop-drop offset n buffer) s),
            )
        | inr done ↦
            ([], rw done, rw (drop-eq-nil offset buffer (ground arith)) (IsSplit-nil n index hn))
      ]

  -- For a positive chunk size the loop ends within its rounds, one more than the buffer has bytes,
  -- and its pieces are the buffer cut up: put together they are the buffer, each records its own
  -- size and checksum, they are numbered from 0, none is empty or over-long, only the last may be
  -- short, and their number is the length divided by the chunk size, rounded up.
  pub split_into_chunks-IsSplit :
      (buffer : Bytes) (chunk_size : ℕ)
      → 0 < chunk_size
      → (ps : List ChunkPiece) × (split_into_chunks sha256 buffer chunk_size ≡ some ps)
        × IsSplit chunk_size 0 buffer ps
  unfolding split_into_chunks
  split_into_chunks-IsSplit buffer n h =
      split_loop-IsSplit (length buffer + 1) buffer n 0 0 h (omega arith)

  -- With chunk size 0 (`CHUNK_SIZE_BYTES=0`) the loop over a buffer that is not empty never ends:
  -- no number of rounds is enough.
  pub split_loop-zero :
      (rounds : ℕ) (buffer : Bytes) (index : ℕ)
      → 0 < length buffer
      → split_loop sha256 rounds buffer 0 0 index ≡ none
  unfolding split_loop
  split_loop-zero zero buffer index h = refl
  split_loop-zero (suc rounds) buffer index h =
      rw (lt→ltb 0 (length buffer) h, split_loop-zero rounds buffer (index + 1) h)
