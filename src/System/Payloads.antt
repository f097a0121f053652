-- ===== src/System/Payloads.antt =====
-- The payload that the storage service sends, as the metadata service's schemas and tables take it.
use text.Mathlib.TextLemmas.{append-eq-nil_iff}
use intelli_store.Prelude.{
  ℕ, ◌*◌, ◌<◌, ◌≤◌, String, ◌≡◌, refl, ap, inl, inr, false, leb, lt→ltb, true, false, List, [], ◌∷◌,
  map, length, All, arith, ◌==◌, eq_iff, Bool-cases,
}
use intelli_store.Prelude.Ordered.{Ascending}
use intelli_store.Storage.Chunking.{Bytes, ChunkPiece}
use intelli_store.Storage.Chunking.Laws.{IsPiece}
use intelli_store.Storage.Interfaces.{ChunkPayload}
use intelli_store.Storage.Upload.{chunk_key}
use intelli_store.Metadata.Files.{ChunkRecord}
use intelli_store.Metadata.Service.RoundTrip.{input_of}
use intelli_store.Metadata.Routes.{all_chunks}
use intelli_store.System.{chunk_dto, chunk_input}
use intelli_store.System.Storing.{inputs_of}

is_key : (c : String) → (c == "") ≡ false → (chunk_key c == "") ≡ false
is_key c h = elim (Bool-cases (chunk_key c == "")) [
  | inr e ↦ e
  | inl e ↦
      let nil = (append-eq-nil_iff.0 ((eq_iff (chunk_key c) "").0 e)).1 in
      absurd (let f = (eq_iff c "").1 nil in cc)
]

module _ (sha256 : Bytes → String) (hashes : (b : Bytes) → (sha256 b == "") ≡ false) where
  pub inputs_of-all_chunks :
      (n : ℕ) (ps : List ChunkPiece) → All (IsPiece sha256 n) ps → all_chunks (inputs_of ps) ≡ true
  inputs_of-all_chunks n [] h = refl
  inputs_of-all_chunks n (p ∷ ps) h =
      let q : (p.checksum == "") ≡ false = rw h.0.hashed (hashes p.bytes) in
      rw (lt→ltb 0 p.size_bytes h.0.positive, q, is_key p.checksum q)
        (inputs_of-all_chunks n ps h.1)

pub some_inputs :
    (n m : ℕ) (ps : List ChunkPiece)
    → 0 < m
    → m ≤ length ps * n
    → leb 1 (length (inputs_of ps)) ≡ true
some_inputs n m [] h k = absurd (omega (arith, h, k))
some_inputs n m (p ∷ ps) h k = ground arith

pub keys-chunk_dto :
    (cs : List ChunkRecord)
    → map (λ c. c.storage_key) (map chunk_dto cs) ≡ map (λ c. c.storage_key) (map input_of cs)
keys-chunk_dto [] = refl
keys-chunk_dto (c ∷ cs) = ap (◌∷◌ c.storage_key) (keys-chunk_dto cs)

pub keys-chunk_input :
    (cs : List ChunkPayload)
    → map (λ c. c.storage_key) (map chunk_input cs) ≡ map (λ c. c.storage_key) cs
keys-chunk_input [] = refl
keys-chunk_input (c ∷ cs) = ap (◌∷◌ c.storage_key) (keys-chunk_input cs)

below_inputs :
    (i : ℕ) (cs : List ChunkRecord)
    → All (λ c. i < c.chunk_index) (map input_of cs)
    → All (λ c. i < c.chunk_index) cs
below_inputs i [] h = tt
below_inputs i (c ∷ cs) h = (h.0, below_inputs i cs h.1)

pub rows-Ascending :
    (cs : List ChunkRecord)
    → Ascending (λ c. c.chunk_index) (map input_of cs)
    → Ascending (λ c. c.chunk_index) cs
rows-Ascending [] h = tt
rows-Ascending (c ∷ cs) h = (below_inputs c.chunk_index cs h.0, rows-Ascending cs h.1)
