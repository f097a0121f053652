-- ===== src/Storage/Upload/Dedup.antt =====
-- Content addressing: what the loop of `storeChunks` does to the objects, and its counts.
use mathlib.Core.Option.{some-injective}
use text.Mathlib.TextLemmas.{append_cancel_left}
use intelli_store.Prelude.{
  ℕ, String, ◌≡◌, refl, sym, ap, subst, ◌∙◌, ◌≢◌, ◌⊎◌, inl, inr, Bool, true, false, Option, none,
  some, List, [], ◌∷◌, All, ◌==◌, eq_iff, Bool-cases, Option-cases,
}
use intelli_store.Effects.{Failure, Result, ok, err, pure, continue}
use intelli_store.Storage.Chunking.{Bytes, ChunkPiece}
use intelli_store.Storage.Chunking.Laws.{IsPiece}
use intelli_store.Storage.Interfaces.{StorageBackend, IsObjectStore}
use intelli_store.Storage.Upload.{Progress, chunk_key, store_piece, store_pieces}

pub found_cases :
    (r : Result Bool) → (r ≡ ok true) ⊎ ((r ≡ ok false) ⊎ ((x : Failure) × (r ≡ err x)))
found_cases (ok true) = inl refl
found_cases (ok false) = inr (inl refl)
found_cases (err x) = inr (inr (x, refl))

pub put_cases : (r : Result (Unit {0})) → (r ≡ ok tt) ⊎ ((x : Failure) × (r ≡ err x))
put_cases (ok _) = inl refl
put_cases (err x) = inr (x, refl)

chunk_key_injective : (a b : String) → chunk_key a ≡ chunk_key b → a ≡ b
chunk_key_injective a b e = append_cancel_left "chunks/" a b e

module _ {W : Type 0} (sha256 : Bytes → String) (Occurs : Bytes → Type 0) (B : StorageBackend W)
    (object : W → String → Option Bytes) (L : IsObjectStore B object) where
  -- Every chunk object is stored under its own checksum.
  pub record IsAddressed (w : W) : Type 0 where
    pub at : (c : String) (d : Bytes) → object w (chunk_key c) ≡ some d → (sha256 d ≡ c) × Occurs d

  -- No object of `w` is lost or changed in `v`.
  abbrev pub Keeps : W → W → Type 0
  Keeps w v = (j : String) (d : Bytes) → object w j ≡ some d → object v j ≡ some d

  exists-IsAddressed : (k : String) (w : W) → IsAddressed w → IsAddressed (B.exists k w).1
  exists-IsAddressed k w a = record { at = λ c d e. a.at c d (sym (L.exists_same k w _) ∙ e) }

  module _ (collision_free : (a b : Bytes) → Occurs a → Occurs b → sha256 a ≡ sha256 b → a ≡ b)
      (c : String) (bytes : Bytes) (hashed : c ≡ sha256 bytes) (occurs : Occurs bytes) where
    stored_same : (w : W) (d : Bytes) → IsAddressed w → object w (chunk_key c) ≡ some d → d ≡ bytes
    stored_same w d a e = collision_free d bytes (a.at c d e).1 occurs ((a.at c d e).0 ∙ hashed)

    -- A `put` under the checksum's key can only write what is there already, or fill a gap.
    put-Keeps : (w : W) → IsAddressed w → Keeps w (B.put (chunk_key c) bytes w).1
    put-Keeps w a j d e = elim (Bool-cases (j == chunk_key c)) [
      | inl same ↦
          let k = (eq_iff j (chunk_key c)).0 same in
          elim (L.put_self (chunk_key c) bytes w) [
            | inl p ↦ ap (object _) k ∙ p ∙ sym (ap (object w) k) ∙ e
            | inr p ↦
                ap (object _) k ∙ p ∙ ap some (sym (stored_same w d a (sym (ap (object w) k) ∙ e)))
          ]
      | inr other ↦ L.put_ne _ bytes w j (λ k. cc (other, (eq_iff j (chunk_key c)).1 k)) ∙ e
    ]

    put-IsAddressed : (w : W) → IsAddressed w → IsAddressed (B.put (chunk_key c) bytes w).1
    put-IsAddressed w a = record {
      at = λ c' d e. elim (Bool-cases (chunk_key c' == chunk_key c)) [
        | inl same ↦
            let k = (eq_iff _ _).0 same in
            elim (L.put_self (chunk_key c) bytes w) [
              | inl p ↦ a.at c' d (ap (object w) k ∙ sym p ∙ sym (ap (object _) k) ∙ e)
              | inr p ↦
                  let q = some-injective _ _ (sym p ∙ sym (ap (object _) k) ∙ e) in
                  (
                    ap sha256 (sym q) ∙ sym hashed ∙ sym (chunk_key_injective c' c k),
                    subst Occurs q occurs,
                  )
            ]
        | inr other ↦ a.at c' d (sym (L.put_ne _ bytes w _ (λ k. cc (other, (eq_iff _ _).1 k))) ∙ e)
      ];
    }

  -- What one round leaves behind: nothing is lost, and if it went on the chunk is in the store.
  pub record IsStored (piece : ChunkPiece) (w : W) (r : Result Progress × W) : Type 0 where
    pub addressed : IsAddressed r.1
    pub kept : Keeps w r.1
    pub present :
        (acc : Progress) → r.0 ≡ ok acc → object r.1 (chunk_key piece.checksum) ≡ some piece.bytes

  module _ (collision_free : (a b : Bytes) → Occurs a → Occurs b → sha256 a ≡ sha256 b → a ≡ b)
      (chunk_size : ℕ) where
    -- `exists` answered `true`.
    found-IsStored :
        (piece : ChunkPiece) (acc : Progress) (w : W)
        → IsPiece sha256 chunk_size piece
        → Occurs piece.bytes
        → IsAddressed w
        → object w (chunk_key piece.checksum) ≢ none
        → IsStored piece w (ok acc, (B.exists (chunk_key piece.checksum) w).1)
    found-IsStored piece acc w p o a there = record {
      addressed = exists-IsAddressed _ w a;
      kept = λ j d h. L.exists_same _ w j ∙ h;
      present = λ _ _. elim (Option-cases (object w (chunk_key piece.checksum))) [
        | inl e ↦ absurd (there e)
        | inr (d, e) ↦
            L.exists_same _ w _
            ∙ e
            ∙ ap some (stored_same collision_free piece.checksum piece.bytes p.hashed o w d a e)
      ];
    }

    -- `exists` answered `false`, and `put` was called, whatever came of it.
    put-IsStored :
        (piece : ChunkPiece) (acc : Progress) (w : W)
        → IsPiece sha256 chunk_size piece
        → Occurs piece.bytes
        → IsAddressed w
        → let v = (B.exists (chunk_key piece.checksum) w).1 in
          IsStored piece w
            (continue (B.put (chunk_key piece.checksum) piece.bytes v) (λ _. pure acc))
    put-IsStored piece acc w p o a = elim (put_cases (B.put key piece.bytes v).0) [
      | inl e ↦
          rw (e, continue)
            (record {
              addressed = addressed;
              kept = kept;
              present = λ _ _. L.put-ok key piece.bytes v e;
            })
      | inr (x, e) ↦
          rw (e, continue)
            (record { addressed = addressed; kept = kept; present = λ _ h. absurd (cc) })
    ]
      where
        key : String
        key = chunk_key piece.checksum

        v : W
        v = (B.exists key w).1

        addressed : IsAddressed (B.put key piece.bytes v).1
        addressed =
            put-IsAddressed collision_free piece.checksum piece.bytes p.hashed o v
              (exists-IsAddressed key w a)

        kept : Keeps w (B.put key piece.bytes v).1
        kept j d h =
            put-Keeps collision_free piece.checksum piece.bytes p.hashed o v
              (exists-IsAddressed key w a) j d (L.exists_same key w j ∙ h)

    store_piece-IsStored :
        (piece : ChunkPiece) (acc : Progress) (w : W)
        → IsPiece sha256 chunk_size piece
        → Occurs piece.bytes
        → IsAddressed w
        → IsStored piece w (store_piece B piece acc w)
    unfolding store_piece
    store_piece-IsStored piece acc w p o a = elim (found_cases (B.exists key w).0) [
      | inl e ↦ rw (e, continue) (found-IsStored piece _ w p o a (L.exists-true _ w e))
      | inr (inl e) ↦ rw (e, continue) (put-IsStored piece _ w p o a)
      | inr (inr (x, e)) ↦
          rw (e, continue)
            (record {
              addressed = exists-IsAddressed _ w a;
              kept = λ j d h. L.exists_same _ w j ∙ h;
              present = λ _ h. absurd (cc);
            })
    ]
      where
        key : String
        key = chunk_key piece.checksum

    -- What the whole loop leaves behind.
    pub record StoresAll (pieces : List ChunkPiece) (w : W) (r : Result Progress × W) : Type 0 where
      pub addressed : IsAddressed r.1
      pub kept : Keeps w r.1
      pub present :
          (acc : Progress)
          → r.0 ≡ ok acc
          → All (λ p. object r.1 (chunk_key p.checksum) ≡ some p.bytes) pieces

    StoresAll-cons :
        (piece : ChunkPiece) (pieces : List ChunkPiece) (w : W) (r : Result Progress × W)
        → IsStored piece w r
        → ((acc : Progress) (v : W)
            → IsAddressed v
            → StoresAll pieces v (store_pieces B pieces acc v))
        → StoresAll (piece ∷ pieces) w (continue r (store_pieces B pieces))
    StoresAll-cons piece pieces w (ok acc, v) s ih =
        let rest = ih acc v s.addressed in
        record {
          addressed = rest.addressed;
          kept = λ j d h. rest.kept j d (s.kept j d h);
          present = λ acc' h. (rest.kept _ _ (s.present acc refl), rest.present acc' h);
        }
    StoresAll-cons piece pieces w (err x, v) s ih = record {
      addressed = s.addressed;
      kept = s.kept;
      present = λ _ h. absurd (cc);
    }

    -- The loop loses no object, every chunk object stays under its own checksum, and if the loop
    -- ends without an error each piece is in the store under its key.
    pub store_pieces-StoresAll :
        (pieces : List ChunkPiece) (acc : Progress) (w : W)
        → All (IsPiece sha256 chunk_size) pieces
        → All (λ p. Occurs p.bytes) pieces
        → IsAddressed w
        → StoresAll pieces w (store_pieces B pieces acc w)
    unfolding store_pieces
    store_pieces-StoresAll [] acc w ps os a = record {
      addressed = a;
      kept = λ j d h. h;
      present = λ _ _. tt;
    }
    store_pieces-StoresAll (piece ∷ pieces) acc w ps os a =
        StoresAll-cons piece pieces w (store_piece B piece acc w)
          (store_piece-IsStored piece acc w ps.0 os.0 a)
          (λ acc' v. store_pieces-StoresAll pieces acc' v ps.1 os.1)
