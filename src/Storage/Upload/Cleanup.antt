-- ===== src/Storage/Upload/Cleanup.antt =====
-- `registerWithCleanup`: what a failed registration leaves behind, alone and beside another upload.
use intelli_store.Prelude.{
  String, ◌≡◌, refl, sym, ap, subst, ◌∙◌, inl, inr, true, false, Option, none, List, [], ◌∷◌, ◌++◌,
  arith, includes, ◌==◌, eq_iff, ◌||◌, Bool-cases, if◌then◌else◌,
}
use intelli_store.Effects.{Exec, Result, ok, err, pure, continue}
use intelli_store.Storage.Chunking.{Bytes, ChunkPiece}
use intelli_store.Storage.Interfaces.{StorageBackend, IsObjectStore, IsReliable}
use intelli_store.Storage.Upload.{
  Progress, no_progress, chunk_key, store_piece, store_pieces, delete_all,
}
use intelli_store.Storage.Upload.Dedup.{found_cases, put_cases}

module _ {W : Type 0} (B : StorageBackend W) (object : W → String → Option Bytes)
    (L : IsObjectStore B object) (R : IsReliable B object) where
  delete-object :
      (k : String) (w : W) (j : String)
      → object (B.delete k w).1 j ≡ (if k == j then none else object w j)
  delete-object k w j = elim (Bool-cases (k == j)) [
    | inl e ↦ rw e (ap (object _) (sym ((eq_iff k j).0 e)) ∙ R.delete_self k w)
    | inr e ↦ rw e (L.delete_ne k w j (λ p. cc (e, (eq_iff k j).1 (sym p))))
  ]

  -- The clean-up removes exactly the objects under the given keys.
  pub delete_all-object :
      (keys : List String) (w : W) (j : String)
      → object (delete_all B keys w) j ≡ (if includes keys j then none else object w j)
  unfolding delete_all
  delete_all-object [] w j = refl
  delete_all-object (k ∷ keys) w j =
      delete_all-object keys (B.delete k w).1 j ∙ ground (arith, delete-object k w j)

  includes-append :
      (xs : List String) (k j : String) → includes (xs ++ k ∷ []) j ≡ (includes xs j || k == j)
  includes-append [] k j = ground arith
  includes-append (x ∷ xs) k j = ground (arith, includes-append xs k j)

  -- The keys of `acc` are new since `w`, and no other object has changed since.
  pub record Tracks (w : W) (acc : Progress) (v : W) : Type 0 where
    pub fresh : (j : String) → includes acc.newly_written_keys j ≡ true → object w j ≡ none
    pub rest : (j : String) → includes acc.newly_written_keys j ≡ false → object v j ≡ object w j

  exists-Tracks :
      (w : W) (acc : Progress) (v : W) (k : String) → Tracks w acc v → Tracks w acc (B.exists k v).1
  exists-Tracks w acc v k t = record {
    fresh = t.fresh;
    rest = λ j h. L.exists_same k v j ∙ t.rest j h;
  }

  -- So after a run that did not fail.
  abbrev pub TracksRun : W → Result Progress × W → Type 0
  TracksRun w r = (acc : Progress) → r.0 ≡ ok acc → Tracks w acc r.1

  TracksRun-ok : (w : W) (acc : Progress) (v : W) → Tracks w acc v → TracksRun w (ok acc, v)
  TracksRun-ok w acc v t acc' h = let e : acc ≡ acc' = cc in subst (λ a. Tracks w a v) e t

  missing_since :
      (w : W) (acc : Progress) (v : W) (k : String)
      → Tracks w acc v
      → object v k ≡ none
      → object w k ≡ none
  missing_since w acc v k t h = elim (Bool-cases (includes acc.newly_written_keys k)) [
    | inl e ↦ t.fresh k e
    | inr e ↦ sym (t.rest k e) ∙ h
  ]

  -- A `put` of a key that was missing.
  put-TracksRun :
      (piece : ChunkPiece) (w : W) (acc : Progress) (v : W)
      → Tracks w acc v
      → object v (chunk_key piece.checksum) ≡ none
      → let k = chunk_key piece.checksum in
        TracksRun w (
          continue
            (B.put k piece.bytes v)
            (λ _. pure (record acc { newly_written_keys = acc.newly_written_keys ++ k ∷ [] })))
  put-TracksRun piece w acc v t h = elim (put_cases (B.put k piece.bytes v).0) [
    | inl e ↦
        rw (e, continue)
          (TracksRun-ok w _ _ (record {
            fresh = λ j p. elim (Bool-cases (includes acc.newly_written_keys j)) [
              | inl q ↦ t.fresh j q
              | inr q ↦
                  ap (object w)
                    (sym (same j (ground (arith, includes-append acc.newly_written_keys k j))))
                  ∙ missing_since w acc v k t h
            ];
            rest = λ j p.
                let (old, other) = split j p in
                L.put_ne k piece.bytes v j (λ q. cc (other, (eq_iff k j).1 (sym q))) ∙ t.rest j old;
          }))
    | inr (x, e) ↦ rw (e, continue) (λ _ q. absurd (cc))
  ]
    where
      k : String
      k = chunk_key piece.checksum

      same : (j : String) → (k == j) ≡ true → k ≡ j
      same j = (eq_iff k j).0

      split :
          (j : String)
          → includes (acc.newly_written_keys ++ k ∷ []) j ≡ false
          → (includes acc.newly_written_keys j ≡ false) × ((k == j) ≡ false)
      split j p = ground (arith, includes-append acc.newly_written_keys k j)

  store_piece-TracksRun :
      (piece : ChunkPiece) (w : W) (acc : Progress) (v : W)
      → Tracks w acc v
      → TracksRun w (store_piece B piece acc v)
  unfolding store_piece
  store_piece-TracksRun piece w acc v t = elim (found_cases (B.exists k v).0) [
    | inl e ↦
        rw (e, continue) (TracksRun-ok w _ _ (record { fresh = t.fresh; rest = checked.rest }))
    | inr (inl e) ↦
        rw (e, continue)
          (put-TracksRun piece w acc _ checked (L.exists_same k v k ∙ R.exists-false k v e))
    | inr (inr (x, e)) ↦ rw (e, continue) (λ _ q. absurd (cc))
  ]
    where
      k : String
      k = chunk_key piece.checksum

      checked : Tracks w acc (B.exists k v).1
      checked = exists-Tracks w acc v k t

  TracksRun-bind :
      (w : W) (r : Result Progress × W) (f : Progress → Exec W Progress)
      → TracksRun w r
      → ((acc : Progress) (v : W) → Tracks w acc v → TracksRun w (f acc v))
      → TracksRun w (continue r f)
  TracksRun-bind w (ok acc, v) f t g = g acc v (t acc refl)
  TracksRun-bind w (err x, v) f t g = λ _ q. absurd (cc)

  pub store_pieces-TracksRun :
      (pieces : List ChunkPiece) (w : W) (acc : Progress) (v : W)
      → Tracks w acc v
      → TracksRun w (store_pieces B pieces acc v)
  unfolding store_pieces
  store_pieces-TracksRun [] w acc v t = TracksRun-ok w acc v t
  store_pieces-TracksRun (piece ∷ pieces) w acc v t =
      TracksRun-bind w _ (store_pieces B pieces) (store_piece-TracksRun piece w acc v t)
        (store_pieces-TracksRun pieces w)

  pub Tracks-refl : (w : W) → Tracks w no_progress w
  Tracks-refl w = record { fresh = λ j h. absurd (cc); rest = λ j h. refl }

  -- Cleaning up the keys that were new since `w` brings the objects of `w` back.
  pub delete_all-Tracks :
      (w : W) (acc : Progress) (v : W)
      → Tracks w acc v
      → (j : String) → object (delete_all B acc.newly_written_keys v) j ≡ object w j
  delete_all-Tracks w acc v t j = elim (Bool-cases (includes acc.newly_written_keys j)) [
    | inl e ↦ delete_all-object acc.newly_written_keys v j ∙ rw e (sym (t.fresh j e))
    | inr e ↦ delete_all-object acc.newly_written_keys v j ∙ rw e (t.rest j e)
  ]
