-- ===== src/Replication/Consumer/Laws.antt =====
-- What an acknowledged batch of uploaded chunks leaves in the table of replicas.
use text.Mathlib.TextPositions.{eq_refl}
use intelli_store.Prelude.{
  ℕ, ◌+◌, ◌≤◌, String, ◌≡◌, refl, sym, ap, subst, ◌∙◌, inl, inr, true, ◌&&◌, some, List, [], ◌∷◌,
  ◌++◌, arith, eqb, All, find?, filter, filter-append, length, length-append, take, update_where,
  Bool-cases, Option-cases,
}
use intelli_store.Effects.{Result, ok, err, continue, Result-cases}
use intelli_store.SharedTypes.{ChunkUploadedBatchEvent, ChunkUploadedEvent}
use intelli_store.Queue.{acked, consume}
use intelli_store.Replication.Nodes.{StorageNodeRecord, list_healthy}
use intelli_store.Replication.Replicas.{
  ChunkReplicaRecord, Replicas, at, is_synced, new_row, of_chunk, refreshed, synced, synced_count,
  upsert,
}
use intelli_store.Replication.Service.{World, ReplicationService, copy_to_targets, replicate_chunk}
use intelli_store.Replication.Service.Loop.{copy_loop_inv}
use intelli_store.Replication.Consumer.{handle_chunk_batch, replicate_each}

-- Refreshing rows with the status synced never lowers a count of synced rows, and raises the chunk's
-- own to at least 1 if there is a row to refresh.
synced_count-refreshed :
    (c n c' : String) (size now : ℕ) (rs : Replicas)
    → synced_count c' rs ≤ synced_count c' (update_where (at c n) (refreshed size synced now) rs)
synced_count-refreshed c n c' size now [] = omega arith
synced_count-refreshed c n c' size now (r ∷ rs) =
    ground (arith, synced_count-refreshed c n c' size now rs)

synced_count-found :
    (c n : String) (size now : ℕ) (rs : Replicas) {r : ChunkReplicaRecord}
    → find? (at c n) rs ≡ some r
    → 1 ≤ synced_count c (update_where (at c n) (refreshed size synced now) rs)
synced_count-found c n size now [] h = absurd (cc)
synced_count-found c n size now (q ∷ rs) h = elim (Bool-cases (at c n q)) [
  | inl e ↦ let mine : of_chunk c q ≡ true = ground (arith, e) in rw e (rw mine (omega arith))
  | inr e ↦ let rest = synced_count-found c n size now rs (rw e at h) in rw e (ground (arith, rest))
]

module _ (id : String) (now : ℕ) (c n key : String) (size : ℕ) (rs : Replicas) where
  -- An upsert of a synced row never lowers a count of synced rows, and the chunk then has one.
  upsert-synced_count :
      let rs' = (upsert id now c n key size synced rs).1 in
      ((c' : String) → synced_count c' rs ≤ synced_count c' rs') × (1 ≤ synced_count c rs')
  unfolding upsert
  upsert-synced_count = elim (Option-cases (find? (at c n) rs)) [
    | inr (r, e) ↦
        rw e (λ c'. synced_count-refreshed c n c' size now rs, synced_count-found c n size now rs e)
    | inl e ↦ rw e (grown, own)
  ]
    where
      row : ChunkReplicaRecord
      row = new_row id now c n key size synced

      sums :
          (c' : String)
          → synced_count c' (rs ++ row ∷ [])
            ≡ synced_count c' rs
              + length (filter (λ r. of_chunk c' r && is_synced r.status) (row ∷ []))
      sums c' =
          ap length (filter-append (λ r. of_chunk c' r && is_synced r.status) rs (row ∷ []))
          ∙ length-append (filter (λ r. of_chunk c' r && is_synced r.status) rs) _

      grown : (c' : String) → synced_count c' rs ≤ synced_count c' (rs ++ row ∷ [])
      grown c' = omega (arith, sums c')

      own : 1 ≤ synced_count c (rs ++ row ∷ [])
      own = rw (sums c, eq_refl c) (omega arith)

module _ {N : Type 0} (S : ReplicationService N) where
  abbrev Grows : World N → World N → Type 0
  Grows w w' = (c : String) → synced_count c w.replicas ≤ synced_count c w'.replicas

  -- A chunk's replication never lowers a count, and if it returns the chunk has a synced replica.
  replicate_chunk-Grows :
      (c key : String) (size : ℕ) (w : World N)
      → let (r, w') = replicate_chunk S c key size w in
        Grows w w'
        × ((rows : List ChunkReplicaRecord) → r ≡ ok rows → 1 ≤ synced_count c w'.replicas)
  unfolding replicate_chunk copy_to_targets
  replicate_chunk-Grows c key size w =
      elim (Bool-cases (eqb (length (list_healthy S.postgres w.nodes)) 0)) [
        | inl e ↦ rw e (λ c'. omega arith, λ rows h. absurd (cc))
        | inr e ↦
            let (rows, r, h) =
              copy_loop_inv S c key size I
                (λ node rest v rows i e'.
                  let up =
                    upsert-synced_count (S.gen_random_uuid v.ids) v.clock c node.id key size
                      v.replicas in
                  (λ c'. omega (arith, i.0 c', up.0 c'), λ k. up.1))
                (λ node rest v rows x i e'. i)
                (take S.replication_factor (list_healthy S.postgres w.nodes)) [] w
                (λ c'. omega arith, λ k. absurd (omega (arith, k))) in
            elim (Bool-cases (eqb (length rows) 0)) [
              | inl z ↦ rw e (rw r (rw z (h.0, λ rows' h'. absurd (cc))))
              | inr z ↦ rw e (rw r (rw z (h.0, λ rows' h'. h.1 (ground (arith, z)))))
            ]
      ]
    where
      I : List StorageNodeRecord → World N → List ChunkReplicaRecord → Type 0
      I targets v rows = Grows w v × (1 ≤ length rows → 1 ≤ synced_count c v.replicas)

  -- What a run over chunks leaves.
  abbrev IsHandled : List ChunkUploadedEvent → World N → Result (Unit {0}) × World N → Type 0
  IsHandled chunks w p =
      Grows w p.1 × (p.0 ≡ ok tt → All (λ ch. 1 ≤ synced_count ch.chunk_id p.1.replicas) chunks)

  replicate_each-step :
      (ch : ChunkUploadedEvent) (chunks : List ChunkUploadedEvent) (w : World N)
      → replicate_each S (ch ∷ chunks) w
        ≡ continue
            (replicate_chunk S ch.chunk_id ch.storage_key ch.size_bytes w)
            (λ _. replicate_each S chunks)
  unfolding replicate_each
  replicate_each-step ch chunks w = refl

  continue-IsHandled :
      (ch : ChunkUploadedEvent) (chunks : List ChunkUploadedEvent) (w : World N)
      (p : Result (List ChunkReplicaRecord) × World N)
      → Grows w p.1
      → ((rows : List ChunkReplicaRecord)
          → p.0 ≡ ok rows
          → 1 ≤ synced_count ch.chunk_id p.1.replicas)
      → IsHandled chunks p.1 (replicate_each S chunks p.1)
      → IsHandled (ch ∷ chunks) w (continue p (λ _. replicate_each S chunks))
  continue-IsHandled ch chunks w (ok rows, v) g one (g', all) =
      (λ c. omega (arith, g c, g' c), λ h. (omega (arith, one rows refl, g' ch.chunk_id), all h))
  continue-IsHandled ch chunks w (err x, v) g one rest = (g, λ h. absurd (cc))

  replicate_each-nil : (w : World N) → IsHandled [] w (replicate_each S [] w)
  unfolding replicate_each
  replicate_each-nil w = (λ c. omega arith, λ h. tt)

  replicate_each-IsHandled :
      (chunks : List ChunkUploadedEvent) (w : World N)
      → IsHandled chunks w (replicate_each S chunks w)
  replicate_each-IsHandled [] w = replicate_each-nil w
  replicate_each-IsHandled (ch ∷ chunks) w =
      let (g, one) = replicate_chunk-Grows ch.chunk_id ch.storage_key ch.size_bytes w in
      subst (IsHandled (ch ∷ chunks) w) (sym (replicate_each-step ch chunks w)) (
        continue-IsHandled ch chunks w
          (replicate_chunk S ch.chunk_id ch.storage_key ch.size_bytes w) g one
          (replicate_each-IsHandled chunks
            (replicate_chunk S ch.chunk_id ch.storage_key ch.size_bytes w).1))

  -- Handling a batch never lowers the number of synced replicas of any chunk, and if the message is
  -- acknowledged every chunk of the batch has a synced replica.
  pub handle_chunk_batch-acked :
      (event : ChunkUploadedBatchEvent) (w : World N)
      → let (d, w') = consume (handle_chunk_batch S) event w in
        ((c : String) → synced_count c w.replicas ≤ synced_count c w'.replicas)
        × (d ≡ acked → All (λ ch. 1 ≤ synced_count ch.chunk_id w'.replicas) event.chunks)
  unfolding handle_chunk_batch
  handle_chunk_batch-acked event w =
      let (g, all) = replicate_each-IsHandled event.chunks w in
      elim (Result-cases (replicate_each S event.chunks w).0) [
        | inl (_, e) ↦ rw e (g, λ h. all e)
        | inr (x, e) ↦ rw e (g, λ h. absurd (cc))
      ]
