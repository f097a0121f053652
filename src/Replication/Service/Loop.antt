-- ===== src/Replication/Service/Loop.antt =====
-- The loop of `copyToTargets`: one rule for what it keeps, from which the laws of the service follow.
use intelli_store.Prelude.{ℕ, ◌+◌, String, ◌≡◌, refl, inl, inr, List, [], ◌∷◌, ◌++◌}
use intelli_store.Effects.{Result, Failure, ok, err, Result-cases}
use intelli_store.Replication.Nodes.{StorageNodeRecord, increment_used_bytes}
use intelli_store.Replication.Replicas.{ChunkReplicaRecord, synced, upsert}
use intelli_store.Replication.Service.{World, ReplicationService, copy_to_target, copy_loop}

module _ {N : Type 0} (S : ReplicationService N) (chunk_id storage_key : String)
    (size_bytes : ℕ) where
  abbrev pub copy : StorageNodeRecord → N → Result (Unit {0}) × N
  copy node o = S.copy_to_node S.primary_bucket storage_key node.bucket o

  -- The row that a successful copy to a node leaves, and the world with it.
  abbrev pub copied_row : StorageNodeRecord → World N → ChunkReplicaRecord
  copied_row node w =
      (upsert (S.gen_random_uuid w.ids) w.clock chunk_id node.id storage_key size_bytes synced
        w.replicas).0

  abbrev pub copied_world : StorageNodeRecord → World N → World N
  copied_world node w = record {
    nodes = increment_used_bytes node.id size_bytes w.nodes;
    replicas =
        (upsert (S.gen_random_uuid w.ids) w.clock chunk_id node.id storage_key size_bytes synced
          w.replicas).1;
    objects = (copy node w.objects).1;
    ids = w.ids + 1;
    clock = w.clock;
  }

  copy_to_target_ok :
      (node : StorageNodeRecord) (results : List ChunkReplicaRecord) (w : World N)
      → (copy node w.objects).0 ≡ ok tt
      → copy_to_target S chunk_id storage_key size_bytes node results w
        ≡ (ok (results ++ copied_row node w ∷ []), copied_world node w)
  unfolding copy_to_target
  copy_to_target_ok node results w e = rw e

  copy_to_target_err :
      (node : StorageNodeRecord) (results : List ChunkReplicaRecord) (w : World N) {x : Failure}
      → (copy node w.objects).0 ≡ err x
      → copy_to_target S chunk_id storage_key size_bytes node results w
        ≡ (ok results, record w { objects = (copy node w.objects).1 })
  unfolding copy_to_target
  copy_to_target_err node results w e = rw e

  -- What holds of the targets to come, the world and the results before the loop, and is kept by a
  -- copy that succeeds and by one that fails, holds after the loop, which never throws.
  module _ (I : List StorageNodeRecord → World N → List ChunkReplicaRecord → Type 0)
      (good : (node : StorageNodeRecord) (rest : List StorageNodeRecord) (w : World N)
          (results : List ChunkReplicaRecord)
        → I (node ∷ rest) w results
        → (copy node w.objects).0 ≡ ok tt
        → I rest (copied_world node w) (results ++ copied_row node w ∷ []))
      (bad : (node : StorageNodeRecord) (rest : List StorageNodeRecord) (w : World N)
          (results : List ChunkReplicaRecord) (x : Failure)
        → I (node ∷ rest) w results
        → (copy node w.objects).0 ≡ err x
        → I rest (record w { objects = (copy node w.objects).1 }) results) where
    pub copy_loop_inv :
        (targets : List StorageNodeRecord) (results : List ChunkReplicaRecord) (w : World N)
        → I targets w results
        → (results' : List ChunkReplicaRecord) × ((copy_loop S chunk_id storage_key size_bytes
              targets results w).0
            ≡ ok results')
          × I [] (copy_loop S chunk_id storage_key size_bytes targets results w).1 results'
    unfolding copy_loop
    copy_loop_inv [] results w h = (results, refl, h)
    copy_loop_inv (node ∷ rest) results w h = elim (Result-cases (copy node w.objects).0) [
      | inl (_, e) ↦
          rw (copy_to_target_ok node results w e)
            (copy_loop_inv rest _ _ (good node rest w results h e))
      | inr (x, e) ↦
          rw (copy_to_target_err node results w e)
            (copy_loop_inv rest _ _ (bad node rest w results x h e))
    ]
