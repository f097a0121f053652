-- ===== src/Replication/Service.antt =====
-- services/replication-service/src/services/replication.service.ts. The log lines are left out, and the
-- queries do not fail; copying an object from bucket to bucket may.
pub mod Loop
pub mod Counting
pub mod Laws
pub mod Diagnosis
use intelli_store.Prelude.{
  ℕ, ◌+◌, ◌-◌, String, ◌<>◌, Bool, not, List, [], ◌∷◌, ◌++◌, filter, length, take, includes, leb,
  eqb, if◌then◌else◌,
}
use intelli_store.Prelude.Sorting.{Postgres}
use intelli_store.Effects.{Exec, Result, Failure, error, pure, throw, catch, unless, ◌>>=◌, ◌>>◌}
use intelli_store.Replication.Nodes.{
  Nodes, StorageNodeRecord, list_all, list_healthy, increment_used_bytes,
}
use intelli_store.Replication.Replicas.{
  Replicas, ChunkReplicaRecord, ReplicaStatus, synced, list_by_chunk, list_under_replicated, upsert,
}

-- The two tables, the objects of the nodes' buckets, the number of ids that the database has given,
-- and its clock.
pub record World (N : Type 0) : Type 0 where
  pub nodes : Nodes
  pub replicas : Replicas
  pub objects : N
  pub ids : ℕ
  pub clock : ℕ

pub record ReplicationService (N : Type 0) : Type 1 where
  pub postgres : Postgres
  -- `gen_random_uuid()`, the n-th time.
  pub gen_random_uuid : ℕ → String
  -- `NodeStorage.copyToNode`: source bucket, key, destination bucket.
  pub copy_to_node : String → String → String → Exec N (Unit {0})
  pub replication_factor : ℕ
  pub primary_bucket : String

pub record Diagnostics : Type 0 where
  pub total_nodes : ℕ
  pub healthy_nodes : ℕ
  pub unhealthy_nodes : ℕ
  pub under_replicated_chunk_count : ℕ

module _ {N : Type 0} where
  -- A query, and an update.
  abbrev pub reads : {A : Type 0} → (World N → A) → Exec (World N) A
  reads f w = pure (f w) w

  abbrev pub writes : (World N → World N) → Exec (World N) (Unit {0})
  writes f w = pure tt (f w)

  abbrev pub on_objects : {A : Type 0} → Exec N A → Exec (World N) A
  on_objects m w = let (r, o) = m w.objects in (r, record w { objects = o })

module _ {N : Type 0} (S : ReplicationService N) where
  open S use {postgres, gen_random_uuid, copy_to_node, replication_factor, primary_bucket}

  abbrev pub put_replica : String → String → String → ℕ → Exec (World N) ChunkReplicaRecord
  put_replica chunk_id node_id storage_key size_bytes w =
      let (row, rows) =
        upsert (gen_random_uuid w.ids) w.clock chunk_id node_id storage_key size_bytes synced
          w.replicas in
      pure row (record w { replicas = rows; ids = w.ids + 1 })

  pub replicate_to_node : String → ℕ → StorageNodeRecord → Exec (World N) (Unit {0})
  replicate_to_node storage_key size_bytes node = do
    on_objects (copy_to_node primary_bucket storage_key node.bucket)
    writes (λ w. record w { nodes = increment_used_bytes node.id size_bytes w.nodes })

  -- One round of the loop in `copyToTargets`, with its `try`.
  pub copy_to_target :
      String
      → String
      → ℕ
      → StorageNodeRecord
      → List ChunkReplicaRecord
      → Exec (World N) (List ChunkReplicaRecord)
  unfolding replicate_to_node
  copy_to_target chunk_id storage_key size_bytes node results =
      catch
        (do
          replicate_to_node storage_key size_bytes node
          replica ← put_replica chunk_id node.id storage_key size_bytes
          pure (results ++ replica ∷ []))
        (λ _. pure results)

  pub copy_loop :
      String
      → String
      → ℕ
      → List StorageNodeRecord
      → List ChunkReplicaRecord
      → Exec (World N) (List ChunkReplicaRecord)
  copy_loop chunk_id storage_key size_bytes [] results = pure results
  copy_loop chunk_id storage_key size_bytes (node ∷ targets) results = do
    results' ← copy_to_target chunk_id storage_key size_bytes node results
    copy_loop chunk_id storage_key size_bytes targets results'

  unfoldable pub copy_to_targets :
      String → String → ℕ → List StorageNodeRecord → Exec (World N) (List ChunkReplicaRecord)
  copy_to_targets chunk_id storage_key size_bytes targets = do
    results ← copy_loop chunk_id storage_key size_bytes targets []
    unless (eqb (length results) 0)
        (error (("Failed to replicate chunk " <> chunk_id) <> " to any node")) (pure results)

  unfoldable pub replicate_chunk : String → String → ℕ → Exec (World N) (List ChunkReplicaRecord)
  replicate_chunk chunk_id storage_key size_bytes = do
    healthy ← reads (λ w. list_healthy postgres w.nodes)
    unless (eqb (length healthy) 0) (error "No healthy storage nodes available for replication")
        (copy_to_targets chunk_id storage_key size_bytes (take replication_factor healthy))

  -- The targets of `healChunk`: healthy nodes that are not excluded, at most as many as are needed.
  abbrev pub heal_targets : ℕ → List String → Nodes → List StorageNodeRecord
  heal_targets needed exclude nodes =
      take needed (filter (λ n. not (includes exclude n.id)) (list_healthy postgres nodes))

  unfoldable pub heal_chunk :
      String → String → ℕ → ℕ → List String → Exec (World N) (List ChunkReplicaRecord)
  heal_chunk chunk_id storage_key size_bytes needed exclude = if leb needed 0 then pure [] else do
    targets ← reads (λ w. heal_targets needed exclude w.nodes)
    if eqb (length targets) 0
        then pure []
        else copy_to_targets chunk_id storage_key size_bytes targets

  unfoldable pub list_replicas : String → Exec (World N) Replicas
  list_replicas chunk_id = reads (λ w. list_by_chunk chunk_id w.replicas)

  unfoldable pub list_nodes : Exec (World N) Nodes
  list_nodes = reads (λ w. list_all postgres w.nodes)

  unfoldable pub get_diagnostics : Exec (World N) Diagnostics
  get_diagnostics = do
    nodes ← reads (λ w. list_all postgres w.nodes)
    under ← reads (λ w. list_under_replicated postgres replication_factor w.replicas)
    let healthy = length (filter (λ n. n.is_healthy) nodes)
    pure (record {
      total_nodes = length nodes;
      healthy_nodes = healthy;
      unhealthy_nodes = length nodes - healthy;
      under_replicated_chunk_count = length under;
    })
