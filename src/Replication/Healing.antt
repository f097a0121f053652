-- ===== src/Replication/Healing.antt =====
-- services/replication-service/src/services/self-healing.service.ts. The timer of `start` and `stop` and
-- the log lines are left out: a sweep is a call of `heal_once`.
pub mod Marking
pub mod Progress
pub mod Reached
use intelli_store.Prelude.{ℕ, ◌-◌, String, not, List, [], ◌∷◌, map, filter, length, eqb}
use intelli_store.Effects.{Exec, pure, catch, ◌>>=◌, ◌>>◌}
use intelli_store.Replication.Nodes.{Nodes, list_all}
use intelli_store.Replication.Replicas.{
  ChunkReplicaRecord, Replicas, UnderReplicatedChunk, is_lost, list_by_node_ids,
  list_node_ids_for_chunk, list_under_replicated, mark_lost,
}
use intelli_store.Replication.Service.{World, ReplicationService, reads, writes, heal_chunk}

module _ {N : Type 0} (S : ReplicationService N) where
  open S use {postgres, replication_factor}

  abbrev pub unhealthy_node_ids : Nodes → List String
  unhealthy_node_ids nodes =
      map (λ n. n.id) (filter (λ n. not n.is_healthy) (list_all postgres nodes))

  abbrev pub at_risk : Nodes → Replicas → Replicas
  at_risk nodes rs =
      filter (λ r. not (is_lost r.status)) (list_by_node_ids (unhealthy_node_ids nodes) rs)

  -- The loop over the replicas at risk.
  pub mark_each_lost : List ChunkReplicaRecord → Replicas → Replicas
  mark_each_lost [] rs = rs
  mark_each_lost (r ∷ more) rs = mark_each_lost more (mark_lost r.id rs)

  -- With no unhealthy node nothing is at risk, so the early return needs no branch of its own.
  pub mark_replicas_on_unhealthy_nodes_lost : Exec (World N) (Unit {0})
  mark_replicas_on_unhealthy_nodes_lost = do
    at_risk_replicas ← reads (λ w. at_risk w.nodes w.replicas)
    writes (λ w. record w { replicas = mark_each_lost at_risk_replicas w.replicas })

  -- One round of the reconciliation, with its `try`.
  pub reconcile_chunk : UnderReplicatedChunk → Exec (World N) (Unit {0})
  reconcile_chunk chunk = do
    existing ← reads (λ w. list_node_ids_for_chunk chunk.chunk_id w.replicas)
    catch
        (do
          heal_chunk S chunk.chunk_id chunk.storage_key chunk.size_bytes
              (replication_factor - chunk.synced_count) existing
          pure tt)
        (λ _. pure tt)

  pub reconcile_each : List UnderReplicatedChunk → Exec (World N) (Unit {0})
  reconcile_each [] = pure tt
  reconcile_each (chunk ∷ chunks) = do reconcile_chunk chunk; reconcile_each chunks

  pub reconcile_under_replicated_chunks : Exec (World N) (Unit {0})
  reconcile_under_replicated_chunks = do
    under ← reads (λ w. list_under_replicated postgres replication_factor w.replicas)
    reconcile_each under

  pub heal_once : Exec (World N) (Unit {0})
  heal_once = do mark_replicas_on_unhealthy_nodes_lost; reconcile_under_replicated_chunks
