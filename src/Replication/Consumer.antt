-- ===== src/Replication/Consumer.antt =====
-- services/replication-service/src/index.ts: the handler of chunk-uploaded events, one batch at a time.
pub mod Laws
use intelli_store.Prelude.{List, [], ◌∷◌}
use intelli_store.Effects.{Exec, pure, ◌>>=◌, ◌>>◌}
use intelli_store.SharedTypes.{ChunkUploadedBatchEvent, ChunkUploadedEvent}
use intelli_store.Replication.Service.{World, ReplicationService, replicate_chunk}

module _ {N : Type 0} (S : ReplicationService N) where
  -- The loop over the chunks of an event.
  pub replicate_each : List ChunkUploadedEvent → Exec (World N) (Unit {0})
  replicate_each [] = pure tt
  replicate_each (chunk ∷ chunks) = do
    replicate_chunk S chunk.chunk_id chunk.storage_key chunk.size_bytes
    replicate_each chunks

  pub handle_chunk_batch : ChunkUploadedBatchEvent → Exec (World N) (Unit {0})
  unfolding replicate_each
  handle_chunk_batch event = replicate_each event.chunks
