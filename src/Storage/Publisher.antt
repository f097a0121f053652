-- ===== src/Storage/Publisher.antt =====
-- services/storage-service/src/events/rabbitmq-event-publisher.ts, over an AMQP channel.
use intelli_store.Prelude.{String}
use intelli_store.Effects.{pure, catch}
use intelli_store.SharedTypes.{
  ChunkUploadedBatchEvent, FileAccessedEvent, events_exchange, chunk_uploaded_key,
  file_accessed_key,
}
use intelli_store.Queue.Channel.{AmqpChannel, publish_event}
use intelli_store.Storage.Interfaces.{EventPublisher}

-- The log lines are left out; `stringify` is `JSON.stringify`.
module _ {W : Type 0} (channel : AmqpChannel W)
    (stringify_uploaded : ChunkUploadedBatchEvent → String)
    (stringify_accessed : FileAccessedEvent → String) where
  pub rabbit_mq_event_publisher : EventPublisher W
  rabbit_mq_event_publisher = record {
    publish_chunk_uploaded = λ event.
        catch (publish_event channel events_exchange chunk_uploaded_key (stringify_uploaded event))
          (λ _. pure tt);
    publish_file_accessed = λ event.
        catch (publish_event channel events_exchange file_accessed_key (stringify_accessed event))
          (λ _. pure tt);
  }
