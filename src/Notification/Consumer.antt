-- ===== src/Notification/Consumer.antt =====
-- services/notification-service/src/index.ts, and what the other services subscribe to in their index.ts:
-- the queues with their routing keys, and the two handlers of the notification service.
pub mod Laws
use intelli_store.Prelude.{String, List, [], ◌∷◌}
use intelli_store.Effects.{Exec, catch, pure, throw, ◌>>=◌, ◌>>◌}
use intelli_store.SharedTypes.{
  ChunkUploadedBatchEvent, FileAccessedEvent, chunk_uploaded_key, events_exchange,
  file_accessed_key,
}
use intelli_store.Queue.Channel.{AmqpChannel, subscribe_event}
use intelli_store.Notification.{
  Inbox, NotificationService, handle_chunk_uploaded, handle_file_accessed,
}

-- The queues of the configuration.
pub record QueueNames : Type 0 where
  pub chunk_uploads_queue : String
  pub file_access_queue : String
  pub chunk_uploaded_queue : String
  pub file_accessed_queue : String

-- Where the environment sets none of them.
abbrev pub default_queues : QueueNames
default_queues = record {
  chunk_uploads_queue = "chunk-uploads";
  file_access_queue = "file-access-events";
  chunk_uploaded_queue = "notifications.chunk-uploaded";
  file_accessed_queue = "notifications.file-accessed";
}

module _ {W : Type 0} (channel : AmqpChannel W) (names : QueueNames) where
  abbrev pub subscribe_replication : Exec W (Unit {0})
  subscribe_replication =
      subscribe_event channel events_exchange names.chunk_uploads_queue (chunk_uploaded_key ∷ [])

  abbrev pub subscribe_analytics : Exec W (Unit {0})
  subscribe_analytics =
      subscribe_event channel events_exchange names.file_access_queue (file_accessed_key ∷ [])

  abbrev pub subscribe_notification : Exec W (Unit {0})
  subscribe_notification = do
    subscribe_event channel events_exchange names.chunk_uploaded_queue (chunk_uploaded_key ∷ [])
    subscribe_event channel events_exchange names.file_accessed_queue (file_accessed_key ∷ [])

-- The handlers: what is caught is logged and thrown again.
module _ (S : NotificationService) where
  unfoldable pub on_chunk_uploaded : ChunkUploadedBatchEvent → Exec Inbox (Unit {0})
  on_chunk_uploaded event = catch (do handle_chunk_uploaded S event; pure tt) (λ e. throw e)

  unfoldable pub on_file_accessed : FileAccessedEvent → Exec Inbox (Unit {0})
  on_file_accessed event = catch (do handle_file_accessed S event; pure tt) (λ e. throw e)
