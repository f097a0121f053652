-- ===== src/Notification/Consumer/Laws.antt =====
-- From the exchange to the inbox.
use intelli_store.Prelude.{◌+◌, ◌≡◌, refl, ap, ◌∙◌, false, some, List, [], ◌∷◌, ◌++◌, map, All}
use mathlib.Core.List.{append_assoc, append-nil}
use intelli_store.Prelude.{sym}
use intelli_store.SharedTypes.{ChunkUploadedBatchEvent}
use intelli_store.Queue.{Delivery, acked, consume_all}
use intelli_store.Notification.{
  Inbox, NotificationRecord, NotificationService, create, handle_chunk_uploaded, upload_message,
}
use intelli_store.Notification.Consumer.{on_chunk_uploaded}

module _ (S : NotificationService) where
  abbrev row : ChunkUploadedBatchEvent → Inbox → NotificationRecord
  row event i = record {
    id = S.gen_random_uuid i.ids;
    owner_id = event.owner_id;
    kind = "file.uploaded";
    message = upload_message S event;
    file_id = some event.file_id;
    is_read = false;
    created_at = i.clock;
  }

  -- The events of a queue give one notification each.
  pub record IsNotified (events : List ChunkUploadedBatchEvent) (i : Inbox)
      (r : List Delivery × Inbox) : Type 0 where
    pub all_acked : r.0 ≡ map (λ e. acked) events
    pub new : List NotificationRecord
    pub added : r.1.rows ≡ i.rows ++ new
    pub owners : map (λ n. n.owner_id) new ≡ map (λ e. e.owner_id) events
    pub files : map (λ n. n.file_id) new ≡ map (λ e. some e.file_id) events
    pub unread : All (λ n. n.is_read ≡ false) new

  -- Consuming uploaded batches acknowledges each, and adds, in their order, one unread notification
  -- for each to the owner of its file, naming the file; no other row is added or changed.
  pub consume_all-IsNotified :
      (events : List ChunkUploadedBatchEvent) (i : Inbox)
      → IsNotified events i (consume_all (on_chunk_uploaded S) events i)
  unfolding consume_all on_chunk_uploaded handle_chunk_uploaded create
  consume_all-IsNotified [] i = record {
    all_acked = refl;
    new = [];
    added = sym (append-nil i.rows);
    owners = refl;
    files = refl;
    unread = tt;
  }
  consume_all-IsNotified (e ∷ es) i =
      let i' : Inbox = record i { rows = i.rows ++ row e i ∷ []; ids = i.ids + 1 } in
      let rest = consume_all-IsNotified es i' in
      record {
        all_acked = ap (◌∷◌ acked) rest.all_acked;
        new = row e i ∷ rest.new;
        added = rest.added ∙ append_assoc i.rows (row e i ∷ []) rest.new;
        owners = ap (◌∷◌ e.owner_id) rest.owners;
        files = ap (◌∷◌ (some e.file_id)) rest.files;
        unread = (refl, rest.unread);
      }
