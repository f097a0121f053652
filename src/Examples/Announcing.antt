-- ===== src/Examples/Announcing.antt =====
-- The queues: two services hear of two uploads, over a broker that is a function, and bob is told of one.
use text.Mathlib.TextPositions.{eq_refl}
use intelli_store.Prelude.{
  String, ◌≡◌, refl, Bool, true, false, ◌&&◌, ◌||◌, List, [], ◌∷◌, ◌++◌, All, ◌==◌, includes,
  if◌then◌else◌,
}
use intelli_store.Effects.{ok}
use intelli_store.SharedTypes.{
  ChunkUploadedBatchEvent, chunk_uploaded_key, events_exchange, file_accessed_key,
}
use intelli_store.Queue.{consume_all}
use intelli_store.Queue.Channel.{AmqpChannel, bind_all, publish_event, subscribe_event}
use intelli_store.Queue.Channel.Laws.{
  IsBroker, Subscription, publish_each, subscribe_each, subscribe_each-fans_out,
}
use intelli_store.Notification.Consumer.{default_queues, on_chunk_uploaded}
use intelli_store.Notification.Consumer.Laws.{IsNotified, consume_all-IsNotified}
use intelli_store.Examples.Using.{inbox, notifications}

record Broker : Type 0 where
  bindings : String → String → String → Bool
  queues : String → List String

abbrev channel : AmqpChannel Broker
channel = record {
  assert_topic_exchange = λ x w. (ok tt, w);
  assert_queue = λ q w. (ok tt, w);
  bind_queue = λ q x k w. (
    ok tt,
    record w { bindings = λ q' x' k'. (q' == q && (x' == x && k' == k)) || w.bindings q' x' k' },
  );
  prefetch = λ n w. (ok tt, w);
  publish = λ x k p w. (
    ok tt,
    record w { queues = λ q. if w.bindings q x k then w.queues q ++ p ∷ [] else w.queues q },
  );
  send_to_queue = λ q p w. (ok tt, w);
  consume_queue = λ q w. (ok tt, w);
}

or_right : (a b : Bool) → b ≡ true → (a || b) ≡ true
or_right true b h = refl
or_right false b h = h

law : IsBroker channel (λ w. w.queues) (λ w. w.bindings)
law = record {
  bind-bound = λ q x k w h. rw (eq_refl q, eq_refl x, eq_refl k) refl;
  bind_keeps = λ q x k w q' x' k' h. or_right _ (w.bindings q' x' k') h;
  exchange_keeps = λ x w q' x' k' h. h;
  queue_keeps = λ q w q' x' k' h. h;
  prefetch_keeps = λ n w q' x' k' h. h;
  consume_keeps = λ q w q' x' k' h. h;
  publish_keeps = λ x k p w q' x' k' h. h;
  exchange_same = λ x w q. refl;
  publish-waiting = λ x k p w q h b. rw b refl;
}

abbrev listeners : List Subscription
listeners =
    record { queue = default_queues.chunk_uploads_queue; keys = chunk_uploaded_key ∷ [] }
    ∷ record { queue = default_queues.chunk_uploaded_queue; keys = chunk_uploaded_key ∷ [] }
    ∷ record { queue = default_queues.file_access_queue; keys = file_accessed_key ∷ [] }
    ∷ []

abbrev quiet : Broker
quiet = record { bindings = λ q x k. false; queues = λ q. [] }

abbrev uploads : List String
uploads = "first" ∷ "second" ∷ []

subscribed : (subscribe_each channel events_exchange listeners quiet).0 ≡ ok tt
unfolding subscribe_each subscribe_event bind_all
subscribed = refl

published :
    (publish_each channel events_exchange chunk_uploaded_key uploads
      (subscribe_each channel events_exchange listeners quiet).1).0
    ≡ ok tt
unfolding publish_each publish_event
published = refl

subscribe_each-fans_out_example :
    let v = (subscribe_each channel events_exchange listeners quiet).1 in
    All
      (λ s.
        includes s.keys chunk_uploaded_key ≡ true
        → (publish_each channel events_exchange chunk_uploaded_key uploads v).1.queues s.queue
          ≡ v.queues s.queue ++ uploads)
      listeners
subscribe_each-fans_out_example =
    subscribe_each-fans_out channel (λ w. w.queues) (λ w. w.bindings) law events_exchange listeners
      chunk_uploaded_key uploads quiet subscribed published

abbrev upload : ChunkUploadedBatchEvent
upload = record {
  file_id = "f";
  owner_id = "bob";
  file_name = "notes.txt";
  version_id = "v";
  version_number = 2;
  chunks = [];
}

consume_all-IsNotified_example :
    IsNotified notifications
      (upload ∷ [])
      inbox
      (consume_all (on_chunk_uploaded notifications) (upload ∷ []) inbox)
consume_all-IsNotified_example = consume_all-IsNotified notifications (upload ∷ []) inbox
