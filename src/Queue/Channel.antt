-- ===== src/Queue/Channel.antt =====
-- packages/shared-queue/src/index.ts: what is published to and consumed from the queues of a channel. The channel
-- is the AMQP library's; the payloads are texts of JSON.
pub mod Laws
use intelli_store.Prelude.{ℕ, String, Option, none, some, List, [], ◌∷◌}
use intelli_store.Effects.{Exec, Result, err, ok, pure, ◌>>◌}
use intelli_store.Queue.{Delivery, settle}

pub record AmqpChannel (W : Type 0) : Type 0 where
  -- `assertExchange` of a durable topic exchange, and `assertQueue` of a durable queue.
  pub assert_topic_exchange : String → Exec W (Unit {0})
  pub assert_queue : String → Exec W (Unit {0})
  -- The queue, the exchange and the routing key.
  pub bind_queue : String → String → String → Exec W (Unit {0})
  pub prefetch : ℕ → Exec W (Unit {0})
  -- The exchange, the routing key and the payload; the queue and the payload. Both persistent.
  pub publish : String → String → String → Exec W (Unit {0})
  pub send_to_queue : String → String → Exec W (Unit {0})
  -- `consume` of a queue, with the callback below.
  pub consume_queue : String → Exec W (Unit {0})

module _ {W : Type 0} (channel : AmqpChannel W) where
  open channel use {
    assert_topic_exchange, assert_queue, bind_queue, prefetch, publish, send_to_queue,
    consume_queue,
  }

  unfoldable pub publish_event : String → String → String → Exec W (Unit {0})
  publish_event exchange routing_key payload = do
    assert_topic_exchange exchange
    publish exchange routing_key payload

  unfoldable pub publish_json : String → String → Exec W (Unit {0})
  publish_json queue_name payload = do assert_queue queue_name; send_to_queue queue_name payload

  unfoldable pub bind_all : String → String → List String → Exec W (Unit {0})
  bind_all queue_name exchange [] = pure tt
  bind_all queue_name exchange (key ∷ keys) = do
    bind_queue queue_name exchange key
    bind_all queue_name exchange keys

  -- `subscribeEvent`, and `consumeJson` for a queue that producers write to themselves.
  unfoldable pub subscribe_event : String → String → List String → Exec W (Unit {0})
  subscribe_event exchange queue_name routing_keys = do
    assert_topic_exchange exchange
    assert_queue queue_name
    bind_all queue_name exchange routing_keys
    prefetch 1
    consume_queue queue_name

  unfoldable pub consume_json : String → Exec W (Unit {0})
  consume_json queue_name = do assert_queue queue_name; prefetch 1; consume_queue queue_name

-- What the callback does with a message: it is settled, or the callback itself throws, as `JSON.parse` does
-- before the handler is called; without a message nothing happens.
pub data Settled : Type 0 where
  settled : Delivery → Settled
  callback_threw ignored : Settled

module _ {W A B : Type 0} (parse : String → Option A) (handler : A → Exec W B) where
  abbrev handled : Result B × W → Settled × W
  handled (r, w) = (settled (settle r), w)

  abbrev of_parsed : Option A → W → Settled × W
  of_parsed none w = (callback_threw, w)
  of_parsed (some payload) w = handled (handler payload w)

  -- The callback of `channel.consume`; there is no message when the consumer is cancelled.
  unfoldable pub on_message : Option String → W → Settled × W
  on_message none w = (ignored, w)
  on_message (some content) w = of_parsed (parse content) w
