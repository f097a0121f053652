-- ===== src/Queue/Channel/Laws.antt =====
-- Fan-out: every subscriber's queue gets its own copy of an event.
use intelli_store.Prelude.{
  ℕ, String, ◌≡◌, sym, ap, subst, ◌∙◌, inl, inr, Bool, true, List, [], ◌∷◌, ◌++◌, All, All-map,
  ◌==◌, eq_iff, includes, Bool-cases,
}
use mathlib.Core.List.{append_assoc, append-nil}
use intelli_store.Effects.{Exec, Result-cases, continue, ok, pure, ◌>>◌, >>=-eq-ok}
use intelli_store.Queue.Channel.{AmqpChannel, bind_all, publish_event, subscribe_event}

-- What is documented of a broker: `waiting w q` are the payloads that wait in the queue, the oldest first, and
-- `bound w q x k` says that the queue is bound to the exchange with the key.
pub record IsBroker {W : Type 0} (C : AmqpChannel W) (waiting : W → String → List String)
    (bound : W → String → String → String → Bool) : Type 0 where
  pub bind-bound :
      (q x k : String) (w : W)
      → (C.bind_queue q x k w).0 ≡ ok tt
      → bound (C.bind_queue q x k w).1 q x k ≡ true
  -- No call takes a binding away, and only `publish` and `send_to_queue` write to queues.
  pub bind_keeps :
      (q x k : String) (w : W) (q' x' k' : String)
      → bound w q' x' k' ≡ true
      → bound (C.bind_queue q x k w).1 q' x' k' ≡ true
  pub exchange_keeps :
      (x : String) (w : W) (q' x' k' : String)
      → bound w q' x' k' ≡ true
      → bound (C.assert_topic_exchange x w).1 q' x' k' ≡ true
  pub queue_keeps :
      (q : String) (w : W) (q' x' k' : String)
      → bound w q' x' k' ≡ true
      → bound (C.assert_queue q w).1 q' x' k' ≡ true
  pub prefetch_keeps :
      (n : ℕ) (w : W) (q' x' k' : String)
      → bound w q' x' k' ≡ true
      → bound (C.prefetch n w).1 q' x' k' ≡ true
  pub consume_keeps :
      (q : String) (w : W) (q' x' k' : String)
      → bound w q' x' k' ≡ true
      → bound (C.consume_queue q w).1 q' x' k' ≡ true
  pub publish_keeps :
      (x k p : String) (w : W) (q' x' k' : String)
      → bound w q' x' k' ≡ true
      → bound (C.publish x k p w).1 q' x' k' ≡ true
  pub exchange_same :
      (x : String) (w : W) (q : String) → waiting (C.assert_topic_exchange x w).1 q ≡ waiting w q
  -- A queue that is bound gets one copy, however often it is bound with the key.
  pub publish-waiting :
      (x k p : String) (w : W) (q : String)
      → (C.publish x k p w).0 ≡ ok tt
      → bound w q x k ≡ true
      → waiting (C.publish x k p w).1 q ≡ waiting w q ++ p ∷ []

-- A service's own queue, and the keys that it listens to.
pub record Subscription : Type 0 where
  pub queue : String
  pub keys : List String

module _ {W : Type 0} (C : AmqpChannel W) (exchange : String) where
  -- The services subscribe one after another, and the events are published after that.
  unfoldable pub subscribe_each : List Subscription → Exec W (Unit {0})
  subscribe_each [] = pure tt
  subscribe_each (s ∷ ss) = do subscribe_event C exchange s.queue s.keys; subscribe_each ss

  unfoldable pub publish_each : String → List String → Exec W (Unit {0})
  publish_each key [] = pure tt
  publish_each key (p ∷ ps) = do publish_event C exchange key p; publish_each key ps

>>-ok :
    {W : Type 0} (m n : Exec W (Unit {0})) (w : W)
    → ((m >> n) w).0 ≡ ok tt
    → ((m w).0 ≡ ok tt) × ((m >> n) w ≡ n (m w).1)
>>-ok m n w h = let (_, e, f) = >>=-eq-ok m (λ _. n) w h in (e, f)

module _ {W : Type 0} (C : AmqpChannel W) (waiting : W → String → List String)
    (bound : W → String → String → String → Bool) (L : IsBroker C waiting bound)
    (exchange : String) where
  -- A call that takes no binding away.
  abbrev Keeps : Exec W (Unit {0}) → Type 0
  Keeps m = (w : W) (q k : String) → bound w q exchange k ≡ true → bound (m w).1 q exchange k ≡ true

  >>-Keeps : (m n : Exec W (Unit {0})) → Keeps m → Keeps n → Keeps (m >> n)
  >>-Keeps m n hm hn w q k b = elim (Result-cases (m w).0) [
    | inl (a, e) ↦ rw (e, continue) (hn (m w).1 q k (hm w q k b))
    | inr (x, e) ↦ rw (e, continue) (hm w q k b)
  ]

  bind_all-Keeps : (queue : String) (keys : List String) → Keeps (bind_all C queue exchange keys)
  unfolding bind_all
  bind_all-Keeps queue [] = λ w q k b. b
  bind_all-Keeps queue (x ∷ xs) =
      >>-Keeps (C.bind_queue queue exchange x) (bind_all C queue exchange xs)
        (λ w q k. L.bind_keeps queue exchange x w q exchange k) (bind_all-Keeps queue xs)

  bind_all-bound :
      (queue : String) (keys : List String) (k : String) (w : W)
      → (bind_all C queue exchange keys w).0 ≡ ok tt
      → includes keys k ≡ true
      → bound (bind_all C queue exchange keys w).1 queue exchange k ≡ true
  unfolding bind_all
  bind_all-bound queue [] k w h i = absurd (cc)
  bind_all-bound queue (x ∷ xs) k w h i =
      let (first, rest) =
        >>-ok (C.bind_queue queue exchange x) (bind_all C queue exchange xs) w h in
      let w' = (C.bind_queue queue exchange x w).1 in
      ap (λ r. bound r.1 queue exchange k) rest ∙ elim (Bool-cases (x == k)) [
        | inl e ↦ bind_all-Keeps queue xs w' queue k (
            subst (λ y. bound w' queue exchange y ≡ true) ((eq_iff x k).0 e)
              (L.bind-bound queue exchange x w first))
        | inr e ↦
            let later : includes xs k ≡ true = rw e at i in
            bind_all-bound queue xs k w' (sym (ap (λ r. r.0) rest) ∙ h) later
      ]

  -- The steps of a subscription from the limit of messages on, from the bindings on, and from the queue on.
  abbrev closing : String → Exec W (Unit {0})
  closing queue = C.prefetch 1 >> C.consume_queue queue

  abbrev joining : String → List String → Exec W (Unit {0})
  joining queue keys = bind_all C queue exchange keys >> closing queue

  abbrev entering : String → List String → Exec W (Unit {0})
  entering queue keys = C.assert_queue queue >> joining queue keys

  closing-Keeps : (queue : String) → Keeps (closing queue)
  closing-Keeps queue =
      >>-Keeps (C.prefetch 1) (C.consume_queue queue) (λ w q k. L.prefetch_keeps 1 w q exchange k)
        (λ w q k. L.consume_keeps queue w q exchange k)

  subscribe_event-Keeps :
      (queue : String) (keys : List String) → Keeps (subscribe_event C exchange queue keys)
  unfolding subscribe_event
  subscribe_event-Keeps queue keys =
      >>-Keeps (C.assert_topic_exchange exchange) (entering queue keys)
        (λ w q k. L.exchange_keeps exchange w q exchange k)
        (>>-Keeps (C.assert_queue queue) (joining queue keys)
          (λ w q k. L.queue_keeps queue w q exchange k)
          (>>-Keeps (bind_all C queue exchange keys) (closing queue) (bind_all-Keeps queue keys)
            (closing-Keeps queue)))

  subscribe_event-bound :
      (queue : String) (keys : List String) (k : String) (w : W)
      → (subscribe_event C exchange queue keys w).0 ≡ ok tt
      → includes keys k ≡ true
      → bound (subscribe_event C exchange queue keys w).1 queue exchange k ≡ true
  unfolding subscribe_event
  subscribe_event-bound queue keys k w h i =
      let (_, entered) = >>-ok (C.assert_topic_exchange exchange) (entering queue keys) w h in
      let w₁ = (C.assert_topic_exchange exchange w).1 in
      let h₁ = sym (ap (λ r. r.0) entered) ∙ h in
      let (_, joined) = >>-ok (C.assert_queue queue) (joining queue keys) w₁ h₁ in
      let w₂ = (C.assert_queue queue w₁).1 in
      let (bound_ok, closed) =
        >>-ok (bind_all C queue exchange keys) (closing queue) w₂
          (sym (ap (λ r. r.0) joined) ∙ h₁) in
      ap (λ r. bound r.1 queue exchange k) (entered ∙ joined ∙ closed)
      ∙ closing-Keeps queue (bind_all C queue exchange keys w₂).1 queue k
          (bind_all-bound queue keys k w₂ bound_ok i)

  subscribe_each-Keeps : (ss : List Subscription) → Keeps (subscribe_each C exchange ss)
  unfolding subscribe_each
  subscribe_each-Keeps [] = λ w q k b. b
  subscribe_each-Keeps (s ∷ ss) =
      >>-Keeps (subscribe_event C exchange s.queue s.keys) (subscribe_each C exchange ss)
        (subscribe_event-Keeps s.queue s.keys) (subscribe_each-Keeps ss)

  abbrev Listens : W → String → Subscription → Type 0
  Listens w k s = includes s.keys k ≡ true → bound w s.queue exchange k ≡ true

  subscribe_each-bound :
      (ss : List Subscription) (k : String) (w : W)
      → (subscribe_each C exchange ss w).0 ≡ ok tt
      → All (Listens (subscribe_each C exchange ss w).1 k) ss
  unfolding subscribe_each
  subscribe_each-bound [] k w h = tt
  subscribe_each-bound (s ∷ ss) k w h =
      let (first, rest) =
        >>-ok (subscribe_event C exchange s.queue s.keys) (subscribe_each C exchange ss) w h in
      let v = (subscribe_event C exchange s.queue s.keys w).1 in
      subst (λ u. All (Listens u k) (s ∷ ss)) (sym (ap (λ r. r.1) rest))
        (
          (λ i.
              subscribe_each-Keeps ss v s.queue k
                (subscribe_event-bound s.queue s.keys k w first i)),
          subscribe_each-bound ss k v (sym (ap (λ r. r.0) rest) ∙ h),
        )

  publish_each-copies :
      (key : String) (ps : List String) (w : W) (q : String)
      → (publish_each C exchange key ps w).0 ≡ ok tt
      → bound w q exchange key ≡ true
      → waiting (publish_each C exchange key ps w).1 q ≡ waiting w q ++ ps
  unfolding publish_each publish_event
  publish_each-copies key [] w q h b = sym (append-nil (waiting w q))
  publish_each-copies key (p ∷ ps) w q h b =
      let m = publish_event C exchange key p in
      let (first, rest) = >>-ok m (publish_each C exchange key ps) w h in
      let v = (C.assert_topic_exchange exchange w).1 in
      let (asserted, published) =
        >>-ok (C.assert_topic_exchange exchange) (C.publish exchange key p) w first in
      let there = L.exchange_keeps exchange w q exchange key b in
      let wrote = sym (ap (λ r. r.0) published) ∙ first in
      let added : waiting (m w).1 q ≡ waiting w q ++ p ∷ [] =
        ap (λ r. waiting r.1 q) published
        ∙ L.publish-waiting exchange key p v q wrote there
        ∙ ap (λ xs. xs ++ p ∷ []) (L.exchange_same exchange w q) in
      let kept : bound (m w).1 q exchange key ≡ true =
        ap (λ r. bound r.1 q exchange key) published
        ∙ L.publish_keeps exchange key p v q exchange key there in
      ap (λ r. waiting r.1 q) rest
      ∙ publish_each-copies key ps (m w).1 q (sym (ap (λ r. r.0) rest) ∙ h) kept
      ∙ ap (λ xs. xs ++ ps) added
      ∙ append_assoc (waiting w q) (p ∷ []) ps

  -- Over a broker that does what AMQP documents: when services have subscribed, and then events are
  -- published under a key, all without an error, the queue of every service that listens to the key
  -- has got its own copy of each event, in the order of publication, after what waited before.
  pub subscribe_each-fans_out :
      (ss : List Subscription) (key : String) (events : List String) (w : W)
      → (subscribe_each C exchange ss w).0 ≡ ok tt
      → let v = (subscribe_each C exchange ss w).1 in
        (publish_each C exchange key events v).0 ≡ ok tt
        → All
            (λ s.
              includes s.keys key ≡ true
              → waiting (publish_each C exchange key events v).1 s.queue
                ≡ waiting v s.queue ++ events)
            ss
  subscribe_each-fans_out ss key events w h g =
      All-map _ ss
        (λ s listens i.
          publish_each-copies key events (subscribe_each C exchange ss w).1 s.queue g (listens i))
        (subscribe_each-bound ss key w h)
