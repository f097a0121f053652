-- ===== src/Queue.antt =====
-- packages/shared-queue/src/index.ts: the connection with its retries, and the consumption of a queue,
-- over the AMQP library as a parameter. The messages of a queue come one after another (`prefetch(1)`).
pub mod Laws
pub mod Channel
use intelli_store.Prelude.{ℕ, zero, suc, Option, none, some, List, [], ◌∷◌, eqb, if◌then◌else◌}
use intelli_store.Effects.{Exec, Failure, Result, ok, err, error, throw, catch}

-- What becomes of a message: `ack`, or `nack` without requeueing, which drops it.
pub data Delivery : Type 0 where
  acked dropped : Delivery

abbrev pub settle : {A : Type 0} → Result A → Delivery
settle (ok _) = acked
settle (err _) = dropped

-- The callback of `channel.consume`.
abbrev pub consume : {W A B : Type 0} → (A → Exec W B) → A → W → Delivery × W
consume handler message w = let (r, w') = handler message w in (settle r, w')

unfoldable pub consume_all : {W A B : Type 0} → (A → Exec W B) → List A → W → List Delivery × W
consume_all handler [] w = ([], w)
consume_all handler (message ∷ messages) w =
    let (d, w₁) = consume handler message w in
    let (ds, w₂) = consume_all handler messages w₁ in (d ∷ ds, w₂)

-- `throw lastErr`, which is undefined if there was no attempt.
abbrev pub thrown : Option Failure → Failure
thrown none = error "undefined"
thrown (some e) = e

module _ {W C : Type 0} (connect : Exec W C) (sleep : W → W) where
  -- The loop with so many attempts left.
  pub connect_loop : ℕ → Option Failure → Exec W C
  connect_loop zero last = throw (thrown last)
  connect_loop (suc left) last =
      catch connect (λ e w. connect_loop left (some e) (if eqb left 0 then w else sleep w))

  pub connect_with_retry : ℕ → Exec W C
  unfolding connect_loop
  connect_with_retry max_attempts = connect_loop max_attempts none
