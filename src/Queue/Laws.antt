-- ===== src/Queue/Laws.antt =====
-- How often a connection is tried.
use intelli_store.Prelude.{ℕ, zero, suc, ◌<◌, ◌≡◌, refl, Option, none, some, false, arith, eqb}
use intelli_store.Effects.{Exec, Failure, ok, err}
use intelli_store.Queue.{connect_loop, connect_with_retry}

module _ {W C : Type 0} (connect : Exec W C) (sleep : W → W) where
  -- The world after so many failed attempts, each with its pause.
  unfoldable pub after_failures : ℕ → W → W
  after_failures zero w = w
  after_failures (suc n) w = after_failures n (sleep (connect w).1)

  -- The first so many attempts fail.
  abbrev pub Fails : ℕ → W → Type 0
  Fails zero w = Unit
  Fails (suc n) w = ((e : Failure) × ((connect w).0 ≡ err e)) × Fails n (sleep (connect w).1)

  connect_loop-after_failures :
      (n left : ℕ) (last : Option Failure) (w : W) {c : C}
      → n < left
      → Fails n w
      → (connect (after_failures n w)).0 ≡ ok c
      → connect_loop connect sleep left last w ≡ connect (after_failures n w)
  unfolding connect_loop after_failures
  connect_loop-after_failures n zero last w h f e = absurd (omega arith)
  connect_loop-after_failures zero (suc left) last w h f e = rw e refl
  connect_loop-after_failures (suc n) (suc left) last w h f e =
      let more : eqb left 0 ≡ false = ground arith in
      rw f.0.1 (
        rw more (
          connect_loop-after_failures n left (some f.0.0) (sleep (connect w).1) (omega arith) f.1
            e))

  -- If fewer attempts fail than are allowed, and the next one succeeds, the connection of that one is
  -- returned, in the world that it leaves.
  pub connect_with_retry-after_failures :
      (n max_attempts : ℕ) (w : W) {c : C}
      → n < max_attempts
      → Fails n w
      → (connect (after_failures n w)).0 ≡ ok c
      → connect_with_retry connect sleep max_attempts w ≡ connect (after_failures n w)
  unfolding connect_with_retry
  connect_with_retry-after_failures n max_attempts w =
      connect_loop-after_failures n max_attempts none w
