-- ===== src/Replication/Steps/Runs.antt =====
-- The operations of the replication service are sequences of its steps: `replicateChunk`, `healOnce`,
-- `sweepOnce` and the heartbeat, also on the paths on which they throw.
use intelli_store.Prelude.{
  ℕ, String, ◌≡◌, refl, ◌∙◌, inl, inr, not, List, [], All, All-filter, All-map, All-map₂, All-of,
  All-take, All-update_where, Unique, Unique-count, Unique-row, filter, take, includes, length,
  length-filter-update_where, leb, eqb, Bool-cases,
}
use mathlib.Core.List.Permᴰ
use intelli_store.Prelude.Sorting.{Postgres, All-perm}
use intelli_store.Effects.{ok}
use intelli_store.Replication.Nodes.{
  Nodes, StorageNodeRecord, has_id, increment_used_bytes, list_healthy,
}
use intelli_store.Replication.Replicas.{ChunkReplicaRecord}
use intelli_store.Replication.Service.{
  World, ReplicationService, copy_to_targets, heal_chunk, heal_targets, replicate_chunk,
}
use intelli_store.Replication.Service.Loop.{copy, copied_world, copy_loop_inv}
use intelli_store.Replication.Service.Laws.{IsNodeStorage}
use intelli_store.Replication.Steps.{
  IsRegistered, Reach, Reach-trans, counted, here, next, placed, stored,
}

Unique-IsRegistered : (nodes : Nodes) → Unique (λ n. n.id) nodes → All (IsRegistered nodes) nodes
Unique-IsRegistered nodes u =
    All-map₂ (IsRegistered nodes) nodes
      (λ n k r. (k, All-map _ nodes (λ m same e. rw (same e) refl) r))
      (Unique-count (λ n. n.id) nodes u) (Unique-row (λ n. n.id) nodes u)

healthy-IsRegistered :
    (pg : Postgres) (nodes : Nodes)
    → Unique (λ n. n.id) nodes
    → All (IsRegistered nodes) (list_healthy pg nodes)
healthy-IsRegistered pg nodes u =
    All-perm _
      (Permᴰ.symm (pg.order_by-perm (λ n. n.used_bytes) (filter (λ n. n.is_healthy) nodes)))
      (All-filter _ (λ n. n.is_healthy) nodes (Unique-IsRegistered nodes u))

IsRegistered-increment :
    (id : String) (size : ℕ) (nodes : Nodes) (n : StorageNodeRecord)
    → IsRegistered nodes n
    → IsRegistered (increment_used_bytes id size nodes) n
IsRegistered-increment id size nodes n h = (
  length-filter-update_where (has_id n.id) (has_id id) _ nodes (λ m. refl) ∙ h.0,
  All-update_where _ (has_id id) _ nodes (λ m k. k) h.1,
)

module _ {N : Type 0} (S : ReplicationService N) (Holds : String → String → N → Type 0)
    (key_of : String → String) (law : IsNodeStorage S Holds) where
  open law use {copied, kept}

  abbrev Reaches : World N → World N → Type 0
  Reaches w w' = Reach S Holds key_of w w'

  copy-Reach :
      (c : String) (size : ℕ) (node : StorageNodeRecord) (w : World N)
      → Reaches w (record w { objects = (copy S c (key_of c) size node w.objects).1 })
  copy-Reach c size node w =
      next here (stored _ (All-of _ w.nodes (λ n held. kept _ _ _ n.bucket held w.objects)))

  copied-Reach :
      (c : String) (size : ℕ) (node : StorageNodeRecord) (w : World N)
      → IsRegistered w.nodes node
      → (copy S c (key_of c) size node w.objects).0 ≡ ok tt
      → Reaches w (copied_world S c (key_of c) size node w)
  copied-Reach c size node w r e = next (next (copy-Reach c size node w) (counted node.id size)) (
      placed node c size (IsRegistered-increment node.id size w.nodes node r)
        (copied _ _ _ w.objects e))

  abbrev Running : World N → List StorageNodeRecord → World N → List ChunkReplicaRecord → Type 0
  Running w₀ targets w rows = Reaches w₀ w × All (IsRegistered w.nodes) targets

  copy_to_targets-Reach :
      (c : String) (size : ℕ) (targets : List StorageNodeRecord) (w : World N)
      → All (IsRegistered w.nodes) targets
      → Reaches w (copy_to_targets S c (key_of c) size targets w).1
  unfolding copy_to_targets
  copy_to_targets-Reach c size targets w h =
      let (rows, e, reached) =
        copy_loop_inv S c (key_of c) size (Running w)
          (λ node rest v rows i e. (
            Reach-trans S Holds key_of i.0 (copied-Reach c size node v i.1.0 e),
            All-map _ rest (IsRegistered-increment node.id size v.nodes) i.1.1,
          ))
          (λ node rest v rows x i e.
            (Reach-trans S Holds key_of i.0 (copy-Reach c size node v), i.1.1))
          targets [] w (here, h) in
      elim (Bool-cases (eqb (length rows) 0)) [
        | inl b ↦ rw (e, b) reached.0
        | inr b ↦ rw (e, b) reached.0
      ]

  -- A request to replicate a chunk, under the key with which it is registered, takes steps alone,
  -- whether it succeeds or throws, from any table in which node ids are unique.
  pub replicate_chunk-Reach :
      (c : String) (size : ℕ) (w : World N)
      → Unique (λ n. n.id) w.nodes
      → Reaches w (replicate_chunk S c (key_of c) size w).1
  unfolding replicate_chunk
  replicate_chunk-Reach c size w u =
      let healthy = list_healthy S.postgres w.nodes in
      let run =
        copy_to_targets-Reach c size (take S.replication_factor healthy) w
          (All-take _ S.replication_factor healthy (healthy-IsRegistered S.postgres w.nodes u)) in
      elim (Bool-cases (eqb (length healthy) 0)) [ inl b ↦ rw b here | inr b ↦ rw b run ]

  pub heal_chunk-Reach :
      (c : String) (size needed : ℕ) (exclude : List String) (w : World N)
      → Unique (λ n. n.id) w.nodes
      → Reaches w (heal_chunk S c (key_of c) size needed exclude w).1
  unfolding heal_chunk
  heal_chunk-Reach c size needed exclude w u =
      let targets = heal_targets S needed exclude w.nodes in
      let run = copy_to_targets-Reach c size targets w (
        All-take _ needed _ (
          All-filter _ (λ n. not (includes exclude n.id)) (list_healthy S.postgres w.nodes)
            (healthy-IsRegistered S.postgres w.nodes u))) in
      elim (Bool-cases (leb needed 0)) [
        | inl a ↦ rw a here
        | inr a ↦
            rw a
              (elim (Bool-cases (eqb (length targets) 0)) [ inl b ↦ rw b here | inr b ↦ rw b run ])
      ]
