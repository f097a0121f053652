-- ===== src/Replication/Healing/Progress.antt =====
-- `reconcileChunk`: how far one pass brings a chunk, and which nodes it never uses.
use mathlib.Core.List.{Permᴰ}
use mathlib.Core.List.Permᴰ
use intelli_store.Prelude.{
  ℕ, zero, suc, ◌+◌, ◌-◌, min, String, ◌≡◌, refl, ◌∙◌, inl, inr, Bool, true, false, not, List, [],
  ◌∷◌, ◌++◌, arith, ◌==◌, eq_iff, All, All-append, All-filter, All-filter_self, All-map, All-map₂,
  All-take, Unique, filter, includes, leb, eqb, length, length-append, length-take, take,
  Bool-cases,
}
use text.Mathlib.TextPositions.{eq_refl}
use intelli_store.Prelude.Sorting.{All-perm}
use intelli_store.Effects.{ok, Result-cases}
use intelli_store.Replication.Nodes.{Nodes, StorageNodeRecord, list_healthy}
use intelli_store.Replication.Replicas.{
  ChunkReplicaRecord, Replicas, UnderReplicatedChunk, list_node_ids_for_chunk, new_row, of_chunk,
  synced, synced_count,
}
use intelli_store.Replication.Service.{
  World, ReplicationService, copy_to_targets, heal_chunk, heal_targets,
}
use intelli_store.Replication.Service.Loop.{copy, copied_row, copied_world, copy_loop_inv}
use intelli_store.Replication.Service.Counting.{Vacant, synced_count-upsert, upsert-Vacant}
use intelli_store.Replication.Healing.{reconcile_chunk}

module _ {A : Type 0} (key : A → String) where
  -- Uniqueness does not depend on the order, and passes to a part.
  Unique-perm : {xs ys : List A} → Permᴰ xs ys → Unique key xs → Unique key ys
  Unique-perm Permᴰ.nil u = tt
  Unique-perm (Permᴰ.cons {l₁ = l₁} e p) u =
      (All-perm _ p (All-map _ l₁ (λ z h. rw⁻¹ e h) u.0), Unique-perm p u.1)
  Unique-perm (Permᴰ.swap {a = a} {b = b} {l = l} e f) u =
      let d : (key b == key a) ≡ false =
        ground (arith, u.0.0, eq_iff (key b) (key a), eq_refl (key a)) in
      (
        (rw⁻¹ (e, f) d, All-map _ l (λ z h. rw⁻¹ f h) u.1.0),
        (All-map _ l (λ z h. rw⁻¹ e h) u.0.1, u.1.1),
      )
  Unique-perm (Permᴰ.trans p q) u = Unique-perm q (Unique-perm p u)

  Unique-filter : (p : A → Bool) (xs : List A) → Unique key xs → Unique key (filter p xs)
  Unique-filter p [] u = tt
  Unique-filter p (x ∷ xs) u = elim (Bool-cases (p x)) [
    | inl e ↦ rw e (All-filter _ p xs u.0, Unique-filter p xs u.1)
    | inr e ↦ rw e (Unique-filter p xs u.1)
  ]

  Unique-take : (n : ℕ) (xs : List A) → Unique key xs → Unique key (take n xs)
  Unique-take zero xs u = tt
  Unique-take (suc n) [] u = tt
  Unique-take (suc n) (x ∷ xs) u = (All-take _ n xs u.0, Unique-take n xs u.1)

-- A node that is not among those with a row of the chunk has none.
Vacant-excluded :
    (c n : String) (rs : Replicas)
    → includes (list_node_ids_for_chunk c rs) n ≡ false
    → Vacant c n rs
Vacant-excluded c n [] h = tt
Vacant-excluded c n (r ∷ rs) h = elim (Bool-cases (of_chunk c r)) [
  | inl e ↦
      let h' : includes (r.node_id ∷ list_node_ids_for_chunk c rs) n ≡ false = rw e at h in
      (ground (arith, h'), Vacant-excluded c n rs (ground (arith, h')))
  | inr e ↦ (rw e refl, Vacant-excluded c n rs (rw e at h))
]

module _ {N : Type 0} (S : ReplicationService N) (c key : String) (size : ℕ)
    (works : (node : StorageNodeRecord) (o : N) → (copy S c key size node o).0 ≡ ok tt) where
  record Filling (n₀ k : ℕ) (targets : List StorageNodeRecord) (w : World N)
      (rows : List ChunkReplicaRecord) : Type 0 where
    vacant : All (λ t. Vacant c t.id w.replicas) targets
    unique : Unique (λ t. t.id) targets
    counted : synced_count c w.replicas ≡ n₀ + length rows
    left : length rows + length targets ≡ k

  Filling-good :
      (n₀ k : ℕ) (node : StorageNodeRecord) (rest : List StorageNodeRecord) (w : World N)
      (rows : List ChunkReplicaRecord)
      → Filling n₀ k (node ∷ rest) w rows
      → Filling n₀ k rest
          (copied_world S c key size node w)
          (rows ++ copied_row S c key size node w ∷ [])
  Filling-good n₀ k node rest w rows h =
      let n = length-append rows (copied_row S c key size node w ∷ []) in
      let id = S.gen_random_uuid w.ids in
      record {
        vacant = rw (upsert-Vacant id w.clock c node.id key size w.replicas h.vacant.0) (
            All-map₂ _ rest
              (λ t v d.
                All-append _ w.replicas (new_row id w.clock c node.id key size synced ∷ []) v
                  (ground (arith, d), tt))
              h.vacant.1 h.unique.0);
        unique = h.unique.1;
        counted =
            synced_count-upsert id w.clock c node.id key size w.replicas c h.vacant.0
            ∙ rw (eq_refl c) (omega (arith, n, h.counted));
        left = omega (arith, n, h.left);
      }

  filled :
      (w : World N) (targets : List StorageNodeRecord)
      → All (λ t. Vacant c t.id w.replicas) targets
      → Unique (λ t. t.id) targets
      → synced_count c (copy_to_targets S c key size targets w).1.replicas
        ≡ synced_count c w.replicas + length targets
  unfolding copy_to_targets
  filled w targets v u =
      let (rows, e, f) =
        copy_loop_inv S c key size (Filling (synced_count c w.replicas) (length targets))
          (λ node rest w rows h e. Filling-good _ _ node rest w rows h)
          (λ node rest w rows x h e. absurd (let y = works node w.objects in cc)) targets [] w
          (record { vacant = v; unique = u; counted = omega arith; left = omega arith }) in
      elim (Bool-cases (eqb (length rows) 0)) [
        | inl z ↦ rw e (rw z (omega (arith, f.counted, f.left)))
        | inr z ↦ rw e (rw z (omega (arith, f.counted, f.left)))
      ]

module _ {N : Type 0} (S : ReplicationService N) (chunk : UnderReplicatedChunk) (w : World N) where
  abbrev existing : List String
  existing = list_node_ids_for_chunk chunk.chunk_id w.replicas

  -- The healthy nodes with no row of the chunk.
  abbrev pub eligible : List StorageNodeRecord
  eligible = filter (λ n. not (includes existing n.id)) (list_healthy S.postgres w.nodes)

  eligible-Vacant : All (λ t. Vacant chunk.chunk_id t.id w.replicas) eligible
  eligible-Vacant =
      All-map _ eligible (λ t h. Vacant-excluded chunk.chunk_id t.id w.replicas (ground (arith, h)))
        (All-filter_self _ (list_healthy S.postgres w.nodes))

  eligible-Unique : Unique (λ n. n.id) w.nodes → Unique (λ n. n.id) eligible
  eligible-Unique u =
      Unique-filter (λ n. n.id) _ (list_healthy S.postgres w.nodes)
        (Unique-perm (λ n. n.id) (Permᴰ.symm (S.postgres.order_by-perm _ _))
          (Unique-filter (λ n. n.id) (λ n. n.is_healthy) w.nodes u))

  -- One pass over a chunk does not throw, and adds as many synced replicas as are missing from the
  -- replication factor, or as there are healthy nodes with no row of the chunk if these are fewer.
  -- This is for nodes with ids of their own and a storage whose copies of the chunk succeed.
  pub reconcile_chunk-fills :
      ((source target : String) (o : N)
        → (S.copy_to_node source chunk.storage_key target o).0 ≡ ok tt)
      → Unique (λ n. n.id) w.nodes
      → let (r, w') = reconcile_chunk S chunk w in
        (r ≡ ok tt)
        × (synced_count chunk.chunk_id w'.replicas
            ≡ synced_count chunk.chunk_id w.replicas
              + min (S.replication_factor - chunk.synced_count) (length eligible))
  unfolding reconcile_chunk heal_chunk
  reconcile_chunk-fills works u =
      let needed = S.replication_factor - chunk.synced_count in
      let n = length-take needed eligible in
      elim (Bool-cases (leb needed 0)) [
        | inl e ↦ rw e (refl, ground (arith, e))
        | inr e ↦ elim (Bool-cases (eqb (length (heal_targets S needed existing w.nodes)) 0)) [
          | inl z ↦ rw e (rw z (refl, ground (arith, z, n)))
          | inr z ↦
              let targets = take needed eligible in
              let count =
                filled S chunk.chunk_id chunk.storage_key chunk.size_bytes (λ node o. works _ _ o) w
                  targets (All-take _ needed eligible eligible-Vacant)
                  (Unique-take (λ t. t.id) needed eligible (eligible-Unique u)) in
              elim (Result-cases
                (copy_to_targets S chunk.chunk_id chunk.storage_key chunk.size_bytes targets w).0) [
                  | inl (rows, r) ↦ rw e (rw z (rw r (refl, omega (arith, count, n))))
                  | inr (x, r) ↦ rw e (rw z (rw r (refl, omega (arith, count, n))))
                ]
        ]
      ]

  -- Where every healthy node has a row of the chunk, lost or not, a pass over the chunk changes
  -- nothing, however many synced replicas are missing.
  pub reconcile_chunk-exhausted :
      All (λ n. includes existing n.id ≡ true) (list_healthy S.postgres w.nodes)
      → reconcile_chunk S chunk w ≡ (ok tt, w)
  unfolding reconcile_chunk heal_chunk
  reconcile_chunk-exhausted h =
      let needed = S.replication_factor - chunk.synced_count in
      let none_left : length (heal_targets S needed existing w.nodes) ≡ 0 =
        let k = none (list_healthy S.postgres w.nodes) h in
        omega (arith, length-take needed eligible, k) in
      elim (Bool-cases (leb needed 0)) [ inl e ↦ rw e refl | inr e ↦ rw e (rw none_left refl) ]
    where
      none :
          (ns : Nodes)
          → All (λ n. includes existing n.id ≡ true) ns
          → length (filter (λ n. not (includes existing n.id)) ns) ≡ 0
      none [] k = refl
      none (n ∷ ns) k = rw k.0 (none ns k.1)
