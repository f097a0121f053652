-- ===== src/Replication/Service/Laws.antt =====
-- What `replicateChunk` leaves: rows, objects and used bytes.
use mathlib.Core.List.Permᴰ
use intelli_store.Prelude.{
  ℕ, ◌+◌, ◌*◌, ◌≤◌, String, ◌≡◌, refl, ◌∙◌, inl, inr, ◌⊎◌, true, List, [], ◌∷◌, ◌++◌, arith, All,
  All-append, All-filter, All-filter_self, All-map, All-map₂, All-take, Unique, Unique-count,
  Unique-find, some, length, length-append, length-take, filter, take, sum_of, sum_of-update_where,
  length-filter-update_where, eqb, Bool-cases,
}
use intelli_store.Prelude.Sorting.{All-perm}
use intelli_store.Effects.{ok, err, error}
use intelli_store.Replication.Nodes.{
  Nodes, StorageNodeRecord, find_by_id, has_id, list_healthy, increment_used_bytes,
}
use intelli_store.Replication.Replicas.{ChunkReplicaRecord, synced}
use intelli_store.Replication.Service.{
  World, ReplicationService, copy_loop, copy_to_targets, replicate_chunk,
}
use intelli_store.Replication.Service.Loop.{copy, copied_row, copied_world, copy_loop_inv}
use intelli_store.Replication.Service.Counting.{UniqueReplicas, upsert-row, upsert-UniqueReplicas}

-- What the nodes' storage promises of a copy: the destination holds the key after it, and no bucket
-- loses what it held.
pub record IsNodeStorage {N : Type 0} (S : ReplicationService N)
    (Holds : String → String → N → Type 0) : Type 0 where
  pub copied :
      (source key target : String) (o : N)
      → (S.copy_to_node source key target o).0 ≡ ok tt
      → Holds target key (S.copy_to_node source key target o).1
  pub kept :
      (source key target bucket held : String) (o : N)
      → Holds bucket held o
      → Holds bucket held (S.copy_to_node source key target o).1

abbrev pub used : Nodes → ℕ
used = sum_of λ n. n.used_bytes

module _ {N : Type 0} (S : ReplicationService N) (Holds : String → String → N → Type 0)
    (chunk_id storage_key : String) (size_bytes : ℕ) where
  -- A row of the chunk whose node the table has, healthy, with the object in its bucket.
  abbrev pub IsReplica : Nodes → N → ChunkReplicaRecord → Type 0
  IsReplica table o r =
      (r.chunk_id ≡ chunk_id)
      × (r.status ≡ synced)
      × (r.size_bytes ≡ size_bytes)
      × ((node : StorageNodeRecord) × (find_by_id r.node_id table ≡ some node)
          × (node.is_healthy ≡ true)
          × Holds node.bucket storage_key o)

  -- What a run from one world to another left, with the rows that it returns.
  pub record IsReplicated (most : ℕ) (w w' : World N) (rows : List ChunkReplicaRecord)
      : Type 0 where
    pub all_held : All (IsReplica w.nodes w'.objects) rows
    pub at_most : length rows ≤ most
    pub used_grows : used w'.nodes ≡ used w.nodes + length rows * size_bytes
    pub unique : UniqueReplicas w'.replicas
    pub unchanged : length rows ≡ 0 → (w'.nodes ≡ w.nodes) × (w'.replicas ≡ w.replicas)

  -- A target: one row of the nodes as they are, healthy, and a row of the table before.
  abbrev IsTarget : Nodes → Nodes → StorageNodeRecord → Type 0
  IsTarget table nodes t =
      (length (filter (has_id t.id) nodes) ≡ 1)
      × (t.is_healthy ≡ true)
      × (find_by_id t.id table ≡ some t)

  record Copying (most : ℕ) (w₀ : World N) (targets : List StorageNodeRecord) (w : World N)
      (rows : List ChunkReplicaRecord) : Type 0 where
    all_held : All (IsReplica w₀.nodes w.objects) rows
    at_most : length rows + length targets ≤ most
    used_grows : used w.nodes ≡ used w₀.nodes + length rows * size_bytes
    unique : UniqueReplicas w.replicas
    unchanged : length rows ≡ 0 → (w.nodes ≡ w₀.nodes) × (w.replicas ≡ w₀.replicas)
    all_targets : All (IsTarget w₀.nodes w.nodes) targets

  module _ (law : IsNodeStorage S Holds) where
    kept_rows :
        (table : Nodes) (node : StorageNodeRecord) (o : N) (rows : List ChunkReplicaRecord)
        → All (IsReplica table o) rows
        → All (IsReplica table (copy S chunk_id storage_key size_bytes node o).1) rows
    kept_rows table node o rows =
        All-map _ rows λ r (c, s, z, (n, i, y, h)). (c, s, z, (n, i, y, law.kept _ _ _ _ _ o h))

    Copying-good :
        (most : ℕ) (w₀ : World N) (node : StorageNodeRecord) (rest : List StorageNodeRecord)
        (w : World N) (rows : List ChunkReplicaRecord)
        → Copying most w₀ (node ∷ rest) w rows
        → (copy S chunk_id storage_key size_bytes node w.objects).0 ≡ ok tt
        → Copying most w₀ rest
            (copied_world S chunk_id storage_key size_bytes node w)
            (rows ++ copied_row S chunk_id storage_key size_bytes node w ∷ [])
    Copying-good most w₀ node rest w rows h e =
        let row =
          upsert-row (S.gen_random_uuid w.ids) w.clock chunk_id node.id storage_key size_bytes
            w.replicas in
        let n = length-append rows (copied_row S chunk_id storage_key size_bytes node w ∷ []) in
        record {
          all_held = All-append _ rows _ (kept_rows w₀.nodes node w.objects rows h.all_held) (
            (
              row.0,
              row.2,
              row.3,
              (node, rw row.1 h.all_targets.0.2, h.all_targets.0.1, law.copied _ _ _ w.objects e),
            ),
            tt,
          );
          at_most = omega (arith, n, h.at_most);
          used_grows = grown n;
          unique =
              upsert-UniqueReplicas (S.gen_random_uuid w.ids) w.clock chunk_id node.id storage_key
                size_bytes w.replicas h.unique;
          unchanged = λ z. absurd (omega (arith, n, z));
          all_targets =
              All-map _ rest
                (λ t g. (
                  length-filter-update_where (has_id t.id) (has_id node.id)
                        (λ x. record x { used_bytes = x.used_bytes + size_bytes }) w.nodes
                        (λ x. refl)
                      ∙ g.0,
                  g.1,
                  g.2,
                ))
                h.all_targets.1;
        }
      where
        grown :
            {k : ℕ}
            → k ≡ length rows + 1
            → used (increment_used_bytes node.id size_bytes w.nodes)
              ≡ used w₀.nodes + k * size_bytes
        grown {k} n =
            sum_of-update_where (λ x. x.used_bytes) (has_id node.id)
              (λ x. record x { used_bytes = x.used_bytes + size_bytes }) size_bytes w.nodes
              (λ x. refl)
            ∙ rw (h.all_targets.0.0, n, h.used_grows) (omega arith)

    Copying-bad :
        (most : ℕ) (w₀ : World N) (node : StorageNodeRecord) (rest : List StorageNodeRecord)
        (w : World N) (rows : List ChunkReplicaRecord)
        → Copying most w₀ (node ∷ rest) w rows
        → Copying most w₀ rest
            (record w { objects = (copy S chunk_id storage_key size_bytes node w.objects).1 })
            rows
    Copying-bad most w₀ node rest w rows h = record {
      all_held = kept_rows w₀.nodes node w.objects rows h.all_held;
      at_most = omega (arith, h.at_most);
      used_grows = h.used_grows;
      unique = h.unique;
      unchanged = h.unchanged;
      all_targets = h.all_targets.1;
    }

    copy_loop-Copying :
        (most : ℕ) (w₀ : World N) (targets : List StorageNodeRecord)
        → Copying most w₀ targets w₀ []
        → (rows : List ChunkReplicaRecord) × ((copy_loop S chunk_id storage_key size_bytes targets
              [] w₀).0
            ≡ ok rows)
          × IsReplicated most w₀ (copy_loop S chunk_id storage_key size_bytes targets [] w₀).1 rows
    copy_loop-Copying most w₀ targets h =
        let (rows, e, c) =
          copy_loop_inv S chunk_id storage_key size_bytes (Copying most w₀) (Copying-good most w₀)
            (λ node rest w rows x h e. Copying-bad most w₀ node rest w rows h) targets [] w₀ h in
        (
          rows,
          e,
          record {
            all_held = c.all_held;
            at_most = omega (arith, c.at_most);
            used_grows = c.used_grows;
            unique = c.unique;
            unchanged = c.unchanged;
          },
        )

    Copying-start :
        (w : World N)
        → Unique (λ n. n.id) w.nodes
        → UniqueReplicas w.replicas
        → (most : ℕ) → Copying most w (take most (list_healthy S.postgres w.nodes)) w []
    Copying-start w u v most =
        let p = λ (n : StorageNodeRecord). n.is_healthy in
        let healthy = filter p w.nodes in
        let all =
          All-filter
            (λ t. (length (filter (has_id t.id) w.nodes) ≡ 1) × (find_by_id t.id w.nodes ≡ some t))
            p w.nodes
            (All-map₂ _ w.nodes (λ t a b. (a, b)) (Unique-count (λ n. n.id) w.nodes u)
              (Unique-find (λ n. n.id) w.nodes u)) in
        record {
          all_held = tt;
          at_most = omega (arith, length-take most (list_healthy S.postgres w.nodes));
          used_grows = omega arith;
          unique = v;
          unchanged = λ _. (refl, refl);
          all_targets = All-take (IsTarget w.nodes w.nodes) most _ (
              All-perm (IsTarget w.nodes w.nodes)
                (Permᴰ.symm (S.postgres.order_by-perm (λ n. n.used_bytes) healthy))
                (All-map₂ (IsTarget w.nodes w.nodes) healthy (λ x a b. (a.0, b, a.1)) all
                  (All-filter_self p w.nodes)));
        }

    -- `replicateChunk` returns at least one row, or throws and leaves both tables as they were. What it
    -- returns are at most as many rows as the replication factor; each is a synced row of the chunk
    -- whose node is a healthy one of the table before, in whose bucket the object now is, nodes' used bytes grow by the size once for each row,
    -- and no two rows of the table have one chunk and one node. This is for nodes with ids of their
    -- own, a table with at most one row for a chunk and a node, and a storage that keeps its word.
    pub replicate_chunk-IsReplicated :
        (w : World N)
        → Unique (λ n. n.id) w.nodes
        → UniqueReplicas w.replicas
        → let (r, w') = replicate_chunk S chunk_id storage_key size_bytes w in
          ((rows : List ChunkReplicaRecord) × (r ≡ ok rows)
            × (1 ≤ length rows)
            × IsReplicated S.replication_factor w w' rows)
          ⊎ ((message : String) × (r ≡ err (error message))
              × (w'.nodes ≡ w.nodes)
              × (w'.replicas ≡ w.replicas))
    unfolding replicate_chunk copy_to_targets
    replicate_chunk-IsReplicated w u v =
        elim (Bool-cases (eqb (length (list_healthy S.postgres w.nodes)) 0)) [
          | inl e ↦ rw e (inr (_, refl, refl, refl))
          | inr e ↦ rw e (
              let targets = take S.replication_factor (list_healthy S.postgres w.nodes) in
              let (rows, r, c) =
                copy_loop-Copying S.replication_factor w targets
                  (Copying-start w u v S.replication_factor) in
              elim (Bool-cases (eqb (length rows) 0)) [
                | inl z ↦
                    let same = c.unchanged (ground (arith, z)) in
                    rw r (rw z (inr (_, refl, same.0, same.1)))
                | inr z ↦ rw r (rw z (inl (rows, refl, ground (arith, z), c)))
              ])
        ]
