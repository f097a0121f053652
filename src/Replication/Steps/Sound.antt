-- ===== src/Replication/Steps/Sound.antt =====
-- What every reachable world of the replication service has.
use intelli_store.Prelude.{
  ℕ, String, ◌≡◌, refl, sym, ap, subst, ◌∙◌, inl, inr, Bool, true, ◌==◌, arith, eq_iff, All,
  All-append, All-map, All-map₂, All-update_cases, All-update_where, Unique, Unique-update_where,
  filter, find?, length, length-filter-update_where, update_where, Option-cases,
}
use intelli_store.Replication.Nodes.{Nodes, StorageNodeRecord, has_id}
use intelli_store.Replication.Replicas.{
  ChunkReplicaRecord, Replicas, at, is_synced, lost, refreshed, synced, upsert,
}
use intelli_store.Replication.Service.{World, ReplicationService}
use intelli_store.Replication.Service.Counting.{
  UniqueReplicas, UniqueReplicas-update_where, upsert-UniqueReplicas,
}
use intelli_store.Replication.Steps.{
  IsRegistered, Reach, Step, beaten, counted, expired, given_up, here, next, placed, stored, ticked,
}

module _ {N : Type 0} (S : ReplicationService N) (Holds : String → String → N → Type 0)
    (key_of : String → String) where
  -- A row bears the chunk's key and stands for a node of the table, and if it is synced, the node's
  -- bucket has the object.
  pub record IsSoundRow (nodes : Nodes) (o : N) (r : ChunkReplicaRecord) : Type 0 where
    pub keyed : r.storage_key ≡ key_of r.chunk_id
    pub known : length (filter (has_id r.node_id) nodes) ≡ 1
    pub held :
        is_synced r.status ≡ true
        → All (λ m. (m.id == r.node_id) ≡ true → Holds m.bucket r.storage_key o) nodes

  pub record IsSound (w : World N) : Type 0 where
    pub node_ids : Unique (λ n. n.id) w.nodes
    pub replicas : UniqueReplicas w.replicas
    pub rows : All (IsSoundRow w.nodes w.objects) w.replicas

  -- An update of nodes that leaves ids and buckets alone.
  IsSoundRow-nodes :
      (p : StorageNodeRecord → Bool) (f : StorageNodeRecord → StorageNodeRecord)
      → ((n : StorageNodeRecord) → (f n).id ≡ n.id)
      → ((n : StorageNodeRecord) → (f n).bucket ≡ n.bucket)
      → (nodes : Nodes) (o : N) (rs : Replicas) → All (IsSoundRow nodes o) rs
      → All (IsSoundRow (update_where p f nodes) o) rs
  IsSoundRow-nodes p f ids buckets nodes o rs =
      All-map (IsSoundRow (update_where p f nodes) o) rs λ r s. record {
        keyed = s.keyed;
        known =
            length-filter-update_where (has_id r.node_id) p f nodes (λ n. rw (ids n) refl)
            ∙ s.known;
        held = λ y.
            All-update_where _ p f nodes (λ n h e. rw (buckets n) (h (rw (ids n) at e))) (s.held y);
      }

  IsSound-nodes :
      (p : StorageNodeRecord → Bool) (f : StorageNodeRecord → StorageNodeRecord)
      → ((n : StorageNodeRecord) → (f n).id ≡ n.id)
      → ((n : StorageNodeRecord) → (f n).bucket ≡ n.bucket)
      → (w : World N) → IsSound w
      → IsSound (record w { nodes = update_where p f w.nodes })
  IsSound-nodes p f ids buckets w s = record {
    node_ids = Unique-update_where (λ n. n.id) p f w.nodes ids s.node_ids;
    replicas = s.replicas;
    rows = IsSoundRow-nodes p f ids buckets w.nodes w.objects w.replicas s.rows;
  }

  placed-rows :
      (id c : String) (now size : ℕ) (n : StorageNodeRecord) (nodes : Nodes) (o : N) (rs : Replicas)
      → IsRegistered nodes n
      → Holds n.bucket (key_of c) o
      → All (IsSoundRow nodes o) rs
      → All (IsSoundRow nodes o) (upsert id now c n.id (key_of c) size synced rs).1
  unfolding upsert
  placed-rows id c now size n nodes o rs known holds s =
      elim (Option-cases (find? (at c n.id) rs)) [
        | inl e ↦ rw e (
            All-append (IsSoundRow nodes o) rs _ s (
              record {
                keyed = refl;
                known = known.0;
                held = λ y. All-map _ nodes (λ m b e'. rw (b e') holds) known.1;
              },
              tt,
            ))
        | inr (r, e) ↦ rw e (
            All-update_cases (IsSoundRow nodes o) (IsSoundRow nodes o) (at c n.id)
              (refreshed size synced now) rs refresh (λ x h k. h) s)
      ]
    where
      refresh :
          (x : ChunkReplicaRecord)
          → IsSoundRow nodes o x
          → at c n.id x ≡ true
          → IsSoundRow nodes o (refreshed size synced now x)
      refresh x h k =
          let chunk : x.chunk_id ≡ c = ground (arith, eq_iff x.chunk_id c) in
          let node : x.node_id ≡ n.id = ground (arith, eq_iff x.node_id n.id) in
          record {
            keyed = h.keyed;
            known = h.known;
            held = λ y.
                All-map _ nodes
                  (λ m b e.
                    subst (λ key. Holds m.bucket key o) (sym (h.keyed ∙ ap key_of chunk))
                      (subst (λ k'. Holds k' (key_of c) o) (sym (b (rw node at e))) holds))
                  known.1;
          }

  -- Every step keeps the world sound.
  pub Step-IsSound : {w w' : World N} → Step S Holds key_of w w' → IsSound w → IsSound w'
  Step-IsSound {w} (stored o keep) s = record {
    node_ids = s.node_ids;
    replicas = s.replicas;
    rows =
        All-map (IsSoundRow w.nodes o) w.replicas
          (λ r h. record {
            keyed = h.keyed;
            known = h.known;
            held = λ y. All-map₂ _ w.nodes (λ m k l e. l _ (k e)) (h.held y) keep;
          })
          s.rows;
  }
  Step-IsSound {w} (counted id size) s = IsSound-nodes (has_id id) _ (λ n. refl) (λ n. refl) w s
  Step-IsSound {w} (placed n c size known holds) s = record {
    node_ids = s.node_ids;
    replicas = upsert-UniqueReplicas _ w.clock c n.id (key_of c) size w.replicas s.replicas;
    rows = placed-rows _ c w.clock size n w.nodes w.objects w.replicas known holds s.rows;
  }
  Step-IsSound {w} (given_up id) s = record {
    node_ids = s.node_ids;
    replicas =
        UniqueReplicas-update_where (λ r. r.id == id) (λ r. record r { status = lost }) (λ r. refl)
          (λ r. refl) w.replicas s.replicas;
    rows =
        All-update_where (IsSoundRow w.nodes w.objects) (λ r. r.id == id)
          (λ r. record r { status = lost }) w.replicas
          (λ r h. record { keyed = h.keyed; known = h.known; held = λ y. absurd (cc) }) s.rows;
  }
  Step-IsSound {w} (expired id) s = IsSound-nodes (has_id id) _ (λ n. refl) (λ n. refl) w s
  Step-IsSound {w} (beaten id t) s = IsSound-nodes (has_id id) _ (λ n. refl) (λ n. refl) w s
  Step-IsSound (ticked t) s = record { node_ids = s.node_ids; replicas = s.replicas; rows = s.rows }

  -- Steps whose guards hold, in any order: from a sound world only sound worlds are reached. In these node ids are unique, no chunk has two rows for one
  -- node, and every synced row stands for an object that is in its node's bucket.
  pub Reach-IsSound : {w w' : World N} → Reach S Holds key_of w w' → IsSound w → IsSound w'
  Reach-IsSound here s = s
  Reach-IsSound (next r st) s = Step-IsSound st (Reach-IsSound r s)
