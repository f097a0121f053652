-- ===== src/Replication/Steps/Interleaved.antt =====
-- Copies and the rows that are written for them, of operations that interleave: between `copyToNode` and the
-- `upsert` after it in services/replication-service/src/services/replication.service.ts, others may run.
use intelli_store.Prelude.{
  ℕ, String, ◌≡◌, refl, ◌∙◌, inl, inr, Bool, true, false, List, [], ◌∷◌, ◌++◌, ◌==◌, arith, eqb,
  All, All-map, All-of, All-update_where, length, length-filter-update_where, update_where,
  Bool-cases,
}
use intelli_store.Effects.{ok}
use intelli_store.Replication.Nodes.{Nodes, StorageNodeRecord, has_id}
use intelli_store.Replication.Replicas.{ChunkReplicaRecord}
use intelli_store.Replication.Service.{World, ReplicationService, copy_to_targets, put_replica}
use intelli_store.Replication.Service.Loop.{copy, copy_loop_inv}
use intelli_store.Replication.Service.Laws.{IsNodeStorage}
use intelli_store.Replication.Steps.{
  IsRegistered, Step, beaten, counted, expired, given_up, placed, stored, ticked,
}
use intelli_store.Replication.Steps.Sound.{IsSound, Step-IsSound}

-- An update that leaves ids and buckets alone.
IsRegistered-update :
    (p : StorageNodeRecord → Bool) (f : StorageNodeRecord → StorageNodeRecord)
    → ((n : StorageNodeRecord) → (f n).id ≡ n.id)
    → ((n : StorageNodeRecord) → (f n).bucket ≡ n.bucket)
    → (nodes : Nodes) (n : StorageNodeRecord) → IsRegistered nodes n
    → IsRegistered (update_where p f nodes) n
IsRegistered-update p f ids buckets nodes n h = (
  length-filter-update_where (has_id n.id) p f nodes (λ m. rw (ids m) refl) ∙ h.0,
  All-update_where _ p f nodes (λ m k e. rw (buckets m) (k (rw (ids m) at e))) h.1,
)

-- What holds of the bucket of each row holds of that of a registered node.
registered-All :
    (P : String → Type 0) (n : StorageNodeRecord) (nodes : Nodes)
    → IsRegistered nodes n
    → All (λ m. P m.bucket) nodes
    → P n.bucket
registered-All P n [] h k = absurd (omega (arith, h.0))
registered-All P n (m ∷ nodes) h k = elim (Bool-cases (m.id == n.id)) [
  | inl e ↦ rw⁻¹ (h.1.0 e) k.0
  | inr e ↦ registered-All P n nodes (rw e at h.0, h.1.1) k.1
]

All-at : {A : Type 0} (P : A → Type 0) (xs ys : List A) (x : A) → All P (xs ++ x ∷ ys) → P x
All-at P [] ys x h = h.0
All-at P (z ∷ xs) ys x h = All-at P xs ys x h.1

module _ {N : Type 0} (S : ReplicationService N) (Holds : String → String → N → Type 0)
    (key_of : String → String) where
  -- The copies that have been made: node and chunk.
  abbrev pub Copies : Type 0
  Copies = List (StorageNodeRecord × String)

  abbrev pub is_placed : {u v : World N} → Step S Holds key_of u v → Bool
  is_placed (placed n c size known holds) = true
  is_placed _ = false

  -- What operations may do one after another, in any order: a copy to a registered node that succeeds, the
  -- row for a copy that some operation has made at some time before, and every step that writes no
  -- row. That the bucket still has the object when the row is written is no condition.
  pub data Interleaving (w : World N) : World N → Copies → Type 0 where
    start : Interleaving w w []
    copies :
        {u : World N} {ps : Copies}
        → Interleaving w u ps
        → (c : String) (size : ℕ) (node : StorageNodeRecord) → IsRegistered u.nodes node
        → (copy S c (key_of c) size node u.objects).0 ≡ ok tt
        → Interleaving w
            (record u { objects = (copy S c (key_of c) size node u.objects).1 })
            ((node, c) ∷ ps)
    writes :
        {u : World N} (before after : Copies) (c : String) (size : ℕ) (node : StorageNodeRecord)
        → Interleaving w u (before ++ (node, c) ∷ after)
        → Interleaving w (put_replica S c node.id (key_of c) size u).1 (before ++ (node, c) ∷ after)
    others :
        {u v : World N} {ps : Copies}
        → Interleaving w u ps
        → (st : Step S Holds key_of u v) → is_placed st ≡ false
        → Interleaving w v ps

  -- The node of a copy is registered, and its bucket has the object.
  abbrev pub IsCopied : World N → StorageNodeRecord × String → Type 0
  IsCopied w x = IsRegistered w.nodes x.0 × Holds x.0.bucket (key_of x.1) w.objects

  Step-IsCopied :
      {u v : World N}
      → Step S Holds key_of u v
      → (x : StorageNodeRecord × String) → IsCopied u x
      → IsCopied v x
  Step-IsCopied {u} (stored o keep) x h = (
    h.0,
    registered-All (λ b. Holds b (key_of x.1) u.objects → Holds b (key_of x.1) o) x.0 u.nodes h.0
        (All-map _ u.nodes (λ m k. k (key_of x.1)) keep) h.1,
  )
  Step-IsCopied {u} (counted id size) x h =
      (IsRegistered-update (has_id id) _ (λ n. refl) (λ n. refl) u.nodes x.0 h.0, h.1)
  Step-IsCopied (placed n c size known holds) x h = h
  Step-IsCopied (given_up id) x h = h
  Step-IsCopied {u} (expired id) x h =
      (IsRegistered-update (has_id id) _ (λ n. refl) (λ n. refl) u.nodes x.0 h.0, h.1)
  Step-IsCopied {u} (beaten id t) x h =
      (IsRegistered-update (has_id id) _ (λ n. refl) (λ n. refl) u.nodes x.0 h.0, h.1)
  Step-IsCopied (ticked t) x h = h

  module _ (law : IsNodeStorage S Holds) where
    abbrev copy-Step :
        (c : String) (size : ℕ) (node : StorageNodeRecord) (u : World N)
        → Step S Holds key_of u (record u { objects = (copy S c (key_of c) size node u.objects).1 })
    copy-Step c size node u =
        stored _ (All-of _ u.nodes (λ n held. law.kept _ _ _ n.bucket held u.objects))

    -- Over node storage that keeps its word, from a sound world: however copies, the rows for them and the
    -- other steps of uploads, message handlers, health checks and healing interleave, also with any
    -- number of them between a copy and its row, the world is sound: node ids are unique, no chunk has
    -- two rows for one node, and every synced row stands for an object that is in its node's bucket.
    -- Every copy that was made is still there, at a registered node.
    pub Interleaving-IsSound :
        {w u : World N} {ps : Copies}
        → Interleaving w u ps
        → IsSound S Holds key_of w
        → IsSound S Holds key_of u × All (IsCopied u) ps
    Interleaving-IsSound start s = (s, tt)
    Interleaving-IsSound (copies {u} {ps} r c size node known e) s =
        let (before, made) = Interleaving-IsSound r s in
        let step = copy-Step c size node u in
        (
          Step-IsSound S Holds key_of step before,
          (
            (known, law.copied _ _ _ u.objects e),
            All-map _ ps (λ x h. Step-IsCopied step x h) made,
          ),
        )
    Interleaving-IsSound (writes {u} before after c size node r) s =
        let (sound, made) = Interleaving-IsSound r s in
        let (known, holds) = All-at (IsCopied u) before after (node, c) made in
        let step : Step S Holds key_of u (put_replica S c node.id (key_of c) size u).1 =
          placed node c size known holds in
        (
          Step-IsSound S Holds key_of step sound,
          All-map _ (before ++ (node, c) ∷ after) (λ x h. Step-IsCopied step x h) made,
        )
    Interleaving-IsSound (others {u} {v} {ps} r st q) s =
        let (sound, made) = Interleaving-IsSound r s in
        (Step-IsSound S Holds key_of st sound, All-map _ ps (λ x h. Step-IsCopied st x h) made)

    abbrev Running : World N → List StorageNodeRecord → World N → List ChunkReplicaRecord → Type 0
    Running w targets v rows =
        ((ps : Copies) × Interleaving w v ps) × All (IsRegistered v.nodes) targets

    -- After any such operations, `copyToTargets` with registered nodes is some more of them: each row that it
    -- writes is for a copy that it has made, whichever of its copies fail.
    pub copy_to_targets-Interleaving :
        (c : String) (size : ℕ) (targets : List StorageNodeRecord) {w u : World N} {ps : Copies}
        → Interleaving w u ps
        → All (IsRegistered u.nodes) targets
        → (ps' : Copies) × Interleaving w (copy_to_targets S c (key_of c) size targets u).1 ps'
    unfolding copy_to_targets
    copy_to_targets-Interleaving c size targets {w} {u} {ps} r known =
        let (rows, e, reached) =
          copy_loop_inv S c (key_of c) size (Running w)
            (λ node rest v rows ((ps', i), k) e. (
              (
                (node, c) ∷ ps',
                writes [] ps' c size node
                    (others (copies i c size node k.0 e) (counted node.id size) refl),
              ),
              All-map _ rest
                  (λ n h.
                    IsRegistered-update (has_id node.id) _ (λ m. refl) (λ m. refl) v.nodes n h)
                  k.1,
            ))
            (λ node rest v rows x ((ps', i), k) e.
              ((ps', others i (copy-Step c size node v) refl), k.1))
            targets [] u ((ps, r), known) in
        elim (Bool-cases (eqb (length rows) 0)) [
          | inl z ↦ rw e (rw z reached.0)
          | inr z ↦ rw e (rw z reached.0)
        ]
