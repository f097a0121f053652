-- ===== src/Replication/Healing/Reached.antt =====
-- A healing pass is a sequence of steps: the key that it reads from the rows of a chunk is the chunk's.
use intelli_store.Prelude.{
  ℕ, ◌-◌, String, ◌≡◌, refl, subst, ◌∙◌, inl, inr, List, [], ◌∷◌, map, arith, ◌==◌, eq_iff, All,
  All-filter, All-map, filter, includes, ltb, Bool-cases,
}
use text.Mathlib.TextPositions.{eq_refl}
use intelli_store.Prelude.Sorting.{Postgres}
use intelli_store.Effects.{ok, Result-cases}
use intelli_store.Replication.Replicas.{
  ChunkReplicaRecord, Replicas, UnderReplicatedChunk, distinct, group, list_by_chunk,
  list_node_ids_for_chunk, list_under_replicated, max_key, synced_count,
}
use intelli_store.Replication.Service.{World, ReplicationService, heal_chunk}
use intelli_store.Replication.Service.Laws.{IsNodeStorage}
use intelli_store.Replication.Healing.{
  at_risk, heal_once, mark_each_lost, mark_replicas_on_unhealthy_nodes_lost, reconcile_chunk,
  reconcile_each, reconcile_under_replicated_chunks,
}
use intelli_store.Replication.Steps.{Reach, Reach-trans, given_up, here, next}
use intelli_store.Replication.Steps.Sound.{IsSound, Reach-IsSound}
use intelli_store.Replication.Steps.Runs.{heal_chunk-Reach}

abbrev IsInhabited {ℓ} : {A : Type ℓ} → List A → Type ℓ
IsInhabited {A = A} xs = (x : A) × (ys : List A) × (xs ≡ x ∷ ys)

All-distinct : (P : String → Type 0) (xs : List String) → All P xs → All P (distinct xs)
All-distinct P [] h = tt
All-distinct P (x ∷ xs) h = elim (Bool-cases (includes xs x)) [
  | inl e ↦ rw e (All-distinct P xs h.1)
  | inr e ↦ rw e (h.0, All-distinct P xs h.1)
]

-- Every chunk that is named by a row has a row.
chunks-IsInhabited :
    (rs : Replicas) → All (λ c. IsInhabited (list_by_chunk c rs)) (map (λ r. r.chunk_id) rs)
chunks-IsInhabited [] = tt
chunks-IsInhabited (r ∷ rs) = (
  rw (eq_refl r.chunk_id) (r, list_by_chunk r.chunk_id rs, refl),
  All-map _ (map (λ x. x.chunk_id) rs)
      (λ c (x, ys, e). elim (Bool-cases (r.chunk_id == c)) [
        | inl b ↦ rw b (r, list_by_chunk c rs, refl)
        | inr b ↦ rw b (x, ys, e)
      ])
      (chunks-IsInhabited rs),
)

max_key-const :
    (pg : Postgres) (k key : String) (rs : Replicas)
    → k ≡ key
    → All (λ r. r.storage_key ≡ key) rs
    → max_key pg k rs ≡ key
max_key-const pg k key [] e h = e
max_key-const pg k key (r ∷ rs) e h =
    max_key-const pg _ key rs
      (elim (pg.max_text-mem k r.storage_key) [ inl a ↦ a ∙ e | inr b ↦ b ∙ h.0 ]) h.1

module _ (key_of : String → String) where
  abbrev IsKeyed : ChunkReplicaRecord → Type 0
  IsKeyed r = r.storage_key ≡ key_of r.chunk_id

  list_by_chunk-keyed :
      (c : String) (rs : Replicas)
      → All IsKeyed rs
      → All (λ r. r.storage_key ≡ key_of c) (list_by_chunk c rs)
  list_by_chunk-keyed c [] h = tt
  list_by_chunk-keyed c (r ∷ rs) h = elim (Bool-cases (r.chunk_id == c)) [
    | inl b ↦
        let same : r.chunk_id ≡ c = ground (arith, eq_iff r.chunk_id c) in
        rw b (rw⁻¹ same h.0, list_by_chunk-keyed c rs h.1)
    | inr b ↦ rw b (list_by_chunk-keyed c rs h.1)
  ]

  abbrev HasKey : UnderReplicatedChunk → Type 0
  HasKey u = u.storage_key ≡ key_of u.chunk_id

  group-HasKey :
      (pg : Postgres) (c : String) (rs : Replicas)
      → All IsKeyed rs
      → IsInhabited (list_by_chunk c rs)
      → HasKey (group pg c rs (list_by_chunk c rs))
  group-HasKey pg c rs h (x, ys, e) =
      let k = subst (All (λ r. r.storage_key ≡ key_of c)) e (list_by_chunk-keyed c rs h) in
      rw e (max_key-const pg x.storage_key (key_of c) ys k.0 k.1)

  All-map_list :
      (f : String → UnderReplicatedChunk) (cs : List String)
      → All (λ c. HasKey (f c)) cs
      → All HasKey (map f cs)
  All-map_list f [] h = tt
  All-map_list f (c ∷ cs) h = (h.0, All-map_list f cs h.1)

  under-HasKey :
      (pg : Postgres) (desired : ℕ) (rs : Replicas)
      → All IsKeyed rs
      → All HasKey (list_under_replicated pg desired rs)
  under-HasKey pg desired rs h =
      let chunks = distinct (map (λ r. r.chunk_id) rs) in
      let short = filter (λ c. ltb (synced_count c rs) desired) chunks in
      All-map_list (λ c. group pg c rs (list_by_chunk c rs)) short
        (All-map _ short (λ c. group-HasKey pg c rs h)
          (All-filter _ (λ c. ltb (synced_count c rs) desired) chunks
            (All-distinct _ (map (λ r. r.chunk_id) rs) (chunks-IsInhabited rs))))

module _ {N : Type 0} (S : ReplicationService N) (Holds : String → String → N → Type 0)
    (key_of : String → String) (law : IsNodeStorage S Holds) where
  abbrev Reaches : World N → World N → Type 0
  Reaches w w' = Reach S Holds key_of w w'

  mark_each-Reach :
      (todo : List ChunkReplicaRecord) (w : World N)
      → Reaches w (record w { replicas = mark_each_lost S todo w.replicas })
  unfolding mark_each_lost
  mark_each-Reach [] w = here
  mark_each-Reach (r ∷ todo) w =
      Reach-trans S Holds key_of (next here (given_up r.id)) (mark_each-Reach todo _)

  reconcile_chunk-Reach :
      (u : UnderReplicatedChunk) (w : World N)
      → HasKey key_of u
      → IsSound S Holds key_of w
      → (Reaches w (reconcile_chunk S u w).1) × ((reconcile_chunk S u w).0 ≡ ok tt)
  unfolding reconcile_chunk
  reconcile_chunk-Reach u w k s =
      let needed = S.replication_factor - u.synced_count in
      let exclude = list_node_ids_for_chunk u.chunk_id w.replicas in
      let run =
        heal_chunk-Reach S Holds key_of law u.chunk_id u.size_bytes needed exclude w s.node_ids in
      let result = (heal_chunk S u.chunk_id (key_of u.chunk_id) u.size_bytes needed exclude w).0 in
      rw k (elim (Result-cases result) [
        | inl (rows, e) ↦ rw e (run, refl)
        | inr (x, e) ↦ rw e (run, refl)
      ])

  reconcile_each-Reach :
      (us : List UnderReplicatedChunk) (w : World N)
      → All (HasKey key_of) us
      → IsSound S Holds key_of w
      → Reaches w (reconcile_each S us w).1
  unfolding reconcile_each
  reconcile_each-Reach [] w h s = here
  reconcile_each-Reach (u ∷ us) w h s =
      let (run, e) = reconcile_chunk-Reach u w h.0 s in
      rw e (
        Reach-trans S Holds key_of run
          (reconcile_each-Reach us _ h.1 (Reach-IsSound S Holds key_of run s)))

  -- A whole healing pass, marking and reconciliation, takes steps alone from a sound world; so what
  -- it leaves is sound, whichever copies fail.
  pub heal_once-Reach :
      (w : World N)
      → IsSound S Holds key_of w
      → Reaches w (heal_once S w).1 × IsSound S Holds key_of (heal_once S w).1
  unfolding heal_once reconcile_under_replicated_chunks mark_replicas_on_unhealthy_nodes_lost
  heal_once-Reach w s =
      let marked = mark_each-Reach (at_risk S w.nodes w.replicas) w in
      let s' = Reach-IsSound S Holds key_of marked s in
      let run = Reach-trans S Holds key_of marked (
        reconcile_each-Reach _ _
          (under-HasKey key_of S.postgres S.replication_factor _
            (All-map _ _ (λ r k. k.keyed) s'.rows))
          s') in
      (run, Reach-IsSound S Holds key_of run s)
