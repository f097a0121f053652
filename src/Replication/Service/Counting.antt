-- ===== src/Replication/Service/Counting.antt =====
-- What one upsert does to the replicas of a chunk and to the table's uniqueness.
use intelli_store.Prelude.{
  ℕ, ◌+◌, String, ◌≡◌, refl, inl, inr, Bool, true, false, ◌&&◌, none, [], ◌∷◌, ◌++◌, arith, ◌==◌,
  eq_iff, All, All-append, All-update_where, find-some, length-append, filter, filter-append, find?,
  update_where, Bool-cases, Option-cases, if◌then◌else◌,
}
use intelli_store.Replication.Replicas.{
  Replicas, ChunkReplicaRecord, synced, is_synced, of_chunk, at, synced_count, upsert, new_row,
}

-- No two rows have one chunk and one node: UNIQUE (chunk_id, node_id).
abbrev pub UniqueReplicas : Replicas → Type 0
UniqueReplicas [] = Unit
UniqueReplicas (r ∷ rs) = All (λ q. at r.chunk_id r.node_id q ≡ false) rs × UniqueReplicas rs

-- The chunk has no row for the node.
abbrev pub Vacant : String → String → Replicas → Type 0
Vacant chunk_id node_id = All λ r. at chunk_id node_id r ≡ false

find-Vacant : (c n : String) (rs : Replicas) → find? (at c n) rs ≡ none → Vacant c n rs
find-Vacant c n [] h = tt
find-Vacant c n (r ∷ rs) h = elim (Bool-cases (at c n r)) [
  | inl e ↦ absurd (let x = rw e at h in cc)
  | inr e ↦ (e, find-Vacant c n rs (rw e at h))
]

Vacant-find : (c n : String) (rs : Replicas) → Vacant c n rs → find? (at c n) rs ≡ none
Vacant-find c n [] h = refl
Vacant-find c n (r ∷ rs) h = rw h.0 (Vacant-find c n rs h.1)

UniqueReplicas-append :
    (rs : Replicas) (r : ChunkReplicaRecord)
    → UniqueReplicas rs
    → Vacant r.chunk_id r.node_id rs
    → UniqueReplicas (rs ++ r ∷ [])
UniqueReplicas-append [] r u v = (tt, tt)
UniqueReplicas-append (q ∷ qs) r u v = (
  All-append _ qs (r ∷ []) u.0 (
    ground (
      arith,
      eq_iff r.chunk_id q.chunk_id,
      eq_iff q.chunk_id r.chunk_id,
      eq_iff r.node_id q.node_id,
      eq_iff q.node_id r.node_id,
    ),
    tt,
  ),
  UniqueReplicas-append qs r u.1 v.1,
)

-- An update that leaves the chunk and the node of every row alone.
pub UniqueReplicas-update_where :
    (p : ChunkReplicaRecord → Bool) (f : ChunkReplicaRecord → ChunkReplicaRecord)
    → ((r : ChunkReplicaRecord) → (f r).chunk_id ≡ r.chunk_id)
    → ((r : ChunkReplicaRecord) → (f r).node_id ≡ r.node_id)
    → (rs : Replicas) → UniqueReplicas rs
    → UniqueReplicas (update_where p f rs)
UniqueReplicas-update_where p f cs ns [] u = tt
UniqueReplicas-update_where p f cs ns (r ∷ rs) u = (
  head (p r) _ (
      All-update_where (λ q. at r.chunk_id r.node_id q ≡ false) p f rs (λ q h. rw (cs q, ns q) h)
        u.0),
  UniqueReplicas-update_where p f cs ns rs u.1,
)
  where
    head :
        (b : Bool) (qs : Replicas)
        → All (λ q. at r.chunk_id r.node_id q ≡ false) qs
        → let x = (if b then f r else r) in All (λ q. at x.chunk_id x.node_id q ≡ false) qs
    head true qs h = rw (cs r, ns r) h
    head false qs h = h

module _ (id : String) (now : ℕ) (c n key : String) (size : ℕ) where
  abbrev row : ChunkReplicaRecord
  row = new_row id now c n key size synced

  -- A first row for the node is appended.
  pub upsert-Vacant :
      (rs : Replicas) → Vacant c n rs → upsert id now c n key size synced rs ≡ (row, rs ++ row ∷ [])
  unfolding upsert
  upsert-Vacant rs h = rw (Vacant-find c n rs h)

  pub synced_count-upsert :
      (rs : Replicas) (c' : String)
      → Vacant c n rs
      → synced_count c' (upsert id now c n key size synced rs).1
        ≡ synced_count c' rs + (if c == c' then 1 else 0)
  synced_count-upsert rs c' h =
      rw
        (upsert-Vacant rs h, filter-append (λ r. of_chunk c' r && is_synced r.status) rs (row ∷ []))
        (elim (Bool-cases (c == c')) [
          | inl e ↦
              rw e (length-append (filter (λ r. of_chunk c' r && is_synced r.status) rs) (row ∷ []))
          | inr e ↦ rw e (length-append (filter (λ r. of_chunk c' r && is_synced r.status) rs) [])
        ])

  -- The row that comes back is synced, of this chunk, on this node, with this size.
  pub upsert-row :
      (rs : Replicas)
      → let r = (upsert id now c n key size synced rs).0 in
        (r.chunk_id ≡ c) × (r.node_id ≡ n) × (r.status ≡ synced) × (r.size_bytes ≡ size)
  unfolding upsert
  upsert-row rs = elim (Option-cases (find? (at c n) rs)) [
    | inl e ↦ rw e (refl, refl, refl, refl)
    | inr (r, e) ↦
        let same = find-some (at c n) rs e in
        rw e (ground (arith, eq_iff r.chunk_id c, eq_iff r.node_id n))
  ]

  -- An upsert keeps UNIQUE (chunk_id, node_id).
  pub upsert-UniqueReplicas :
      (rs : Replicas) → UniqueReplicas rs → UniqueReplicas (upsert id now c n key size synced rs).1
  unfolding upsert
  upsert-UniqueReplicas rs u = elim (Option-cases (find? (at c n) rs)) [
    | inl e ↦ rw e (UniqueReplicas-append rs row u (find-Vacant c n rs e))
    | inr (r, e) ↦ rw e (UniqueReplicas-update_where (at c n) _ (λ q. refl) (λ q. refl) rs u)
  ]
