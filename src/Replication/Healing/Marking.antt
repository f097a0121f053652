-- ===== src/Replication/Healing/Marking.antt =====
-- `markReplicasOnUnhealthyNodesLost`: which replicas are lost after it.
use intelli_store.Prelude.{
  String, ◌≡◌, refl, inl, inr, ◌⊎◌, Bool, true, false, not, List, [], ◌∷◌, map, arith, ◌==◌, eq_iff,
  All, All-map, All-of, All-update_cases, filter, includes, Bool-cases,
}
use text.Mathlib.TextPositions.{eq_refl}
use intelli_store.Effects.{ok}
use intelli_store.Replication.Replicas.{
  ChunkReplicaRecord, Replicas, is_lost, list_by_node_ids, lost, mark_lost,
}
use intelli_store.Replication.Service.{World, ReplicationService}
use intelli_store.Replication.Healing.{
  mark_each_lost, mark_replicas_on_unhealthy_nodes_lost, unhealthy_node_ids,
}

-- Lost, or on a node that is not one of these.
abbrev pub IsLostOn : List String → ChunkReplicaRecord → Type 0
IsLostOn ids r = (is_lost r.status ≡ true) ⊎ (includes ids r.node_id ≡ false)

abbrev IsPending : List String → List ChunkReplicaRecord → ChunkReplicaRecord → Type 0
IsPending ids todo r = IsLostOn ids r ⊎ (includes (map (λ x. x.id) todo) r.id ≡ true)

module _ {N : Type 0} (S : ReplicationService N) (ids : List String) where
  mark_each_lost-IsLostOn :
      (todo : List ChunkReplicaRecord) (rs : Replicas)
      → All (IsPending ids todo) rs
      → All (IsLostOn ids) (mark_each_lost S todo rs)
  unfolding mark_each_lost
  mark_each_lost-IsLostOn [] rs h =
      All-map (IsLostOn ids) rs (λ r k. elim k [ inl l ↦ l | inr e ↦ absurd (cc) ]) h
  mark_each_lost-IsLostOn (x ∷ todo) rs h = mark_each_lost-IsLostOn todo (mark_lost x.id rs) (
      All-update_cases (IsPending ids (x ∷ todo)) (IsPending ids todo) (λ r. r.id == x.id)
        (λ r. record r { status = lost }) rs (λ r k e. inl (inl refl))
        (λ r k e. elim k [
          | inl l ↦ inl l
          | inr i ↦ inr (ground (arith, i, e, eq_iff x.id r.id, eq_iff r.id x.id))
        ])
        h)

-- `filter` twice, as the two functions do it, is one filter.
kept-twice :
    (p q : ChunkReplicaRecord → Bool) (rs : Replicas)
    → All
        (λ r.
          (q r ≡ false)
          ⊎ (p r ≡ false)
          ⊎ (includes (map (λ x. x.id) (filter p (filter q rs))) r.id ≡ true))
        rs
kept-twice p q [] = tt
kept-twice p q (r ∷ rs) = (
  head,
  All-map _ rs
      (λ x h. elim h [
        | inl n ↦ inl n
        | inr (inl n) ↦ inr (inl n)
        | inr (inr i) ↦ inr (inr (more x i))
      ])
      (kept-twice p q rs),
)
  where
    among : Replicas → String → Bool
    among xs id = includes (map (λ x. x.id) (filter p (filter q xs))) id

    head : (q r ≡ false) ⊎ (p r ≡ false) ⊎ (among (r ∷ rs) r.id ≡ true)
    head = elim (Bool-cases (q r)) [
      | inr e ↦ inl e
      | inl e ↦ elim (Bool-cases (p r)) [
        | inr f ↦ inr (inl f)
        | inl f ↦ inr (inr (rw e (rw f (ground (arith, eq_refl r.id)))))
      ]
    ]

    more : (x : ChunkReplicaRecord) → among rs x.id ≡ true → among (r ∷ rs) x.id ≡ true
    more x i = elim (Bool-cases (q r)) [
      | inr e ↦ rw e i
      | inl e ↦ elim (Bool-cases (p r)) [
        | inr f ↦ rw e (rw f i)
        | inl f ↦ rw e (rw f (ground (arith, i)))
      ]
    ]

start :
    (ids : List String) (rs : Replicas)
    → All (IsPending ids (filter (λ r. not (is_lost r.status)) (list_by_node_ids ids rs))) rs
start [] rs = All-of _ rs λ r. inl (inr refl)
start (id ∷ ids) rs =
    All-map _ rs
      (λ r h. elim h [
        | inl n ↦ inl (inr n)
        | inr (inl n) ↦ inl (inl (ground (arith, n)))
        | inr (inr i) ↦ inr i
      ])
      (kept-twice (λ r. not (is_lost r.status)) (λ r. includes (id ∷ ids) r.node_id) rs)

module _ {N : Type 0} (S : ReplicationService N) where
  -- After the marking, which does not fail, every replica on a node that is not healthy is lost; the
  -- nodes and the objects are as before.
  pub mark_replicas-IsLostOn :
      (w : World N)
      → let (r, w') = mark_replicas_on_unhealthy_nodes_lost S w in
        (r ≡ ok tt)
        × All (IsLostOn (unhealthy_node_ids S w.nodes)) w'.replicas
        × (w'.nodes ≡ w.nodes)
        × (w'.objects ≡ w.objects)
  unfolding mark_replicas_on_unhealthy_nodes_lost
  mark_replicas-IsLostOn w = (
    refl,
    mark_each_lost-IsLostOn S (unhealthy_node_ids S w.nodes) _ w.replicas (start _ w.replicas),
    refl,
    refl,
  )
