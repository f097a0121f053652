-- ===== src/Replication/Service/Diagnosis.antt =====
-- The numbers of `getDiagnostics`.
use mathlib.Core.List.{Permᴰ}
use intelli_store.Prelude.{
  ◌+◌, ◌≡◌, refl, ◌∙◌, Bool, List, map, arith, filter, length, length-filter-le, length-map, ltb,
}
use intelli_store.Prelude.Sorting.{length-perm}
use intelli_store.Effects.{ok}
use intelli_store.Replication.Replicas.{distinct, synced_count}
use intelli_store.Replication.Service.{Diagnostics, World, ReplicationService, get_diagnostics}

length-filter-perm :
    {A : Type 0} (p : A → Bool) {xs ys : List A}
    → Permᴰ xs ys
    → length (filter p xs) ≡ length (filter p ys)
length-filter-perm p Permᴰ.nil = refl
length-filter-perm p (Permᴰ.cons e q) = rw e (ground (arith, length-filter-perm p q))
length-filter-perm p (Permᴰ.swap e f) = rw (e, f) (ground arith)
length-filter-perm p (Permᴰ.trans q r) = length-filter-perm p q ∙ length-filter-perm p r

module _ {N : Type 0} (S : ReplicationService N) where
  -- The diagnostics change nothing. The healthy and the unhealthy nodes add up to all nodes of the
  -- table, the healthy ones are those that it marks so, and the chunks that are counted are as many
  -- as there are different chunks in the table of replicas with fewer synced ones than the factor.
  pub get_diagnostics-counts :
      (w : World N)
      → (x : Diagnostics) × (get_diagnostics S w ≡ (ok x, w))
        × (x.total_nodes ≡ length w.nodes)
        × (x.healthy_nodes ≡ length (filter (λ n. n.is_healthy) w.nodes))
        × (x.healthy_nodes + x.unhealthy_nodes ≡ x.total_nodes)
        × (x.under_replicated_chunk_count
            ≡ length (
                filter
                  (λ c. ltb (synced_count c w.replicas) S.replication_factor)
                  (distinct (map (λ r. r.chunk_id) w.replicas))))
  unfolding get_diagnostics
  get_diagnostics-counts w =
      let p = S.postgres.order_by_text-perm (λ n. n.name) w.nodes in
      let total = length-perm p in
      let healthy = length-filter-perm (λ n. n.is_healthy) p in
      (
        _,
        refl,
        total,
        healthy,
        omega (
          arith,
          length-filter-le (λ n. n.is_healthy) (S.postgres.order_by_text (λ n. n.name) w.nodes),
        ),
        length-map _ _,
      )
