-- ===== src/Replication/Heartbeat/Reached.antt =====
-- A sweep and a beat are sequences of the replication service's steps.
use intelli_store.Prelude.{ℕ, String, inl, inr, ◌&&◌, List, [], ◌∷◌, Bool-cases, Option-cases}
use intelli_store.Prelude.Sorting.{Postgres}
use intelli_store.Replication.Nodes.{StorageNodeRecord, find_by_name, list_all}
use intelli_store.Replication.Service.{World, ReplicationService}
use intelli_store.Replication.Heartbeat.{heartbeat, is_stale, sweep_nodes, sweep_once}
use intelli_store.Replication.Steps.{Reach, Reach-trans, beaten, expired, here, next}

module _ {N : Type 0} (S : ReplicationService N) (Holds : String → String → N → Type 0)
    (key_of : String → String) where
  sweep_nodes-Reach :
      (stale_ms now : ℕ) (listed : List StorageNodeRecord) (w : World N)
      → Reach S Holds key_of w (record w { nodes = sweep_nodes stale_ms now listed w.nodes })
  unfolding sweep_nodes
  sweep_nodes-Reach stale_ms now [] w = here
  sweep_nodes-Reach stale_ms now (n ∷ listed) w =
      elim (Bool-cases (n.is_healthy && is_stale stale_ms now n)) [
        | inl e ↦ rw e (
            Reach-trans S Holds key_of (next here (expired n.id))
              (sweep_nodes-Reach stale_ms now listed _))
        | inr e ↦ rw e (sweep_nodes-Reach stale_ms now listed w)
      ]

  -- A sweep and a heartbeat, also of an unknown node, take steps alone.
  pub heartbeats-Reach :
      (pg : Postgres) (stale_ms now : ℕ) (name : String) (w : World N)
      → Reach S Holds key_of w (sweep_once pg stale_ms now w).1
        × Reach S Holds key_of w (heartbeat name now w).1
  unfolding sweep_once heartbeat
  heartbeats-Reach pg stale_ms now name w = (
    sweep_nodes-Reach stale_ms now (list_all pg w.nodes) w,
    elim (Option-cases (find_by_name name w.nodes)) [
      | inl e ↦ rw e here
      | inr (n, e) ↦ rw e (next here (beaten n.id now))
    ],
  )
