-- ===== src/Replication/Heartbeat.antt =====
-- services/replication-service/src/services/heartbeat-monitor.ts, and the route of a node's own ping,
-- src/routes/heartbeat.route.ts. Timer and log lines are left out.
pub mod Laws
pub mod Reached
use intelli_store.Prelude.{
  ℕ, ◌-◌, String, ◌<>◌, Bool, true, false, ◌&&◌, Option, none, some, List, [], ◌∷◌, ltb,
  if◌then◌else◌,
}
use intelli_store.Effects.{Exec, pure, throw, or_throw, app_error, not_found, ◌>>=◌, ◌>>◌}
use intelli_store.Prelude.Sorting.{Postgres}
use intelli_store.Replication.Nodes.{
  Nodes, StorageNodeRecord, list_all, find_by_name, set_health, mark_stale,
}
use intelli_store.Replication.Service.{World, reads, writes}

-- `lastBeat === null || now - lastBeat > staleMs`. A beat in the future is not stale, as in the code,
-- where the difference is negative.
abbrev pub beat_is_stale : ℕ → ℕ → Option ℕ → Bool
beat_is_stale stale_ms now none = true
beat_is_stale stale_ms now (some last_beat) = ltb stale_ms (now - last_beat)

abbrev pub is_stale : ℕ → ℕ → StorageNodeRecord → Bool
is_stale stale_ms now node = beat_is_stale stale_ms now node.last_heartbeat_at

-- The loop over the nodes that were listed.
pub sweep_nodes : ℕ → ℕ → List StorageNodeRecord → Nodes → Nodes
sweep_nodes stale_ms now [] nodes = nodes
sweep_nodes stale_ms now (node ∷ listed) nodes =
    sweep_nodes stale_ms now listed
      (if node.is_healthy && is_stale stale_ms now node then mark_stale node.id nodes else nodes)

pub sweep_once : {N : Type 0} → Postgres → ℕ → ℕ → Exec (World N) (Unit {0})
unfolding sweep_nodes
sweep_once pg stale_ms now = do
  listed ← reads (λ w. list_all pg w.nodes)
  writes (λ w. record w { nodes = sweep_nodes stale_ms now listed w.nodes })

-- POST /nodes/:name/heartbeat, at the time that the request names; it replies with the node's name.
unfoldable pub heartbeat : {N : Type 0} → String → ℕ → Exec (World N) String
heartbeat name now = do
  found ← reads (λ w. find_by_name name w.nodes)
  node ← or_throw found (app_error (not_found ("Unknown node: " <> name)))
  writes (λ w. record w { nodes = set_health node.id true now w.nodes })
  pure node.name
