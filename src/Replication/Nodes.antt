-- ===== src/Replication/Nodes.antt =====
-- services/replication-service/src/repositories/node.repository.ts: the table `storage_nodes`, in the
-- order in which the database would scan it, and each query as a function on its rows.
use intelli_store.Prelude.{
  ℕ, ◌+◌, String, Bool, false, Option, some, List, ◌==◌, filter, find?, update_where,
}
use intelli_store.Prelude.Sorting.{Postgres}

-- Instants are numbers of milliseconds.
pub record StorageNodeRecord : Type 0 where
  pub id : String
  pub name : String
  pub bucket : String
  pub is_healthy : Bool
  pub last_heartbeat_at : Option ℕ
  pub capacity_bytes : ℕ
  pub used_bytes : ℕ

abbrev pub Nodes : Type 0
Nodes = List StorageNodeRecord

abbrev pub has_id : String → StorageNodeRecord → Bool
has_id id node = node.id == id

abbrev pub list_all : Postgres → Nodes → Nodes
list_all pg nodes = pg.order_by_text (λ n. n.name) nodes

abbrev pub list_healthy : Postgres → Nodes → Nodes
list_healthy pg nodes = pg.order_by (λ n. n.used_bytes) (filter (λ n. n.is_healthy) nodes)

abbrev pub find_by_id : String → Nodes → Option StorageNodeRecord
find_by_id id = find? (has_id id)

abbrev pub find_by_name : String → Nodes → Option StorageNodeRecord
find_by_name name = find? (λ n. n.name == name)

abbrev pub increment_used_bytes : String → ℕ → Nodes → Nodes
increment_used_bytes id delta_bytes =
    update_where (has_id id) (λ n. record n { used_bytes = n.used_bytes + delta_bytes })

abbrev pub set_health : String → Bool → ℕ → Nodes → Nodes
set_health id is_healthy heartbeat_at =
    update_where (has_id id)
      (λ n. record n { is_healthy = is_healthy; last_heartbeat_at = some heartbeat_at })

abbrev pub mark_stale : String → Nodes → Nodes
mark_stale id = update_where (has_id id) (λ n. record n { is_healthy = false })
