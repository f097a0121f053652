-- ===== src/Replication/Replicas.antt =====
-- services/replication-service/src/repositories/replica.repository.ts: the table `chunk_replicas`.
use intelli_store.Prelude.{
  ℕ, String, Bool, true, false, ◌&&◌, Option, none, some, List, [], ◌∷◌, ◌++◌, map, ◌==◌, filter,
  find?, update_where, includes, length, ltb, if◌then◌else◌, leb,
}
use intelli_store.Prelude.Sorting.{Postgres}

pub data ReplicaStatus : Type 0 where
  pending synced degraded lost : ReplicaStatus

abbrev pub is_synced : ReplicaStatus → Bool
is_synced synced = true
is_synced _ = false

abbrev pub is_lost : ReplicaStatus → Bool
is_lost lost = true
is_lost _ = false

abbrev pub same_status : ReplicaStatus → ReplicaStatus → Bool
same_status pending pending = true
same_status synced synced = true
same_status degraded degraded = true
same_status lost lost = true
same_status _ _ = false

pub record ChunkReplicaRecord : Type 0 where
  pub id : String
  pub chunk_id : String
  pub node_id : String
  pub storage_key : String
  pub size_bytes : ℕ
  pub status : ReplicaStatus
  pub last_verified_at : Option ℕ
  pub created_at : ℕ

abbrev pub Replicas : Type 0
Replicas = List ChunkReplicaRecord

pub record UnderReplicatedChunk : Type 0 where
  pub chunk_id : String
  pub storage_key : String
  pub size_bytes : ℕ
  pub synced_count : ℕ

abbrev pub of_chunk : String → ChunkReplicaRecord → Bool
of_chunk chunk_id r = r.chunk_id == chunk_id

abbrev pub at : String → String → ChunkReplicaRecord → Bool
at chunk_id node_id r = r.chunk_id == chunk_id && r.node_id == node_id

abbrev pub list_by_chunk : String → Replicas → Replicas
list_by_chunk chunk_id = filter (of_chunk chunk_id)

-- The early return for no ids at all gives what the query would.
abbrev pub list_by_node_ids : List String → Replicas → Replicas
list_by_node_ids [] rs = []
list_by_node_ids (id ∷ ids) rs = filter (λ r. includes (id ∷ ids) r.node_id) rs

abbrev pub list_node_ids_for_chunk : String → Replicas → List String
list_node_ids_for_chunk chunk_id rs = map (λ r. r.node_id) (filter (of_chunk chunk_id) rs)

abbrev pub count_by_status : String → ReplicaStatus → Replicas → ℕ
count_by_status chunk_id status rs =
    length (filter (λ r. of_chunk chunk_id r && same_status r.status status) rs)

abbrev pub mark_lost : String → Replicas → Replicas
mark_lost id = update_where (λ r. r.id == id) (λ r. record r { status = lost })

-- The groups of GROUP BY chunk_id, one for each chunk that has a row.
abbrev pub distinct : List String → List String
distinct [] = []
distinct (x ∷ xs) = let rest = distinct xs in if includes xs x then rest else x ∷ rest

abbrev pub synced_count : String → Replicas → ℕ
synced_count chunk_id rs = length (filter (λ r. of_chunk chunk_id r && is_synced r.status) rs)

-- MAX over the rows of a group.
abbrev pub max_key : Postgres → String → Replicas → String
max_key pg key [] = key
max_key pg key (r ∷ rs) = max_key pg (pg.max_text key r.storage_key) rs

abbrev pub max_size : ℕ → Replicas → ℕ
max_size size [] = size
max_size size (r ∷ rs) = max_size (if leb size r.size_bytes then r.size_bytes else size) rs

abbrev pub group : Postgres → String → Replicas → Replicas → UnderReplicatedChunk
group pg chunk_id rs [] = record {
  chunk_id = chunk_id;
  storage_key = "";
  size_bytes = 0;
  synced_count = 0;
}
group pg chunk_id rs (first ∷ more) = record {
  chunk_id = chunk_id;
  storage_key = max_key pg first.storage_key more;
  size_bytes = max_size first.size_bytes more;
  synced_count = synced_count chunk_id rs;
}

abbrev pub list_under_replicated : Postgres → ℕ → Replicas → List UnderReplicatedChunk
list_under_replicated pg desired_count rs =
    map (λ c. group pg c rs (list_by_chunk c rs))
      (filter (λ c. ltb (synced_count c rs) desired_count) (distinct (map (λ r. r.chunk_id) rs)))

-- INSERT … ON CONFLICT (chunk_id, node_id) DO UPDATE: the row that is there keeps its id, its storage
-- key and its time of creation. `id` and `now` are what the database gives a new row.
abbrev pub refreshed : ℕ → ReplicaStatus → ℕ → ChunkReplicaRecord → ChunkReplicaRecord
refreshed size_bytes status now r = record r {
  status = status;
  size_bytes = size_bytes;
  last_verified_at = some now;
}

abbrev pub new_row : String → ℕ → String → String → String → ℕ → ReplicaStatus → ChunkReplicaRecord
new_row id now chunk_id node_id storage_key size_bytes status = record {
  id = id;
  chunk_id = chunk_id;
  node_id = node_id;
  storage_key = storage_key;
  size_bytes = size_bytes;
  status = status;
  last_verified_at = some now;
  created_at = now;
}

abbrev upsert_found :
    Option ChunkReplicaRecord
    → String
    → ℕ
    → String
    → String
    → String
    → ℕ
    → ReplicaStatus
    → Replicas
    → ChunkReplicaRecord × Replicas
upsert_found (some old) id now chunk_id node_id storage_key size_bytes status rs = (
  refreshed size_bytes status now old,
  update_where (at chunk_id node_id) (refreshed size_bytes status now) rs,
)
upsert_found none id now chunk_id node_id storage_key size_bytes status rs =
    let row = new_row id now chunk_id node_id storage_key size_bytes status in (row, rs ++ row ∷ [])

unfoldable pub upsert :
    String
    → ℕ
    → String
    → String
    → String
    → ℕ
    → ReplicaStatus
    → Replicas
    → ChunkReplicaRecord × Replicas
upsert id now chunk_id node_id storage_key size_bytes status rs =
    upsert_found (find? (at chunk_id node_id) rs) id now chunk_id node_id storage_key size_bytes
      status rs
