-- ===== src/Examples/Replicating.antt =====
-- services/replication-service: three nodes, one of them down, and copies that succeed.
use text.Mathlib.TextPositions.{eq_refl}
use intelli_store.Prelude.{
  none, ℕ, ◌+◌, ◌-◌, ◌≤◌, min, String, ◌≡◌, refl, ◌⊎◌, Bool, true, false, ◌&&◌, some, List, [], ◌∷◌,
  map, arith, ◌==◌, All, length, leb, Unique, if◌then◌else◌,
}
use intelli_store.Prelude.Sorting.{insertion_postgres, insertion_sort}
use intelli_store.Effects.{ok, err, error}
use intelli_store.SharedTypes.{ChunkUploadedBatchEvent}
use intelli_store.Queue.{acked, consume}
use intelli_store.SharedTypes.{failure}
use intelli_store.Http.{Call, Sent, json, json_limit, no_body, post}
use intelli_store.Replication.Routes.{ReplicationApp, handle_replication}
use intelli_store.Replication.Routes.Laws.{IsServed, handle_replication-IsGuarded}
use intelli_store.Replication.Consumer.{handle_chunk_batch}
use intelli_store.Replication.Consumer.Laws.{handle_chunk_batch-acked}
use intelli_store.Replication.Nodes.{Nodes, StorageNodeRecord, find_by_name}
use intelli_store.Replication.Replicas.{
  ChunkReplicaRecord, UnderReplicatedChunk, lost, new_row, synced, synced_count,
}
use intelli_store.Replication.Service.{ReplicationService, World, replicate_chunk}
use intelli_store.Replication.Service.Laws.{
  IsNodeStorage, IsReplicated, replicate_chunk-IsReplicated,
}
use intelli_store.Replication.Healing.{reconcile_chunk}
use intelli_store.Replication.Healing.Progress.{
  eligible, reconcile_chunk-exhausted, reconcile_chunk-fills,
}
use intelli_store.Replication.Heartbeat.{heartbeat, sweep_once}
use intelli_store.Replication.Heartbeat.Laws.{beaten, expire, heartbeat_survives, sweep_once-expire}

-- Which key is in which bucket.
abbrev pub Buckets : Type 0
Buckets = String → String → Bool

abbrev pub Holds : String → String → Buckets → Type 0
Holds bucket key o = o bucket key ≡ true

abbrev copied_into : String → String → Buckets → Buckets
copied_into target key o b k = if b == target && k == key then true else o b k

abbrev pub replication : ReplicationService Buckets
replication = record {
  postgres = insertion_postgres;
  gen_random_uuid = λ n. "id";
  copy_to_node = λ source key target o. (ok tt, copied_into target key o);
  replication_factor = 2;
  primary_bucket = "primary";
}

pub node_storage : IsNodeStorage replication Holds
node_storage = record {
  copied = λ source key target o h. rw (eq_refl target, eq_refl key) refl;
  kept = λ source key target bucket held o h. ground (arith, h);
}

abbrev node : String → String → Bool → ℕ → StorageNodeRecord
node id name is_healthy used_bytes = record {
  id = id;
  name = name;
  bucket = name;
  is_healthy = is_healthy;
  last_heartbeat_at = some 100;
  capacity_bytes = 1000;
  used_bytes = used_bytes;
}

abbrev nodes : Nodes
nodes = node "1" "a" true 30 ∷ node "2" "b" true 10 ∷ node "3" "c" false 0 ∷ []

pub nodes-Unique : Unique (λ n. n.id) nodes
nodes-Unique = ((refl, (refl, tt)), ((refl, tt), (tt, tt)))

abbrev empty : World Buckets
empty = record {
  nodes = nodes;
  replicas = [];
  objects = λ b k. b == "primary";
  ids = 0;
  clock = 200;
}

-- One synced replica of the chunk, on the node that is down, and one that is lost already.
abbrev pub on_down : World Buckets
on_down = record empty { replicas = new_row "r1" 150 "c1" "3" "chunks/c1" 5 synced ∷ [] }

abbrev chunk : UnderReplicatedChunk
chunk = record { chunk_id = "c1"; storage_key = "chunks/c1"; size_bytes = 5; synced_count = 0 }

-- Every healthy node has a row that is lost.
abbrev all_lost : World Buckets
all_lost = record empty {
  replicas =
      new_row "r1" 150 "c1" "1" "chunks/c1" 5 lost
      ∷ new_row "r2" 150 "c1" "2" "chunks/c1" 5 lost
      ∷ [];
}

replicate_chunk-IsReplicated_example :
    let (r, w') = replicate_chunk replication "c1" "chunks/c1" 5 empty in
    ((rows : List ChunkReplicaRecord) × (r ≡ ok rows)
      × (1 ≤ length rows)
      × IsReplicated replication Holds "c1" "chunks/c1" 5 2 empty w' rows)
    ⊎ ((message : String) × (r ≡ err (error message)) × (w'.nodes ≡ nodes) × (w'.replicas ≡ []))
replicate_chunk-IsReplicated_example =
    replicate_chunk-IsReplicated replication Holds "c1" "chunks/c1" 5 node_storage empty
      nodes-Unique tt

reconcile_chunk-fills_example :
    let (r, w') = reconcile_chunk replication chunk on_down in
    (r ≡ ok tt)
    × (synced_count "c1" w'.replicas
        ≡ synced_count "c1" on_down.replicas
          + min (2 - 0) (length (eligible replication chunk on_down)))
reconcile_chunk-fills_example =
    reconcile_chunk-fills replication chunk on_down (λ source target o. refl) nodes-Unique

reconcile_chunk-exhausted_example : reconcile_chunk replication chunk all_lost ≡ (ok tt, all_lost)
unfolding insertion_sort
reconcile_chunk-exhausted_example =
    reconcile_chunk-exhausted replication chunk all_lost (refl, (refl, tt))

sweep_once-expire_example :
    sweep_once insertion_postgres 50 200 empty
    ≡ (ok tt, record empty { nodes = map (expire 50 200) nodes })
sweep_once-expire_example = sweep_once-expire insertion_postgres 50 200 empty nodes-Unique

heartbeat_survives_example :
    find_by_name "c" (sweep_once insertion_postgres 50 200 (heartbeat "c" 170 empty).1).1.nodes
    ≡ some (beaten 170 (node "3" "c" false 0))
heartbeat_survives_example =
    heartbeat_survives insertion_postgres "c" 50 170 200 empty nodes-Unique refl (omega arith)

abbrev batch : ChunkUploadedBatchEvent
batch = record {
  file_id = "f";
  owner_id = "alice";
  file_name = "notes.txt";
  version_id = "v";
  version_number = 1;
  chunks =
      record { chunk_id = "c1"; storage_key = "chunks/c1"; size_bytes = 5 }
      ∷ record { chunk_id = "c2"; storage_key = "chunks/c2"; size_bytes = 6 }
      ∷ [];
}

handle_chunk_batch-acked_example :
    let (d, w') = consume (handle_chunk_batch replication) batch empty in
    ((c : String) → synced_count c [] ≤ synced_count c w'.replicas)
    × (d ≡ acked → All (λ ch. 1 ≤ synced_count ch.chunk_id w'.replicas) batch.chunks)
handle_chunk_batch-acked_example = handle_chunk_batch-acked replication batch empty

abbrev replication_app : ReplicationApp Buckets
replication_app = record {
  service = replication;
  jwt = record { verify = λ token secret. none };
  headers = record { after_prefix = λ prefix header. some "token" };
  jwt_secret = "secret";
  now = λ w. 60;
  uptime = λ w. "12.5";
  iso_now = λ w. "2025-01-01T00:00:00.000Z";
}

-- A ping without a token.
abbrev ping : Call
ping = record { method = post; path = "nodes" ∷ "down" ∷ "heartbeat" ∷ []; authorization = none }

abbrev sent : Sent
sent = record { is_options = false; body_bytes = 0; is_json = true }

handle_replication-IsGuarded_example :
    let (r, w') = handle_replication replication_app sent ping on_down in
    ((false ≡ true) × (r ≡ no_body 204) × (w' ≡ on_down))
    ⊎ (((leb 0 json_limit ≡ false) ⊎ (true ≡ false))
        × (r ≡ json 500 (failure "INTERNAL_ERROR" "Internal server error"))
        × (w' ≡ on_down))
    ⊎ IsServed replication_app ping on_down r w'
handle_replication-IsGuarded_example =
    handle_replication-IsGuarded replication_app sent ping on_down
