-- ===== src/Examples/Stepping.antt =====
-- services/replication-service as steps: a healing pass, and a replication, from a sound world.
use intelli_store.Prelude.{String, ◌<>◌, refl, true, some, [], ◌∷◌, ◌==◌, All}
use intelli_store.Replication.Nodes.{StorageNodeRecord, mark_stale}
use intelli_store.Replication.Service.{World, put_replica, replicate_chunk}
use intelli_store.Replication.Service.Loop.{copy}
use intelli_store.Replication.Steps.{Reach, expired}
use intelli_store.Replication.Steps.Sound.{IsSound}
use intelli_store.Replication.Steps.Interleaved.{
  Interleaving, Interleaving-IsSound, IsCopied, copies, others, writes,
}
use intelli_store.Replication.Steps.Runs.{replicate_chunk-Reach}
use intelli_store.Replication.Healing.{heal_once}
use intelli_store.Replication.Healing.Reached.{heal_once-Reach}
use intelli_store.Examples.Replicating.{
  Buckets, Holds, node_storage, nodes-Unique, on_down, replication,
}

abbrev key_of : String → String
key_of c = "chunks/" <> c

-- The replica's node is down, but its bucket has the object.
abbrev start : World Buckets
start = record on_down { objects = λ b k. b == "c" }

sound : IsSound replication Holds key_of start
sound = record {
  node_ids = nodes-Unique;
  replicas = (tt, tt);
  rows = (
    record {
      keyed = refl;
      known = refl;
      held = λ y. (λ e. absurd (cc), (λ e. absurd (cc), (λ e. refl, tt)));
    },
    tt,
  );
}

-- The object is copied to node "1", then a staleness sweep marks the node, and then the row is written.
abbrev target : StorageNodeRecord
target = record {
  id = "1";
  name = "a";
  bucket = "a";
  is_healthy = true;
  last_heartbeat_at = some 0;
  capacity_bytes = 0;
  used_bytes = 0;
}

abbrev copied_first : World Buckets
copied_first = record start {
  objects = (copy replication "c2" (key_of "c2") 5 target start.objects).1;
}

abbrev swept : World Buckets
swept = record copied_first { nodes = mark_stale "1" start.nodes }

interleaved :
    Interleaving replication Holds key_of start
      (put_replica replication "c2" "1" (key_of "c2") 5 swept).1
      ((target, "c2") ∷ [])
interleaved = writes [] [] "c2" 5 target (
    others
      (copies Interleaving.start "c2" 5 target
        (refl, (λ e. refl, (λ e. absurd (cc), (λ e. absurd (cc), tt)))) refl)
      (expired "1") refl)

Interleaving-IsSound_example :
    IsSound replication Holds key_of (put_replica replication "c2" "1" (key_of "c2") 5 swept).1
    × All
        (IsCopied replication Holds key_of
          (put_replica replication "c2" "1" (key_of "c2") 5 swept).1)
        ((target, "c2") ∷ [])
Interleaving-IsSound_example =
    Interleaving-IsSound replication Holds key_of node_storage interleaved sound

replicate_chunk-Reach_example :
    Reach replication Holds key_of start (replicate_chunk replication "c2" (key_of "c2") 5 start).1
replicate_chunk-Reach_example =
    replicate_chunk-Reach replication Holds key_of node_storage "c2" 5 start nodes-Unique

heal_once-Reach_example :
    Reach replication Holds key_of start (heal_once replication start).1
    × IsSound replication Holds key_of (heal_once replication start).1
heal_once-Reach_example = heal_once-Reach replication Holds key_of node_storage start sound
