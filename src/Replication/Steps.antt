-- ===== src/Replication/Steps.antt =====
-- The replication service as its atomic steps: each await of its operations is one query or one copy,
-- and between two of them the other timers, requests and messages may run. A step is one query or one
-- copy, with what it needs as its guard.
pub mod Sound
pub mod Runs
pub mod Interleaved
use intelli_store.Prelude.{ℕ, String, Bool, true, ◌≡◌, ◌==◌, All, filter, length}
use intelli_store.Replication.Nodes.{
  Nodes, StorageNodeRecord, has_id, increment_used_bytes, mark_stale, set_health,
}
use intelli_store.Replication.Replicas.{mark_lost}
use intelli_store.Replication.Service.{World, ReplicationService, put_replica}

-- The table has one row of the node, with its bucket. Nothing ever changes an id or a bucket, so a
-- node that was listed once is registered for good.
abbrev pub IsRegistered : Nodes → StorageNodeRecord → Type 0
IsRegistered nodes n =
    (length (filter (has_id n.id) nodes) ≡ 1)
    × All (λ m. (m.id == n.id) ≡ true → m.bucket ≡ n.bucket) nodes

-- `key_of` is the storage key with which the metadata service registered the chunk, and
-- `Holds bucket key objects` says that the bucket has an object under the key.
module _ {N : Type 0} (S : ReplicationService N) (Holds : String → String → N → Type 0)
    (key_of : String → String) where
  pub data Step (w : World N) : World N → Type 0 where
    -- A copy, an upload, or the clean-up of an upload: no object of a node's bucket is lost.
    stored :
        (o : N)
        → All (λ n. (key : String) → Holds n.bucket key w.objects → Holds n.bucket key o) w.nodes
        → Step w (record w { objects = o })
    counted :
        (id : String) (size : ℕ)
        → Step w (record w { nodes = increment_used_bytes id size w.nodes })
    -- A row is written only for an object that a registered node holds.
    placed :
        (n : StorageNodeRecord) (c : String) (size : ℕ)
        → IsRegistered w.nodes n
        → Holds n.bucket (key_of c) w.objects
        → Step w (put_replica S c n.id (key_of c) size w).1
    given_up : (id : String) → Step w (record w { replicas = mark_lost id w.replicas })
    expired : (id : String) → Step w (record w { nodes = mark_stale id w.nodes })
    beaten : (id : String) (t : ℕ) → Step w (record w { nodes = set_health id true t w.nodes })
    ticked : (t : ℕ) → Step w (record w { clock = t })

  pub data Reach (w : World N) : World N → Type 0 where
    here : Reach w w
    next : {u v : World N} → Reach w u → Step u v → Reach w v

  pub Reach-trans : {u v w : World N} → Reach u v → Reach v w → Reach u w
  Reach-trans r here = r
  Reach-trans r (next s st) = next (Reach-trans r s) st
