-- ===== src/Replication/NodeStorage.antt =====
-- services/replication-service/src/storage/minio-node-storage.ts, over the MinIO client.
use intelli_store.Prelude.{String, ◌<>◌, ◌≡◌}
use intelli_store.Effects.{Exec, ok}
use intelli_store.Replication.Service.{ReplicationService}
use intelli_store.Replication.Service.Laws.{IsNodeStorage}
use intelli_store.Storage.Minio.{Minio, init}

module _ {N : Type 0} (M : Minio N) where
  -- `ensureBucket` has the loop of the storage service's `init`.
  abbrev pub ensure_node_bucket : (N → N) → String → Exec N (Unit {0})
  ensure_node_bucket sleep bucket = init M sleep bucket

  abbrev source_path : String → String → String
  source_path source_bucket key = (("/" <> source_bucket) <> "/") <> key

  abbrev pub copy_to_node : String → String → String → Exec N (Unit {0})
  copy_to_node source_bucket key dest_bucket =
      M.copy_object dest_bucket key (source_path source_bucket key)

  -- What is documented of `copyObject`, whatever its source is: the destination has the key after a
  -- copy that succeeds, and no object is lost.
  pub record CopiesObjects (Holds : String → String → N → Type 0) : Type 0 where
    pub copy_ok :
        (target key path : String) (o : N)
        → (M.copy_object target key path o).0 ≡ ok tt
        → Holds target key (M.copy_object target key path o).1
    pub copy_keeps :
        (target key path bucket held : String) (o : N)
        → Holds bucket held o
        → Holds bucket held (M.copy_object target key path o).1

  -- The replication service over this storage has the promises that its laws rely on.
  pub copy_to_node-IsNodeStorage :
      (Holds : String → String → N → Type 0) (S : ReplicationService N)
      → CopiesObjects Holds
      → IsNodeStorage (record S { copy_to_node = copy_to_node }) Holds
  copy_to_node-IsNodeStorage Holds S law = record {
    copied = λ source key target. law.copy_ok target key (source_path source key);
    kept = λ source key target. law.copy_keeps target key (source_path source key);
  }
