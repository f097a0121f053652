-- ===== src/Storage/LocalFs/Laws.antt =====
-- The backend on the file system stays inside its directory, and keeps what it is given there.
use intelli_store.Prelude.{String, ◌<>◌, ◌≡◌, ◌≢◌, ◌↔◌, true, false, Option, none, some}
use text.Mathlib.TextBridge.{IsPrefix}
use intelli_store.Effects.{Exec, err, error, ok, ◌>>◌}
use intelli_store.Storage.Chunking.{Bytes}
use intelli_store.Storage.Interfaces.{StorageBackend}
use intelli_store.Storage.LocalFs.{NodeFs, key_path, local_fs_backend}

-- What is documented of `startsWith`, of POSIX paths and of node:fs, `content w p` being the bytes of the file at `p`. A write that fails may
-- have written to the file all the same.
pub record IsNodeFs {W : Type 0} (F : NodeFs W) (content : W → String → Option Bytes) : Type 0 where
  pub starts_with_iff : (p q : String) → (F.starts_with p q ≡ true) ↔ IsPrefix q p
  pub posix : F.sep ≡ "/"
  pub mkdir_same : (d : String) (w : W) (p : String) → content (F.mkdir d w).1 p ≡ content w p
  pub write-ok :
      (p : String) (b : Bytes) (w : W)
      → (F.write_file p b w).0 ≡ ok tt
      → content (F.write_file p b w).1 p ≡ some b
  pub write_ne :
      (p : String) (b : Bytes) (w : W) (q : String)
      → q ≢ p
      → content (F.write_file p b w).1 q ≡ content w q
  pub read_same : (p : String) (w : W) (q : String) → content (F.read_file p w).1 q ≡ content w q
  pub read-some :
      (p : String) (w : W) (b : Bytes) → content w p ≡ some b → (F.read_file p w).0 ≡ ok b
  pub rm_self : (p : String) (w : W) → (F.rm p w).0 ≡ ok tt → content (F.rm p w).1 p ≡ none
  pub rm_ne : (p : String) (w : W) (q : String) → q ≢ p → content (F.rm p w).1 q ≡ content w q
  pub access_same : (p : String) (w : W) (q : String) → content (F.access p w).1 q ≡ content w q

module _ {W : Type 0} (F : NodeFs W) (base_dir : String) (content : W → String → Option Bytes)
    (law : IsNodeFs F content) where
  abbrev backend : StorageBackend W
  backend = local_fs_backend F base_dir

  abbrev path : String → String
  path = key_path F base_dir

  -- A path below the base directory: the directory, a slash and more. A sibling whose name begins like
  -- the directory's is none.
  abbrev pub IsUnder : String → Type 0
  IsUnder = IsPrefix (F.absolute base_dir <> "/")

  -- Of a key whose path is not below the base directory, every operation refuses without an effect, and
  -- the key does not exist; of another, the operations work on its path. No file that is not below the
  -- directory ever changes. Other files than the key's never change, nor does any on a read. What was
  -- put is then read, and what was deleted is gone.
  pub record IsConfined (key : String) : Type 0 where
    pub refuses :
        ¬ IsUnder (path key)
        → (w : W)
        → let refused = error ("Refusing to access storage key outside base directory: " <> key) in
          ((d : Bytes) → backend.put key d w ≡ (err refused, w))
          × (backend.get key w ≡ (err refused, w))
          × (backend.delete key w ≡ (err refused, w))
          × (backend.exists key w ≡ (ok false, w))
    pub accepts :
        IsUnder (path key)
        → (w : W)
        → (backend.get key w ≡ F.read_file (path key) w)
          × (backend.delete key w ≡ F.rm (path key) w)
          × ((d : Bytes)
              → backend.put key d w
                ≡ (F.mkdir (F.dirname (path key)) >> F.write_file (path key) d) w)
    pub confined :
        (w : W) (q : String)
        → ¬ IsUnder q
        → ((d : Bytes) → content (backend.put key d w).1 q ≡ content w q)
          × (content (backend.get key w).1 q ≡ content w q)
          × (content (backend.delete key w).1 q ≡ content w q)
          × (content (backend.exists key w).1 q ≡ content w q)
    pub others :
        (w : W) (q : String)
        → q ≢ path key
        → ((d : Bytes) → content (backend.put key d w).1 q ≡ content w q)
          × (content (backend.delete key w).1 q ≡ content w q)
    pub reads :
        (w : W) (q : String)
        → (content (backend.get key w).1 q ≡ content w q)
          × (content (backend.exists key w).1 q ≡ content w q)
    pub put-get :
        (d : Bytes) (w : W)
        → (backend.put key d w).0 ≡ ok tt
        → (backend.get key (backend.put key d w).1).0 ≡ ok d
    pub gone :
        (w : W)
        → (backend.delete key w).0 ≡ ok tt
        → content (backend.delete key w).1 (path key) ≡ none

  -- The two steps of `put`, once the path is found.
  abbrev write : String → Bytes → Exec W (Unit {0})
  write key d = F.mkdir (F.dirname (path key)) >> F.write_file (path key) d
