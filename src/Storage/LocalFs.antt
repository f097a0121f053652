-- ===== src/Storage/LocalFs.antt =====
-- services/storage-service/src/storage/local-fs-storage-backend.ts, over node:fs and node:path.
pub mod Laws
use intelli_store.Prelude.{String, ◌<>◌, Bool, true, false, not}
use intelli_store.Effects.{Exec, catch, error, pure, unless, ◌>>=◌, ◌>>◌}
use intelli_store.Storage.Chunking.{Bytes}
use intelli_store.Storage.Interfaces.{StorageBackend}

-- What the backend takes from node:path, from strings and from node:fs.
pub record NodeFs (W : Type 0) : Type 0 where
  pub normalize : String → String
  -- `resolve` of one path, and of a path in a directory.
  pub absolute : String → String
  pub resolve : String → String → String
  pub dirname : String → String
  pub sep : String
  pub starts_with : String → String → Bool
  -- `mkdir` and `rm` with the options that the backend gives: parents too, and no error for what is missing.
  pub mkdir : String → Exec W (Unit {0})
  pub write_file : String → Bytes → Exec W (Unit {0})
  pub read_file : String → Exec W Bytes
  pub rm : String → Exec W (Unit {0})
  pub access : String → Exec W (Unit {0})

module _ {W : Type 0} (F : NodeFs W) (base_dir : String) where
  abbrev pub key_path : String → String
  key_path key = F.resolve base_dir (F.normalize key)

  abbrev pub is_inside : String → Bool
  is_inside path = F.starts_with path (F.absolute base_dir <> F.sep)

  unfoldable pub resolve_key_path : String → Exec W String
  resolve_key_path key =
      unless (not (is_inside (key_path key)))
        (error ("Refusing to access storage key outside base directory: " <> key))
        (pure (key_path key))

  unfoldable pub local_fs_backend : StorageBackend W
  local_fs_backend = record {
    put = λ key bytes. (do
      file_path ← resolve_key_path key
      F.mkdir (F.dirname file_path)
      F.write_file file_path bytes);
    get = λ key. (do file_path ← resolve_key_path key; F.read_file file_path);
    delete = λ key. (do file_path ← resolve_key_path key; F.rm file_path);
    exists = λ key.
        catch (do file_path ← resolve_key_path key; F.access file_path; pure true)
          (λ _. pure false);
  }

  -- The constructor, which makes the directory.
  unfoldable pub open_local_fs : Exec W (StorageBackend W)
  open_local_fs = do F.mkdir (base_dir); pure local_fs_backend
