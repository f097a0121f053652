-- ===== src/Storage/Minio.antt =====
-- services/storage-service/src/storage/minio-storage-backend.ts, over the MinIO client.
pub mod Laws
use intelli_store.Prelude.{
  ℕ, zero, suc, String, ◌≡◌, sym, ap, ◌∙◌, Bool, true, false, List, [], ◌∷◌, ◌++◌, flatten, eqb,
  if◌then◌else◌,
}
use mathlib.Core.List.{append-nil, append_assoc}
use intelli_store.Effects.{Exec, catch, pure, throw, ◌>>=◌, ◌>>◌}
use intelli_store.Storage.Chunking.{Bytes}
use intelli_store.Storage.Interfaces.{StorageBackend}

-- What the client is asked for, with the bucket first; an object is read as a stream of buffers.
pub record Minio (W : Type 0) : Type 0 where
  pub bucket_exists : String → Exec W Bool
  pub make_bucket : String → Exec W (Unit {0})
  pub put_object : String → String → Bytes → Exec W (Unit {0})
  pub get_object : String → String → Exec W (List Bytes)
  pub remove_object : String → String → Exec W (Unit {0})
  pub stat_object : String → String → Exec W (Unit {0})
  -- `copyObject`: destination bucket, key, and the path of the source.
  pub copy_object : String → String → String → Exec W (Unit {0})

module _ {W : Type 0} (M : Minio W) (sleep : W → W) (bucket : String) where
  abbrev create_unless : Bool → Exec W (Unit {0})
  create_unless true = pure tt
  create_unless false = M.make_bucket bucket

  abbrev pub ensure_bucket : Exec W (Unit {0})
  ensure_bucket = do exists ← M.bucket_exists bucket; create_unless exists

  -- The loop of `init` with so many attempts left.
  unfoldable pub init_loop : ℕ → Exec W (Unit {0})
  init_loop zero = pure tt
  init_loop (suc left) =
      catch ensure_bucket
        (λ e w. (let again = init_loop left (sleep w) in if eqb left 0 then (throw e w) else again))

  unfoldable pub init : Exec W (Unit {0})
  init = init_loop 10

-- The loop of `streamToBuffer`, which collects the chunks, and `Buffer.concat`.
collect : List Bytes → List Bytes → List Bytes
collect chunks [] = chunks
collect chunks (chunk ∷ rest) = collect (chunks ++ chunk ∷ []) rest

pub stream_to_buffer : List Bytes → Bytes
unfolding collect
stream_to_buffer stream = flatten (collect [] stream)

collect-append : (chunks rest : List Bytes) → collect chunks rest ≡ chunks ++ rest
unfolding collect
collect-append chunks [] = sym (append-nil chunks)
collect-append chunks (chunk ∷ rest) =
    collect-append (chunks ++ chunk ∷ []) rest ∙ append_assoc chunks (chunk ∷ []) rest

-- What comes out is what the stream brought, from its first byte to its last.
pub stream_to_buffer-flatten : (stream : List Bytes) → stream_to_buffer stream ≡ flatten stream
unfolding stream_to_buffer collect
stream_to_buffer-flatten stream = ap flatten (collect-append [] stream)

abbrev pub minio_backend : {W : Type 0} → Minio W → String → StorageBackend W
minio_backend M bucket = record {
  put = λ key bytes. M.put_object bucket key bytes;
  get = λ key. (do chunks ← M.get_object bucket key; pure (stream_to_buffer chunks));
  delete = λ key. M.remove_object bucket key;
  exists = λ key. catch (M.stat_object bucket key >> pure true) (λ _. pure false);
}
