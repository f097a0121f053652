-- ===== src/Storage/Minio/Laws.antt =====
-- The backend over MinIO keeps what the services rely on, and so does the copy between buckets.
use intelli_store.Prelude.{
  String, ◌≡◌, refl, sym, ap, ◌∙◌, ◌≢◌, ◌⊎◌, inl, inr, true, false, Option, none, some, List,
  flatten,
}
use intelli_store.Effects.{ok, err, Result-cases}
use intelli_store.Storage.Chunking.{Bytes}
use intelli_store.Storage.Interfaces.{IsObjectStore, StorageBackend}
use intelli_store.Storage.Minio.{Minio, minio_backend, stream_to_buffer, stream_to_buffer-flatten}

-- What is documented of the client: what is in the buckets after each of its calls. A failed
-- `putObject` or `removeObject` may have worked all the same; a failed `statObject` says nothing.
pub record IsMinio {W : Type 0} (M : Minio W) (contents : W → String → String → Option Bytes)
    : Type 0 where
  pub put_ok :
      (b k : String) (d : Bytes) (w : W)
      → (M.put_object b k d w).0 ≡ ok tt
      → contents (M.put_object b k d w).1 b k ≡ some d
  pub put_self :
      (b k : String) (d : Bytes) (w : W)
      → (contents (M.put_object b k d w).1 b k ≡ contents w b k)
        ⊎ (contents (M.put_object b k d w).1 b k ≡ some d)
  pub put_ne :
      (b k : String) (d : Bytes) (w : W) (j : String)
      → j ≢ k
      → contents (M.put_object b k d w).1 b j ≡ contents w b j
  pub stat_same :
      (b k : String) (w : W) (j : String) → contents (M.stat_object b k w).1 b j ≡ contents w b j
  pub stat_ok : (b k : String) (w : W) → (M.stat_object b k w).0 ≡ ok tt → contents w b k ≢ none
  pub get_same :
      (b k : String) (w : W) (j : String) → contents (M.get_object b k w).1 b j ≡ contents w b j
  pub get_ok :
      (b k : String) (w : W) (chunks : List Bytes)
      → (M.get_object b k w).0 ≡ ok chunks
      → contents w b k ≡ some (flatten chunks)
  pub remove_ne :
      (b k : String) (w : W) (j : String)
      → j ≢ k
      → contents (M.remove_object b k w).1 b j ≡ contents w b j

module _ {W : Type 0} (M : Minio W) (contents : W → String → String → Option Bytes)
    (law : IsMinio M contents) (bucket : String) where
  abbrev B : StorageBackend W
  B = minio_backend M bucket

  exists-world : (k : String) (w : W) → (B.exists k w).1 ≡ (M.stat_object bucket k w).1
  exists-world k w = elim (Result-cases (M.stat_object bucket k w).0) [
    | inl (_, e) ↦ rw e refl
    | inr (x, e) ↦ rw e refl
  ]

  exists-stat :
      (k : String) (w : W) → (B.exists k w).0 ≡ ok true → (M.stat_object bucket k w).0 ≡ ok tt
  exists-stat k w h = elim (Result-cases (M.stat_object bucket k w).0) [
    | inl (_, e) ↦ e
    | inr (x, e) ↦ absurd (let no : ok false ≡ ok true = rw e at h in cc)
  ]

  get-world : (k : String) (w : W) → (B.get k w).1 ≡ (M.get_object bucket k w).1
  get-world k w = elim (Result-cases (M.get_object bucket k w).0) [
    | inl (_, e) ↦ rw e refl
    | inr (x, e) ↦ rw e refl
  ]

  get-contents :
      (k : String) (w : W) (d : Bytes) → (B.get k w).0 ≡ ok d → contents w bucket k ≡ some d
  get-contents k w d h = elim (Result-cases (M.get_object bucket k w).0) [
    | inl (chunks, e) ↦
        let same : ok (stream_to_buffer chunks) ≡ ok d = rw e at h in
        let bytes : stream_to_buffer chunks ≡ d = cc in
        law.get_ok bucket k w chunks e ∙ ap some (sym (stream_to_buffer-flatten chunks) ∙ bytes)
    | inr (x, e) ↦ absurd (let no : err x ≡ ok d = rw e at h in cc)
  ]

  -- Over a client that keeps its documentation, the backend of a bucket is an object store in the
  -- sense that uploads and downloads rely on: in particular its `exists` answers true only of a key
  -- that is there, though it takes any error for absence, and its `get`, which collects a stream of
  -- buffers, returns the bytes of the object in their order.
  pub minio_backend-IsObjectStore :
      IsObjectStore (minio_backend M bucket) (λ w k. contents w bucket k)
  minio_backend-IsObjectStore = record {
    put-ok = law.put_ok bucket;
    put_self = law.put_self bucket;
    put_ne = law.put_ne bucket;
    exists_same = λ k w j. rw (exists-world k w) (law.stat_same bucket k w j);
    exists-true = λ k w h. law.stat_ok bucket k w (exists-stat k w h);
    get_same = λ k w j. rw (get-world k w) (law.get_same bucket k w j);
    get-ok = get-contents;
    delete_ne = law.remove_ne bucket;
  }
