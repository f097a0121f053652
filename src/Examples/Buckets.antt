-- ===== src/Examples/Buckets.antt =====
-- A MinIO client whose buckets are one shelf, and the backend over it.
use mathlib.Core.Option.{none-ne-some}
use mathlib.Core.List.{append-nil, flatten}
use intelli_store.Prelude.{String, ◌≡◌, refl, sym, ap, ◌≢◌, true, Option, none, some, List, [], ◌∷◌}
use intelli_store.Effects.{Result, err, error, ok, pure}
use intelli_store.Storage.Chunking.{Bytes}
use intelli_store.Storage.Interfaces.{IsObjectStore}
use intelli_store.Storage.Minio.{Minio, minio_backend}
use intelli_store.Storage.Minio.Laws.{IsMinio, minio_backend-IsObjectStore}
use intelli_store.Examples.Shelf.{Store, backend, lawful}

abbrev streamed : Option Bytes → Result (List Bytes)
streamed none = err (error "NoSuchKey")
streamed (some d) = ok (d ∷ [])

abbrev found : Option Bytes → Result (Unit {0})
found none = err (error "NotFound")
found (some d) = ok tt

abbrev minio : Minio Store
minio = record {
  bucket_exists = λ b. pure true;
  make_bucket = λ b. pure tt;
  put_object = λ b k d. backend.put k d;
  get_object = λ b k w. (streamed (w k), w);
  remove_object = λ b k. backend.delete k;
  stat_object = λ b k w. (found (w k), w);
  copy_object = λ b k source. pure tt;
}

abbrev contents : Store → String → String → Option Bytes
contents w b k = w k

streamed-ok :
    (o : Option Bytes) (chunks : List Bytes) → streamed o ≡ ok chunks → o ≡ some (flatten chunks)
unfolding flatten
streamed-ok none chunks h = absurd (cc)
streamed-ok (some d) chunks h =
    let same : d ∷ [] ≡ chunks = cc in rw⁻¹ same (ap some (sym (append-nil d)))

found-ok : (o : Option Bytes) → found o ≡ ok tt → o ≢ none
found-ok none h = λ e. cc
found-ok (some d) h = λ e. none-ne-some d (sym e)

documented : IsMinio minio contents
documented = record {
  put_ok = λ b. lawful.put-ok;
  put_self = λ b. lawful.put_self;
  put_ne = λ b. lawful.put_ne;
  stat_same = λ b k w j. refl;
  stat_ok = λ b k w. found-ok (w k);
  get_same = λ b k w j. refl;
  get_ok = λ b k w. streamed-ok (w k);
  remove_ne = λ b. lawful.delete_ne;
}

minio_backend-IsObjectStore_example :
    IsObjectStore (minio_backend minio "chunks") (λ w k. contents w "chunks" k)
minio_backend-IsObjectStore_example = minio_backend-IsObjectStore minio contents documented "chunks"
