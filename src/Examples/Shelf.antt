-- ===== src/Examples/Shelf.antt =====
-- An object store that is a function from keys to objects, and keeps the laws of the backends.
use mathlib.Core.Option.{none-ne-some}
use text.Mathlib.TextPositions.{eq_refl}
use intelli_store.Prelude.{
  String, ◌≡◌, refl, sym, ap, ◌≢◌, inl, inr, Bool, true, false, Option, none, some, ◌==◌, eq_iff,
  Bool-cases, if◌then◌else◌,
}
use intelli_store.Effects.{Result, ok, err, error}
use intelli_store.Storage.Chunking.{Bytes}
use intelli_store.Storage.Interfaces.{StorageBackend, IsObjectStore, IsReliable}

abbrev pub Store : Type 0
Store = String → Option Bytes

abbrev read_object : Option Bytes → Result Bytes
read_object none = err (error "NoSuchKey")
read_object (some d) = ok d

abbrev there : Option Bytes → Bool
there none = false
there (some _) = true

abbrev pub backend : StorageBackend Store
backend = record {
  put = λ k d w. (ok tt, λ j. if j == k then some d else w j);
  get = λ k w. (read_object (w k), w);
  delete = λ k w. (ok tt, λ j. if j == k then none else w j);
  exists = λ k w. (ok (there (w k)), w);
}

abbrev pub object : Store → String → Option Bytes
object w k = w k

other_key : (j k : String) → j ≢ k → (j == k) ≡ false
other_key j k h = elim (Bool-cases (j == k)) [ inl e ↦ absurd (h ((eq_iff j k).0 e)) | inr e ↦ e ]

read_object-ok : (r : Option Bytes) (d : Bytes) → read_object r ≡ ok d → r ≡ some d
read_object-ok none d h = absurd (cc)
read_object-ok (some x) d h = let e : x ≡ d = cc in ap some e

there-true : (r : Option Bytes) → ok (there r) ≡ ok true → r ≢ none
there-true none h = λ e. cc
there-true (some x) h = λ e. none-ne-some x (sym e)

there-false : (r : Option Bytes) → ok (there r) ≡ ok false → r ≡ none
there-false none h = refl
there-false (some x) h = absurd (cc)

pub lawful : IsObjectStore backend object
lawful = record {
  put-ok = λ k d w h. rw (eq_refl k) refl;
  put_self = λ k d w. inr (rw (eq_refl k) refl);
  put_ne = λ k d w j h. rw (other_key j k h) refl;
  exists_same = λ k w j. refl;
  exists-true = λ k w. there-true (w k);
  get_same = λ k w j. refl;
  get-ok = λ k w d. read_object-ok (w k) d;
  delete_ne = λ k w j h. rw (other_key j k h) refl;
}

pub reliable : IsReliable backend object
reliable = record {
  exists-false = λ k w. there-false (w k);
  delete_self = λ k w. rw (eq_refl k) refl;
  get-some = λ k w d h. rw h refl;
}
