-- ===== src/Prelude/Sorting.antt =====
-- What the queries leave to PostgreSQL: ORDER BY, whose order of rows with equal keys and of texts is
-- not the program's, and MAX over texts. It is a parameter of the model: any function that permutes
-- the rows into order, and any choice of one of the texts.
use mathlib.Core.Path.{◌≡◌, refl}
use mathlib.Core.Logic.{◌⊎◌, inl, inr}
use mathlib.Core.Bool.{Bool, true, false}
use mathlib.Core.List.{List, [], ◌∷◌, Permᴰ}
use mathlib.Core.List.Permᴰ
use Prim.Native.Nat.{ℕ, ◌≤◌}
use Prim.Native.String.{String}
use native.Mathlib.Nat.{le_trans}
use native.Mathlib.Omega.{arith}
use intelli_store.Prelude.Tests.{leb, leb→le, leb_false→le, if◌then◌else◌, Bool-cases}
use intelli_store.Prelude.Lists.{length, All, All-map}
use intelli_store.Prelude.Rows.{All-of}

abbrev pub Sorted {ℓ κ} : {A : Type ℓ} → (A → A → Type κ) → List A → Type κ
Sorted R [] = Unit
Sorted R (x ∷ xs) = All (R x) xs × Sorted R xs

pub record Postgres : Type 1 where
  -- ORDER BY key ASC, and ORDER BY key DESC.
  pub order_by : {A : Type 0} → (A → ℕ) → List A → List A
  pub order_by_desc : {A : Type 0} → (A → ℕ) → List A → List A
  pub order_by_text : {A : Type 0} → (A → String) → List A → List A
  -- The greater of two texts, in the database's collation.
  pub max_text : String → String → String
  pub order_by_text-perm :
      {A : Type 0} (key : A → String) (xs : List A) → Permᴰ (order_by_text key xs) xs
  pub max_text-mem : (s t : String) → (max_text s t ≡ s) ⊎ (max_text s t ≡ t)
  pub order_by-perm : {A : Type 0} (key : A → ℕ) (xs : List A) → Permᴰ (order_by key xs) xs
  pub order_by_desc-perm :
      {A : Type 0} (key : A → ℕ) (xs : List A) → Permᴰ (order_by_desc key xs) xs
  pub order_by-Sorted :
      {A : Type 0} (key : A → ℕ) (xs : List A) → Sorted (λ a b. key a ≤ key b) (order_by key xs)
  pub order_by_desc-Sorted :
      {A : Type 0} (key : A → ℕ) (xs : List A)
      → Sorted (λ a b. key b ≤ key a) (order_by_desc key xs)

module _ {ℓ} {A : Type ℓ} where
  pub All-perm {κ} : (P : A → Type κ) {xs ys : List A} → Permᴰ xs ys → All P xs → All P ys
  All-perm P Permᴰ.nil h = tt
  All-perm P (Permᴰ.cons e p) h = (rw e at h.0, All-perm P p h.1)
  All-perm P (Permᴰ.swap e f) h = (rw f at h.1.0, (rw e at h.0, h.1.1))
  All-perm P (Permᴰ.trans p q) h = All-perm P q (All-perm P p h)

  pub length-perm : {xs ys : List A} → Permᴰ xs ys → length xs ≡ length ys
  length-perm Permᴰ.nil = refl
  length-perm (Permᴰ.cons e p) = omega (arith, length-perm p)
  length-perm (Permᴰ.swap e f) = refl
  length-perm (Permᴰ.trans p q) = omega (arith, length-perm p, length-perm q)

-- An insertion sort meets the assumptions.
module _ {A : Type 0} where
  insert_row : (A → A → Bool) → A → List A → List A
  insert_row le x [] = x ∷ []
  insert_row le x (y ∷ ys) =
      let rest = insert_row le x ys in if le x y then x ∷ y ∷ ys else y ∷ rest

  unfoldable pub insertion_sort : (A → A → Bool) → List A → List A
  unfolding insert_row
  insertion_sort le [] = []
  insertion_sort le (x ∷ xs) = insert_row le x (insertion_sort le xs)

  insert_row-perm : (le : A → A → Bool) (x : A) (xs : List A) → Permᴰ (insert_row le x xs) (x ∷ xs)
  unfolding insert_row
  insert_row-perm le x [] = Permᴰ.refl _
  insert_row-perm le x (y ∷ ys) = elim (Bool-cases (le x y)) [
    | inl e ↦ rw e (Permᴰ.refl _)
    | inr e ↦ rw e (Permᴰ.trans (Permᴰ.cons refl (insert_row-perm le x ys)) (Permᴰ.swap refl refl))
  ]

  pub insertion_sort-perm : (le : A → A → Bool) (xs : List A) → Permᴰ (insertion_sort le xs) xs
  unfolding insertion_sort
  insertion_sort-perm le [] = Permᴰ.nil
  insertion_sort-perm le (x ∷ xs) =
      Permᴰ.trans (insert_row-perm le x (insertion_sort le xs))
        (Permᴰ.cons refl (insertion_sort-perm le xs))

  -- A test that is an order of the values that have the property P.
  module _ (P : A → Type 0) (R : A → A → Type 0) (le : A → A → Bool)
      (R_trans : (a b c : A) → R a b → R b c → R a c)
      (le_true : (a b : A) → P a → P b → le a b ≡ true → R a b)
      (le_false : (a b : A) → P a → P b → le a b ≡ false → R b a) where
    All-below : (x y : A) (ys : List A) → R x y → All (R y) ys → All (R x) ys
    All-below x y ys r h = All-map (R x) ys (λ z. R_trans x y z r) h

    insert_row-Sorted :
        (x : A) (xs : List A) → P x → All P xs → Sorted R xs → Sorted R (insert_row le x xs)
    unfolding insert_row
    insert_row-Sorted x [] p ps s = (tt, tt)
    insert_row-Sorted x (y ∷ ys) p ps s = elim (Bool-cases (le x y)) [
      | inl e ↦ let r = le_true x y p ps.0 e in rw e ((r, All-below x y ys r s.0), s)
      | inr e ↦ rw e (
        All-perm (R y) (Permᴰ.symm (insert_row-perm le x ys)) (le_false x y p ps.0 e, s.0),
        insert_row-Sorted x ys p ps.1 s.1,
      )
    ]

    pub insertion_sort-Sorted : (xs : List A) → All P xs → Sorted R (insertion_sort le xs)
    unfolding insertion_sort
    insertion_sort-Sorted [] ps = tt
    insertion_sort-Sorted (x ∷ xs) ps =
        insert_row-Sorted x (insertion_sort le xs) ps.0
          (All-perm P (Permᴰ.symm (insertion_sort-perm le xs)) ps.1) (insertion_sort-Sorted xs ps.1)

  -- Sorting by a number.
  pub sort_by-Sorted :
      (key : A → ℕ) (xs : List A)
      → Sorted (λ a b. key a ≤ key b) (insertion_sort (λ a b. leb (key a) (key b)) xs)
  sort_by-Sorted key xs =
      insertion_sort-Sorted (λ a. Unit) _ _ (λ a b c p q. le_trans p q)
        (λ a b _ _ e. leb→le (key a) (key b) e) (λ a b _ _ e. leb_false→le (key a) (key b) e) xs
        (All-of (λ a. Unit) xs (λ a. tt))

  pub sort_by_desc-Sorted :
      (key : A → ℕ) (xs : List A)
      → Sorted (λ a b. key b ≤ key a) (insertion_sort (λ a b. leb (key b) (key a)) xs)
  sort_by_desc-Sorted key xs =
      insertion_sort-Sorted (λ a. Unit) _ _ (λ a b c p q. le_trans q p)
        (λ a b _ _ e. leb→le (key b) (key a) e) (λ a b _ _ e. leb_false→le (key b) (key a) e) xs
        (All-of (λ a. Unit) xs (λ a. tt))

abbrev pub insertion_postgres : Postgres
insertion_postgres = record {
  order_by = λ key. insertion_sort (λ a b. leb (key a) (key b));
  order_by_desc = λ key. insertion_sort (λ a b. leb (key b) (key a));
  order_by_text = λ key xs. xs;
  max_text = λ s t. s;
  order_by_text-perm = λ key xs. Permᴰ.refl xs;
  max_text-mem = λ s t. inl refl;
  order_by-perm = λ key. insertion_sort-perm (λ a b. leb (key a) (key b));
  order_by_desc-perm = λ key. insertion_sort-perm (λ a b. leb (key b) (key a));
  order_by-Sorted = sort_by-Sorted;
  order_by_desc-Sorted = sort_by_desc-Sorted;
}
