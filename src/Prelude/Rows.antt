-- ===== src/Prelude/Rows.antt =====
-- Tables as lists of rows: keys without repetition, and what an UPDATE keeps.
use Prim.Native.Nat.{ℕ, ◌+◌, ◌*◌}
use Prim.Native.String.{String}
use mathlib.Core.Path.{◌≡◌, refl, ap, ap₂, subst}
use mathlib.Core.Option.{some, none-ne-some, some-injective}
use mathlib.Core.Logic.{inl, inr}
use mathlib.Core.Bool.{Bool, true, false}
use mathlib.Core.List.{List, [], ◌∷◌, ◌++◌, map}
use native.Mathlib.Omega.{arith}
use text.Mathlib.Text.{◌==◌}
use text.Mathlib.TextEquality.{eq_iff}
use text.Mathlib.TextPositions.{eq_refl}
use intelli_store.Prelude.Tests.{if◌then◌else◌, Bool-cases}
use intelli_store.Prelude.Lists.{All, All-map, filter, find?, update_where, length, sum_of}

module _ {ℓ} {A : Type ℓ} where
  pub All-map₂ {κ μ ν} :
      {P : A → Type κ} {Q : A → Type μ} (R : A → Type ν) (xs : List A)
      → ((x : A) → P x → Q x → R x)
      → All P xs
      → All Q xs
      → All R xs
  All-map₂ R [] f h k = tt
  All-map₂ R (x ∷ xs) f h k = (f x h.0 k.0, All-map₂ R xs f h.1 k.1)

  pub All-of {κ} : (P : A → Type κ) (xs : List A) → ((x : A) → P x) → All P xs
  All-of P [] f = tt
  All-of P (x ∷ xs) f = (f x, All-of P xs f)

  -- No two rows have the same text under a key, as after UNIQUE or PRIMARY KEY.
  abbrev pub Unique : (A → String) → List A → Type 0
  Unique key [] = Unit
  Unique key (x ∷ xs) = All (λ y. (key x == key y) ≡ false) xs × Unique key xs

  pub map_ext {κ} :
      {B : Type κ} (f g : A → B) (xs : List A) → All (λ x. f x ≡ g x) xs → map f xs ≡ map g xs
  map_ext f g [] h = refl
  map_ext f g (x ∷ xs) h = ap₂ ◌∷◌ h.0 (map_ext f g xs h.1)

  pub map_id : (xs : List A) → map (λ x. x) xs ≡ xs
  map_id [] = refl
  map_id (x ∷ xs) = ap (◌∷◌ x) (map_id xs)

  pub map-update_where {κ} :
      {B : Type κ} (g : A → B) (p : A → Bool) (f : A → A) (xs : List A)
      → map g (update_where p f xs) ≡ map (λ x. g (if p x then f x else x)) xs
  map-update_where g p f [] = refl
  map-update_where g p f (x ∷ xs) =
      ap (◌∷◌ (g (if p x then f x else x))) (map-update_where g p f xs)

  pub All-update_where {κ} :
      (P : A → Type κ) (p : A → Bool) (f : A → A) (xs : List A)
      → ((x : A) → P x → P (f x))
      → All P xs
      → All P (update_where p f xs)
  All-update_where P p f [] k h = tt
  All-update_where P p f (x ∷ xs) k h = elim (Bool-cases (p x)) [
    | inl e ↦ rw e (k x h.0, All-update_where P p f xs k h.1)
    | inr e ↦ rw e (h.0, All-update_where P p f xs k h.1)
  ]

  -- An UPDATE, told by what it does to the rows that it selects and to the others.
  pub All-update_cases {κ μ} :
      (P : A → Type κ) (R : A → Type μ) (p : A → Bool) (f : A → A) (xs : List A)
      → ((x : A) → P x → p x ≡ true → R (f x))
      → ((x : A) → P x → p x ≡ false → R x)
      → All P xs
      → All R (update_where p f xs)
  All-update_cases P R p f [] change keep h = tt
  All-update_cases P R p f (x ∷ xs) change keep h = elim (Bool-cases (p x)) [
    | inl e ↦ rw e (change x h.0 e, All-update_cases P R p f xs change keep h.1)
    | inr e ↦ rw e (keep x h.0 e, All-update_cases P R p f xs change keep h.1)
  ]

  pub Unique-update_where :
      (key : A → String) (p : A → Bool) (f : A → A) (xs : List A)
      → ((x : A) → key (f x) ≡ key x)
      → Unique key xs
      → Unique key (update_where p f xs)
  Unique-update_where key p f [] k u = tt
  Unique-update_where key p f (x ∷ xs) k u = (
    All-map (λ y. (key (if p x then f x else x) == key y) ≡ false) (update_where p f xs)
        (λ y h. rw (same (p x)) h)
        (All-update_where (λ y. (key x == key y) ≡ false) p f xs (λ y h. rw (k y) h) u.0),
    Unique-update_where key p f xs k u.1,
  )
    where
      same : (b : Bool) → key (if b then f x else x) ≡ key x
      same true = k x
      same false = refl

  pub filter-append :
      (p : A → Bool) (xs ys : List A) → filter p (xs ++ ys) ≡ filter p xs ++ filter p ys
  filter-append p [] ys = refl
  filter-append p (x ∷ xs) ys = ground (arith, filter-append p xs ys)

  -- An UPDATE that adds to a column adds that much for each row that it changes.
  pub sum_of-update_where :
      (g : A → ℕ) (p : A → Bool) (f : A → A) (d : ℕ) (xs : List A)
      → ((x : A) → g (f x) ≡ g x + d)
      → sum_of g (update_where p f xs) ≡ sum_of g xs + length (filter p xs) * d
  sum_of-update_where g p f d [] k = omega arith
  sum_of-update_where g p f d (x ∷ xs) k = elim (Bool-cases (p x)) [
    | inl e ↦ rw e (omega (arith, k x, sum_of-update_where g p f d xs k))
    | inr e ↦ rw e (omega (arith, sum_of-update_where g p f d xs k))
  ]

  -- A test that an UPDATE does not disturb counts the same rows after it.
  pub length-filter-update_where :
      (q p : A → Bool) (f : A → A) (xs : List A)
      → ((x : A) → q (f x) ≡ q x)
      → length (filter q (update_where p f xs)) ≡ length (filter q xs)
  length-filter-update_where q p f [] k = refl
  length-filter-update_where q p f (x ∷ xs) k =
      ground (arith, k x, length-filter-update_where q p f xs k)

  filter-none :
      (key : A → String) (s : String) (xs : List A)
      → All (λ y. (s == key y) ≡ false) xs
      → length (filter (λ y. key y == s) xs) ≡ 0
  filter-none key s [] h = refl
  filter-none key s (x ∷ xs) h =
      ground (arith, eq_iff s (key x), eq_iff (key x) s, filter-none key s xs h.1)

  -- Each key of a table without repetition has one row.
  pub Unique-count :
      (key : A → String) (xs : List A)
      → Unique key xs
      → All (λ x. length (filter (λ y. key y == key x) xs) ≡ 1) xs
  Unique-count key [] u = tt
  Unique-count key (x ∷ xs) u = (
    ground (arith, eq_refl (key x), filter-none key (key x) xs u.0),
    All-map₂ (λ y. length (filter (λ z. key z == key y) (x ∷ xs)) ≡ 1) xs
        (λ y d e. ground (arith, d, e)) u.0 (Unique-count key xs u.1),
  )

  -- A row of a table without repetition is found by its key.
  pub Unique-find :
      (key : A → String) (xs : List A)
      → Unique key xs
      → All (λ x. find? (λ y. key y == key x) xs ≡ some x) xs
  Unique-find key [] u = tt
  Unique-find key (x ∷ xs) u = (
    rw (eq_refl (key x)) refl,
    All-map₂ (λ y. find? (λ z. key z == key y) (x ∷ xs) ≡ some y) xs (λ y d e. rw d e) u.0
        (Unique-find key xs u.1),
  )

  -- A row of a table without repetition is the only one with its key.
  pub Unique-row :
      (key : A → String) (xs : List A)
      → Unique key xs
      → All (λ x. All (λ y. (key y == key x) ≡ true → y ≡ x) xs) xs
  Unique-row key [] u = tt
  Unique-row key (x ∷ xs) u = (
    (
      λ e. refl,
      All-map _ xs
          (λ y d e. absurd (ground (arith, eq_iff (key x) (key y), eq_iff (key y) (key x)))) u.0,
    ),
    All-map₂ (λ y. All (λ z. (key z == key y) ≡ true → z ≡ y) (x ∷ xs)) xs
        (λ y d h. (λ e. absurd (cc), h)) u.0 (Unique-row key xs u.1),
  )

  pub find-some : (p : A → Bool) (xs : List A) {x : A} → find? p xs ≡ some x → p x ≡ true
  find-some p [] h = absurd (none-ne-some _ h)
  find-some p (y ∷ ys) {x} h = elim (Bool-cases (p y)) [
    | inl e ↦
        let h' : some y ≡ some x = rw e at h in subst (λ z. p z ≡ true) (some-injective y x h') e
    | inr e ↦ find-some p ys (rw e at h)
  ]

  -- What holds of every row holds of the one that is found.
  pub find-All {κ} :
      (P : A → Type κ) (p : A → Bool) (xs : List A) {x : A} → All P xs → find? p xs ≡ some x → P x
  find-All P p [] h e = absurd (none-ne-some _ e)
  find-All P p (y ∷ ys) {x} h e = elim (Bool-cases (p y)) [
    | inl b ↦ let e' : some y ≡ some x = rw b at e in subst P (some-injective y x e') h.0
    | inr b ↦ find-All P p ys h.1 (rw b at e)
  ]

  -- A selection that an UPDATE does not touch.
  pub filter-update_where :
      (q p : A → Bool) (f : A → A) (xs : List A)
      → ((x : A) → q (f x) ≡ q x)
      → All (λ x. p x ≡ true → q x ≡ false) xs
      → filter q (update_where p f xs) ≡ filter q xs
  filter-update_where q p f [] k h = refl
  filter-update_where q p f (x ∷ xs) k h = elim (Bool-cases (p x)) [
    | inl e ↦ let n = h.0 e in rw (e, k x, n) (filter-update_where q p f xs k h.1)
    | inr e ↦ rw (e, filter-update_where q p f xs k h.1) refl
  ]
