-- ===== src/Prelude/Ordered.antt =====
-- Rows in ascending order of a key that no two of them share: ORDER BY leaves no choice then.
use mathlib.Core.Path.{◌≡◌, refl, sym, ap, subst, ◌∙◌}
use mathlib.Core.Logic.{◌⊎◌, inl, inr}
use mathlib.Core.Bool.{Bool, true, false}
use mathlib.Core.List.{List, [], ◌∷◌, Permᴰ}
use mathlib.Core.List.Permᴰ
use Prim.Native.Nat.{ℕ, ◌≤◌, ◌<◌}
use native.Mathlib.Omega.{arith}
use intelli_store.Prelude.Tests.{eqb, leb, leb→le, Bool-cases}
use intelli_store.Prelude.Lists.{length, All, All-map, filter}
use intelli_store.Prelude.Sorting.{All-perm, Sorted, length-perm}

module _ {A : Type 0} where
  single : (a : A) (xs : List A) → All (λ x. x ≡ a) xs → length xs ≡ 1 → xs ≡ a ∷ []
  single a [] h e = absurd (omega (arith, e))
  single a (x ∷ []) h e = ap (λ y. y ∷ []) h.0
  single a (x ∷ y ∷ xs) h e = absurd (omega (arith, e))

  pub perm-single : {xs : List A} (a : A) → Permᴰ xs (a ∷ []) → xs ≡ a ∷ []
  perm-single {xs} a p =
      single a xs (All-perm (λ x. x ≡ a) (Permᴰ.symm p) (refl, tt)) (length-perm p)

module _ {A : Type 0} (key : A → ℕ) where
  abbrev has_key : ℕ → A → Bool
  has_key k a = eqb (key a) k

  abbrev pub Ascending : List A → Type 0
  Ascending = Sorted λ a b. key a < key b

  -- The rows of each key are the same.
  abbrev SameRows : List A → List A → Type 0
  SameRows xs ys = (k : ℕ) → filter (has_key k) xs ≡ filter (has_key k) ys

  filter-perm : (p : A → Bool) {xs ys : List A} → Permᴰ xs ys → Permᴰ (filter p xs) (filter p ys)
  filter-perm p Permᴰ.nil = Permᴰ.nil
  filter-perm p (Permᴰ.cons {a} e h) = elim (Bool-cases (p a)) [
    | inl s ↦ rw (s, sym (ap p e) ∙ s) (Permᴰ.cons e (filter-perm p h))
    | inr s ↦ rw (s, sym (ap p e) ∙ s) (filter-perm p h)
  ]
  filter-perm p (Permᴰ.swap {a} {b} {l} e f) = elim (Bool-cases (p a)) [
    | inl s ↦ elim (Bool-cases (p b)) [
      | inl t ↦ rw (s, t, sym (ap p e) ∙ s, sym (ap p f) ∙ t) (Permᴰ.swap e f)
      | inr t ↦ rw (s, t, sym (ap p e) ∙ s, sym (ap p f) ∙ t) (Permᴰ.cons e (Permᴰ.refl _))
    ]
    | inr s ↦ elim (Bool-cases (p b)) [
      | inl t ↦ rw (s, t, sym (ap p e) ∙ s, sym (ap p f) ∙ t) (Permᴰ.cons f (Permᴰ.refl _))
      | inr t ↦ rw (s, t, sym (ap p e) ∙ s, sym (ap p f) ∙ t) (Permᴰ.refl _)
    ]
  ]
  filter-perm p (Permᴰ.trans g h) = Permᴰ.trans (filter-perm p g) (filter-perm p h)

  above_key : (k : ℕ) (xs : List A) → All (λ a. k < key a) xs → filter (has_key k) xs ≡ []
  above_key k [] h = refl
  above_key k (x ∷ xs) h = ground (arith, above_key k xs h.1)

  perm-nil : (xs : List A) → Permᴰ xs [] → xs ≡ []
  perm-nil [] p = refl
  perm-nil (x ∷ xs) p = absurd (omega (arith, length-perm p))

  -- A key is the key of one row at most.
  slice :
      (k : ℕ) (ys : List A)
      → Ascending ys
      → (filter (has_key k) ys ≡ []) ⊎ ((a : A) × (filter (has_key k) ys ≡ a ∷ []))
  slice k [] s = inl refl
  slice k (y ∷ ys) s = elim (Bool-cases (has_key k y)) [
    | inr e ↦ rw e (slice k ys s.1)
    | inl e ↦
        let rest : filter (has_key k) ys ≡ [] =
          above_key k ys (All-map _ ys (λ a h. ground (arith, h, e)) s.0) in
        rw (e, rest) (inr (y, refl))
  ]

  perm-SameRows : {xs ys : List A} → Permᴰ xs ys → Ascending ys → SameRows xs ys
  perm-SameRows {xs} {ys} p s k =
      let q : Permᴰ (filter (has_key k) xs) (filter (has_key k) ys) = filter-perm (has_key k) p in
      elim (slice k ys s) [
        | inl e ↦ rw e (perm-nil _ (rw e at q))
        | inr (a, e) ↦ rw e (perm-single a (rw e at q))
      ]

  has_own_key : (a : A) → has_key (key a) a ≡ true
  has_own_key a = ground arith

  -- Where the first row of a list has a key, the other list's first row has none above it.
  first_le :
      (x y : A) (xs ys : List A)
      → All (λ a. key y ≤ key a) ys
      → filter (has_key (key x)) (x ∷ xs) ≡ filter (has_key (key x)) (y ∷ ys)
      → key y ≤ key x
  first_le x y xs ys s h = elim (Bool-cases (leb (key y) (key x))) [
    | inl e ↦ leb→le _ _ e
    | inr e ↦
        let above : key x < key y = ground (arith, e) in
        let none_here : filter (has_key (key x)) (y ∷ ys) ≡ [] =
          above_key (key x) (y ∷ ys) (above, All-map _ ys (λ a k. omega (arith, k, above)) s) in
        absurd (
          let e : filter (has_key (key x)) (x ∷ xs) ≡ [] = h ∙ none_here in
          let e' = rw (has_own_key x) at e in cc)
  ]

  SameRows-eq :
      (xs ys : List A) → Sorted (λ a b. key a ≤ key b) xs → Ascending ys → SameRows xs ys → xs ≡ ys
  SameRows-eq [] [] s t h = refl
  SameRows-eq [] (y ∷ ys) s t h = absurd (
      let e : [] ≡ filter (has_key (key y)) (y ∷ ys) = h (key y) in
      let e' = rw (has_own_key y) at e in cc)
  SameRows-eq (x ∷ xs) [] s t h = absurd (
      let e : filter (has_key (key x)) (x ∷ xs) ≡ [] = h (key x) in
      let e' = rw (has_own_key x) at e in cc)
  SameRows-eq (x ∷ xs) (y ∷ ys) s t h =
      let above = first_le x y xs ys (All-map _ ys (λ a k. omega (arith, k)) t.0) (h (key x)) in
      let below = first_le y x ys xs s.0 (sym (h (key y))) in
      let same : has_key (key y) x ≡ true = ground (arith, above, below) in
      let e : x ∷ filter (has_key (key y)) xs ≡ y ∷ filter (has_key (key y)) ys =
        let all : filter (has_key (key y)) (x ∷ xs) ≡ filter (has_key (key y)) (y ∷ ys) =
          h (key y) in
        rw (same, has_own_key y) at all in
      let tails : SameRows xs ys = λ k. elim (Bool-cases (has_key k y)) [
        | inl f ↦
            let is : key y ≡ k = ground (arith, f) in
            subst (λ n. filter (has_key n) xs ≡ filter (has_key n) ys) is cc
        | inr f ↦
            let g : has_key k x ≡ false = ground (arith, f, above, below) in
            let all : filter (has_key k) (x ∷ xs) ≡ filter (has_key k) (y ∷ ys) = h k in
            rw (g, f) at all
      ] in
      let hd : x ≡ y = cc in ap (λ a. a ∷ xs) hd ∙ ap (◌∷◌ y) (SameRows-eq xs ys s.1 t.1 tails)

  -- The rows in order of the key are the ascending list itself.
  pub eq_of_perm :
      {xs ys : List A} → Permᴰ xs ys → Sorted (λ a b. key a ≤ key b) xs → Ascending ys → xs ≡ ys
  eq_of_perm {xs} {ys} p s t = SameRows-eq xs ys s t (perm-SameRows p t)
